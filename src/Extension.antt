-- ===== src/Extension.antt =====
-- vscode-extension/src/extension.ts: the commands. A command returns the effects that it asks of
-- VS Code, in order; what the user chooses is an argument.
pub mod Resolve
pub mod Lines
pub mod Pulling
pub mod Pull
pub mod Tests
use rubber_duck.Prelude.{
  ℕ, Bool, true, false, not, ◌||◌, Option, none, some, List, [], ◌∷◌, ◌++◌, ◌==◌, if◌then◌else◌,
  Text, codes, same, trim,
}
use rubber_duck.Cli.{Config, duck_path, base_url, base_args, shell_quote}
use rubber_duck.Cli.Process.{Exit, Outcome, resolved, rejected, exec_duck}
use rubber_duck.Local.{FilePath, dirname, LocalCourse, find_course_root_for, challenge_slug_for}
use rubber_duck.Api.{CourseSummary, load_token, Result, ok, auth_error, error, list_courses}
use rubber_duck.Courses.{
  Env, Item, course_item, variant_item, challenge_item, message_item, VariantItem, ChallengeItem,
}

pub data Effect : Type 0 where
  -- `runInTerminal(cwd, args)`
  run_in_terminal : FilePath → List Text → Effect
  -- a new terminal, and the line sent to it
  login_terminal : Text → Effect
  -- `execDuck(cwd, args)`
  exec : FilePath → List Text → Effect
  show_error : Text → Effect
  show_information : Text → Effect
  open_external : Text → Effect
  refresh : Effect
  reveal : FilePath → Effect

pub record ChallengeRef : Type 0 where
  pub root : FilePath
  pub slug : Option Text

-- What a command is invoked with: nothing, a tree item, an object with `root` (as a lens passes it),
-- or anything else.
pub data Arg : Type 0 where
  nothing : Arg
  tree_item : Item → Arg
  ref : ChallengeRef → Arg
  other : Arg

pub record TextEditor : Type 0 where
  pub scheme : Text
  pub file_name : FilePath

pub record Options : Type 0 where
  pub require_slug : Bool
  pub allow_course : Bool

-- A slug that is given and not empty.
abbrev pub given : Option Text → Bool
given none = false
given (some []) = false
given (some (c ∷ slug)) = true

abbrev in_course : Options → FilePath → Option LocalCourse → Option ChallengeRef
in_course opts file none = none
in_course opts file (some course) =
    let slug = challenge_slug_for course file in
    if given slug || (opts.allow_course || not opts.require_slug)
    then some (record { root = course.root; slug = slug })
    else none

from_editor : Env → Options → Option TextEditor → Option ChallengeRef
from_editor env opts none = none
from_editor env opts (some editor) =
    if same editor.scheme (codes "file")
    then in_course opts editor.file_name
        (find_course_root_for env.read_file env.parse editor.file_name)
    else none

from_challenge : Env → Options → Option TextEditor → Option FilePath → Text → Option ChallengeRef
unfolding from_editor
from_challenge env opts editor none slug = from_editor env opts editor
from_challenge env opts editor (some dir) slug =
    some (record { root = dirname dir; slug = some slug })

-- `none` where the error message is shown.
unfoldable pub resolve_challenge : Env → Options → Option TextEditor → Arg → Option ChallengeRef
unfolding from_challenge
resolve_challenge env opts editor nothing = from_editor env opts editor
resolve_challenge env opts editor (tree_item (challenge_item c)) =
    from_challenge env opts editor c.local_dir c.slug
resolve_challenge env opts editor (tree_item (course_item c)) = from_editor env opts editor
resolve_challenge env opts editor (tree_item (variant_item v)) = from_editor env opts editor
resolve_challenge env opts editor (tree_item (message_item m icon)) = from_editor env opts editor
resolve_challenge env opts editor (ref r) = some r
resolve_challenge env opts editor other = from_editor env opts editor

abbrev pub unresolved : Effect
unresolved =
    show_error
      (codes "Open a file inside a pulled challenge (or pick one in the Rubber Duck view) first.")

abbrev pub plain_options : Options
plain_options = record { require_slug = false; allow_course = false }

abbrev course_options : Options
course_options = record { require_slug = false; allow_course = true }

abbrev pub slug_options : Options
slug_options = record { require_slug = true; allow_course = false }

-- The handlers, from what `resolveChallenge` gave.
abbrev pub test_slug : FilePath → Option Text → List Effect
test_slug root none = run_in_terminal root (codes "test" ∷ []) ∷ []
test_slug root (some []) = run_in_terminal root (codes "test" ∷ []) ∷ []
test_slug root (some (c ∷ slug)) = run_in_terminal root (codes "test" ∷ (c ∷ slug) ∷ []) ∷ []

abbrev pub test_ref : Option ChallengeRef → List Effect
test_ref none = unresolved ∷ []
test_ref (some r) = test_slug r.root r.slug

abbrev test_all_ref : Option ChallengeRef → List Effect
test_all_ref none = unresolved ∷ []
test_all_ref (some r) = run_in_terminal r.root (codes "test" ∷ []) ∷ []

abbrev pub submit_slug : List Text → FilePath → Option Text → List Effect
submit_slug flags root none = []
submit_slug flags root (some []) = []
submit_slug flags root (some (c ∷ slug)) =
    run_in_terminal root (codes "submit" ∷ (c ∷ slug) ∷ flags) ∷ []

abbrev pub submit_ref : List Text → Option ChallengeRef → List Effect
submit_ref flags none = unresolved ∷ []
submit_ref flags (some r) = submit_slug flags r.root r.slug

module _ (env : Env) (editor : Option TextEditor) (arg : Arg) where
  unfoldable pub duck_test : List Effect
  unfolding resolve_challenge
  duck_test = test_ref (resolve_challenge env plain_options editor arg)

  unfoldable pub duck_test_all : List Effect
  unfolding resolve_challenge
  duck_test_all = test_all_ref (resolve_challenge env course_options editor arg)

  unfoldable pub duck_submit : List Effect
  unfolding resolve_challenge
  duck_submit = submit_ref [] (resolve_challenge env slug_options editor arg)

  unfoldable pub duck_submit_remote : List Effect
  unfolding resolve_challenge
  duck_submit_remote =
      submit_ref (codes "--remote" ∷ []) (resolve_challenge env slug_options editor arg)

-- `duck.login`; the last argument says whether the user picked Refresh.
unfoldable pub duck_login : Config → Bool → List Effect
unfolding shell_quote duck_path base_args
duck_login config refreshes =
    login_terminal
      (shell_quote (duck_path config ∷ codes "auth" ∷ codes "login" ∷ base_args config))
    ∷ show_information (codes "Complete the login in the terminal, then refresh the course list.")
    ∷ (if refreshes then refresh ∷ [] else [])

unfoldable pub open_course_page : Config → Option Item → List Effect
unfolding base_url
open_course_page config (some (course_item c)) =
    open_external (base_url config ++ (codes "/courses/" ++ c.slug)) ∷ []
open_course_page config _ = []
