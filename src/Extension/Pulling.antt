-- ===== src/Extension/Pulling.antt =====
-- vscode-extension/src/extension.ts: `pullCourse`.
use rubber_duck.Prelude.{
  Bool, Option, none, some, List, [], ◌∷◌, ◌++◌, ◌==◌, if◌then◌else◌, Text, codes, trim,
}
use rubber_duck.Cli.{Config, duck_path, base_url, base_args}
use rubber_duck.Cli.Process.{Exit, Outcome, resolved, rejected, exec_duck}
use rubber_duck.Local.{FilePath}
use rubber_duck.Api.{CourseSummary, load_token, Result, ok, auth_error, error, list_courses}
use rubber_duck.Courses.{Env, Item, variant_item}
use rubber_duck.Extension.{Effect, exec, refresh, reveal, show_error, show_information}

-- What the user and the CLI answer while a course is pulled.
pub record Answers : Type 0 where
  pub pick_course : List CourseSummary → Option CourseSummary
  pub pick_language : List Text → Option Text
  pub folders : List FilePath
  pub pick_folder : Option FilePath
  pub run : FilePath → List Text → Exit
  pub reveals : Bool

-- Effects up to a result, or up to an early return.
pub record Run {ℓ} (A : Type ℓ) : Type ℓ where
  pub effects : List Effect
  pub result : Option A

abbrev pub stop {ℓ} : {A : Type ℓ} → List Effect → Run A
stop es = record { effects = es; result = none }

abbrev pub give {ℓ} : {A : Type ℓ} → A → Run A
give a = record { effects = []; result = some a }

abbrev pub next {ℓ} : {A : Type ℓ} → List Effect → Option A → (A → List Effect) → List Effect
next es none k = es
next es (some a) k = es ++ k a

abbrev pub then_run {ℓ} : {A : Type ℓ} → Run A → (A → List Effect) → List Effect
then_run r k = next r.effects r.result k

abbrev pub language_given : Text → Option Text → Run (Text × Text)
language_given course none = stop []
language_given course (some []) = stop []
language_given course (some (c ∷ language)) = give (course, c ∷ language)

-- With one language there is nothing to pick.
abbrev pub choose_language : (List Text → Option Text) → List Text → Option Text
choose_language pick (language ∷ []) = some language
choose_language pick languages = pick languages

abbrev pub course_picked : Answers → Option CourseSummary → Run (Text × Text)
course_picked a none = stop []
course_picked a (some c) = language_given c.slug (choose_language a.pick_language c.languages)

abbrev pub courses_listed : Answers → Result (List CourseSummary) → Run (Text × Text)
courses_listed a (ok courses) = course_picked a (a.pick_course courses)
courses_listed a auth_error = stop (
    show_error
      (codes "Couldn't load courses: unauthorized: token missing or revoked — run duck auth login")
    ∷ [])
courses_listed a (error m) = stop (show_error (codes "Couldn't load courses: " ++ m) ∷ [])

abbrev pub sign_in_first : Effect
sign_in_first = show_error (codes "Sign in first: run Duck: Login.")

abbrev pub token_loaded : Env → Answers → Option Text → Run (Text × Text)
token_loaded env a none = stop (sign_in_first ∷ [])
token_loaded env a (some []) = stop (sign_in_first ∷ [])
token_loaded env a (some (c ∷ token)) =
    courses_listed a
      (list_courses env.show env.json_courses env.fetch (base_url env.config) (c ∷ token))

-- The course and the language: the item's, or those picked.
unfoldable pub choose_variant : Env → Answers → Option Item → Run (Text × Text)
unfolding load_token
choose_variant env a (some (variant_item v)) = give (v.course, v.language)
choose_variant env a _ = token_loaded env a (load_token env.duck_token env.token_file)

abbrev pub as_run : Option FilePath → Run FilePath
as_run none = stop []
as_run (some folder) = give folder

unfoldable pub pick_workspace_folder : Answers → List FilePath → Run FilePath
pick_workspace_folder a [] =
    stop (show_error (codes "Open a folder first — duck pull scaffolds the course inside it.") ∷ [])
pick_workspace_folder a (folder ∷ []) = give folder
pick_workspace_folder a (folder ∷ another ∷ folders) = as_run a.pick_folder

-- The text behind the last line feed: `.split("\n").pop()`.
last_line_from : Text → Text → Text
last_line_from line [] = line
last_line_from line (c ∷ s) = last_line_from (if c == 10 then [] else line ++ c ∷ []) s

unfoldable pub last_line : Text → Text
unfolding last_line_from
last_line s = last_line_from [] s

abbrev pub finished : FilePath → Text → Text → Bool → Outcome → List Effect
finished folder dir spec reveals (resolved out) =
    refresh
    ∷ show_information (last_line (trim out))
    ∷ (if reveals then reveal (dir ∷ folder) ∷ [] else [])
finished folder dir spec reveals (rejected m) =
    show_error (codes "duck pull " ++ (spec ++ (codes " failed: " ++ m))) ∷ []

abbrev pub spec_of : Text → Text → Text
spec_of course language = course ++ (codes "/" ++ language)

abbrev pub pull_args : Config → Text → Text → List Text
pull_args config course language = codes "pull" ∷ spec_of course language ∷ base_args config

unfoldable pub pull_into : Env → Answers → (course language : Text) → FilePath → List Effect
unfolding base_args duck_path exec_duck
pull_into env a course language folder =
    let args = pull_args env.config course language in
    exec folder args
    ∷ finished folder (course ++ (codes "-" ++ language)) (spec_of course language) a.reveals
        (exec_duck (duck_path env.config) (a.run folder args))

unfoldable pub pull_course : Env → Answers → Option Item → List Effect
unfolding choose_variant pick_workspace_folder pull_into
pull_course env a item = then_run (choose_variant env a item) (λ (course, language).
    then_run (pick_workspace_folder a a.folders) (λ folder. pull_into env a course language folder))
