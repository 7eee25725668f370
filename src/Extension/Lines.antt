-- ===== src/Extension/Lines.antt =====
-- What the shell reads from the line that a command sends.
use rubber_duck.Prelude.{
  Bool, false, ◌⊎◌, Option, none, some, List, [], ◌∷◌, ◌++◌, map, ◌≡◌, ◌≢◌, inl, inr, refl, ap, ◌∙◌,
  Text, codes,
}
use rubber_duck.Cli.{Config, duck_path, base_url, base_args, command_line, shell_quote}
use rubber_duck.Cli.Shell.{word, tokens, read}
use rubber_duck.Cli.Lexed.{nonempty}
use rubber_duck.Cli.Quoting.{nonempty-cons, is_interpreted, read-command_line, tokens-shell_quote}
use rubber_duck.Local.{FilePath}
use rubber_duck.Courses.{Env, path_text}
use rubber_duck.CodeLens.{Command, test, submit, submit_remote}
use rubber_duck.Extension.{
  Effect, run_in_terminal, login_terminal, ChallengeRef, Arg, TextEditor, Options,
  resolve_challenge, duck_test, duck_submit, duck_submit_remote, duck_login, test_ref, test_slug,
  unresolved, submit_ref, submit_slug, plain_options, slug_options,
}
use rubber_duck.Extension.Resolve.{perform, args_of}

append-ne-nil : (s t : Text) → s ≢ [] → s ++ t ≢ []
append-ne-nil [] t h = absurd (h refl)
append-ne-nil (c ∷ s) t h = λ e. cc

path_text-ne-nil : (p : FilePath) → path_text p ≢ []
unfolding path_text
path_text-ne-nil [] = λ e. cc
path_text-ne-nil (name ∷ []) = λ e. cc
path_text-ne-nil (name ∷ up ∷ dir) =
    append-ne-nil (path_text (up ∷ dir)) _ (path_text-ne-nil (up ∷ dir))

-- The slug of a command, or nothing if it is empty.
abbrev pub slug_args : Option Text → List Text
slug_args none = []
slug_args (some slug) = nonempty (slug ∷ [])

-- The arguments that a command passes to `duck` for the slug that was resolved.
abbrev pub Sends : Command → Option Text → List Text → Type 0
Sends test slug args = args ≡ codes "test" ∷ slug_args slug
Sends submit slug args = (s : Text) × (slug ≡ some s) × (s ≢ []) × (args ≡ args_of submit s)
Sends submit_remote slug args =
    (s : Text) × (slug ≡ some s) × (s ≢ []) × (args ≡ args_of submit_remote s)

-- No slug, for a command that needs one.
abbrev pub Refuses : Command → Option Text → Type 0
Refuses test slug = ⊥
Refuses _ slug = slug_args slug ≡ []

-- The commands that the shell reads from the line sent: `cd` with the root, and `duck` with the
-- arguments.
abbrev pub Reads : Config → FilePath → List Text → Type 0
Reads config root args =
    read (command_line (duck_path config) (path_text root) args)
    ≡ some ((codes "cd" ∷ path_text root ∷ []) ∷ (duck_path config ∷ args) ∷ [])

-- What a command does with what `resolveChallenge` gave.
abbrev pub Runs : Config → Command → Option ChallengeRef → List Effect → Type 0
Runs config command none effects = effects ≡ unresolved ∷ []
Runs config command (some r) effects =
    ((effects ≡ []) × Refuses command r.slug)
    ⊎ ((args : List Text) × (effects ≡ run_in_terminal r.root args ∷ [])
        × Sends command r.slug args
        × Reads config r.root args)

-- What a command asks of `resolveChallenge`.
abbrev pub options : Command → Options
options test = plain_options
options _ = slug_options

module _ (config : Config) (h : duck_path config ≢ [])
    (plain : is_interpreted (duck_path config) ≡ false) (root : FilePath) where
  run-Reads : (args : List Text) → nonempty args ≡ args → Reads config root args
  run-Reads args same_args =
      (read-command_line (duck_path config) (path_text root) args (path_text-ne-nil root) h).1 plain
      ∙ ap (λ xs. some ((codes "cd" ∷ path_text root ∷ []) ∷ (duck_path config ∷ xs) ∷ []))
          same_args

  test_slug-Runs :
      (slug : Option Text)
      → Runs config test (some (record { root = root; slug = slug })) (test_slug root slug)
  test_slug-Runs none = inr (_, refl, refl, run-Reads _ refl)
  test_slug-Runs (some []) = inr (_, refl, refl, run-Reads _ refl)
  test_slug-Runs (some (c ∷ slug)) = inr (_, refl, refl, run-Reads _ refl)

  submit_slug-Runs :
      (slug : Option Text)
      → Runs config submit (some (record { root = root; slug = slug })) (submit_slug [] root slug)
  submit_slug-Runs none = inl (refl, refl)
  submit_slug-Runs (some []) = inl (refl, refl)
  submit_slug-Runs (some (c ∷ slug)) =
      inr (_, refl, (c ∷ slug, refl, (λ e. cc), refl), run-Reads _ refl)

  submit_remote_slug-Runs :
      (slug : Option Text)
      → Runs config submit_remote
          (some (record { root = root; slug = slug }))
          (submit_slug (codes "--remote" ∷ []) root slug)
  submit_remote_slug-Runs none = inl (refl, refl)
  submit_remote_slug-Runs (some []) = inl (refl, refl)
  submit_remote_slug-Runs (some (c ∷ slug)) =
      inr (_, refl, (c ∷ slug, refl, (λ e. cc), refl), run-Reads _ refl)

module _ (config : Config) (h : duck_path config ≢ [])
    (plain : is_interpreted (duck_path config) ≡ false) where
  test_ref-Runs : (o : Option ChallengeRef) → Runs config test o (test_ref o)
  test_ref-Runs none = refl
  test_ref-Runs (some r) = test_slug-Runs config h plain r.root r.slug

  submit_ref-Runs : (o : Option ChallengeRef) → Runs config submit o (submit_ref [] o)
  submit_ref-Runs none = refl
  submit_ref-Runs (some r) = submit_slug-Runs config h plain r.root r.slug

  submit_remote_ref-Runs :
      (o : Option ChallengeRef) → Runs config submit_remote o (submit_ref (codes "--remote" ∷ []) o)
  submit_remote_ref-Runs none = refl
  submit_remote_ref-Runs (some r) = submit_remote_slug-Runs config h plain r.root r.slug

-- Whatever a command is invoked with, it shows the error if no challenge is resolved, and else sends
-- one line from which the shell reads `cd` with the whole root that was resolved and then `duck` with
-- exactly `test` and the slug, if there is one, `submit` and the slug, or `submit`, the slug and
-- `--remote`; only the last two do nothing, for a reference without a slug. An empty slug counts as
-- none. `duck.path` must not be empty, and not be a reserved word or an assignment of which all
-- characters are plain.
pub perform-Runs :
    (env : Env) (active : Option TextEditor) (arg : Arg) (command : Command)
    → duck_path env.config ≢ []
    → is_interpreted (duck_path env.config) ≡ false
    → Runs env.config command
        (resolve_challenge env (options command) active arg)
        (perform env active arg command)
unfolding perform duck_test duck_submit duck_submit_remote
perform-Runs env active arg test h plain =
    test_ref-Runs env.config h plain (resolve_challenge env plain_options active arg)
perform-Runs env active arg submit h plain =
    submit_ref-Runs env.config h plain (resolve_challenge env slug_options active arg)
perform-Runs env active arg submit_remote h plain =
    submit_remote_ref-Runs env.config h plain (resolve_challenge env slug_options active arg)

base_args_empty :
    (config : Config) → base_url config ≡ [] → base_args config ≡ codes "--base" ∷ [] ∷ []
unfolding base_args
base_args_empty config empty = rw empty refl

duck_login_line :
    (config : Config) (refreshes : Bool)
    → (more : List Effect) × (duck_login config refreshes
        ≡ login_terminal
            (shell_quote (duck_path config ∷ codes "auth" ∷ codes "login" ∷ base_args config))
          ∷ more)
unfolding duck_login
duck_login_line config refreshes = (_, refl)

-- If the configured address is nothing but slashes, and `duck.path` is not empty, `--base` loses its
-- value: the shell reads it as the last word of the login line.
pub duck_login_base_lost :
    (config : Config) (refreshes : Bool)
    → duck_path config ≢ []
    → base_url config ≡ []
    → (more : List Effect) × (line : Text) × (duck_login config refreshes
        ≡ login_terminal line ∷ more)
      × (tokens line
          ≡ some (map word (duck_path config ∷ codes "auth" ∷ codes "login" ∷ codes "--base" ∷ [])))
duck_login_base_lost config refreshes h empty =
    let (more, e) = duck_login_line config refreshes in
    (
      more,
      shell_quote (duck_path config ∷ codes "auth" ∷ codes "login" ∷ base_args config),
      e,
      rw (tokens-shell_quote, base_args_empty config empty, nonempty-cons (duck_path config) _ h)
          refl,
    )
