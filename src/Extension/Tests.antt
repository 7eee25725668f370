-- ===== src/Extension/Tests.antt =====
-- Instances of what holds of the commands.
use rubber_duck.Prelude.{
  true, false, Option, some, none, List, [], ◌∷◌, map, ◌≡◌, ◌⊎◌, inl, refl, Text, codes, All, In,
}
use rubber_duck.Cli.{Config, duck_path, base_url}
use rubber_duck.Cli.Shell.{word, tokens}
use rubber_duck.Cli.Quoting.{is_interpreted}
use rubber_duck.Local.{FilePath}
use rubber_duck.Courses.{course_item}
use rubber_duck.Courses.Tests.{raft, root, env}
use rubber_duck.CodeLens.{test, provide_code_lenses}
use rubber_duck.Extension.{Effect, login_terminal, nothing, resolve_challenge, duck_login}
use rubber_duck.Extension.Pulling.{Answers, pull_course}
use rubber_duck.Extension.Resolve.{perform, Agrees, file_editor, provide_code_lenses-Agrees}
use rubber_duck.Extension.Lines.{Runs, options, perform-Runs, duck_login_base_lost}
use rubber_duck.Extension.Pull.{PicksOffered, IsQuiet, Pulled, pull_course-Pulled}

abbrev file : FilePath
file = codes "solution.go" ∷ codes "log" ∷ root

provide_code_lenses-Agrees_example :
    All (Agrees env none (codes "file") file) (provide_code_lenses env (codes "file") file)
provide_code_lenses-Agrees_example = provide_code_lenses-Agrees env none (codes "file") file

duck_plain : is_interpreted (duck_path env.config) ≡ false
unfolding is_interpreted duck_path
duck_plain = refl

perform-Runs_example :
    let active = file_editor (codes "file") file in
    Runs env.config test
      (resolve_challenge env (options test) active nothing)
      (perform env active nothing test)
perform-Runs_example =
    perform-Runs env (file_editor (codes "file") file) nothing test (unfold duck_path in λ e. cc)
      duck_plain

abbrev slashes : Config
slashes = record { path = none; base_url = some (codes "//") }

duck_login_base_lost_example :
    (more : List Effect) × (line : Text) × (duck_login slashes true ≡ login_terminal line ∷ more)
    × (tokens line
        ≡ some (map word (duck_path slashes ∷ codes "auth" ∷ codes "login" ∷ codes "--base" ∷ [])))
duck_login_base_lost_example =
    duck_login_base_lost slashes true (unfold duck_path in λ e. cc) (unfold base_url in refl)

abbrev first {ℓ} : {A : Type ℓ} → List A → Option A
first [] = none
first (a ∷ rest) = some a

first-In : {A : Type 0} (choices : List A) (a : A) → first choices ≡ some a → In a choices
first-In [] a e = cc
first-In (b ∷ rest) a e = inl (cc)

abbrev answers : Answers
answers = record {
  pick_course = first;
  pick_language = first;
  folders = (codes "w" ∷ []) ∷ (codes "v" ∷ []) ∷ [];
  pick_folder = some (codes "w" ∷ []);
  run = λ (folder : FilePath) (args : List Text). record {
    error = none;
    stdout = codes "pulled\n";
    stderr = [];
  };
  reveals = true;
}

answers-PicksOffered : PicksOffered answers
answers-PicksOffered = record { course = first-In; language = first-In; folder = λ f e. inl (cc) }

pull_course-Pulled_example :
    IsQuiet (pull_course env answers (some (course_item raft)))
    ⊎ Pulled env answers
        (some (course_item raft))
        (pull_course env answers (some (course_item raft)))
pull_course-Pulled_example =
    pull_course-Pulled env answers (some (course_item raft)) answers-PicksOffered
