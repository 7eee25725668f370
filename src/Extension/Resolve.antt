-- ===== src/Extension/Resolve.antt =====
-- Which challenge a command acts on.
use rubber_duck.Prelude.{
  true, Option, none, some, List, [], ◌∷◌, ◌≡◌, ◌≢◌, inl, inr, refl, Text, codes, All, same,
  Bool-cases,
}
use rubber_duck.Local.{FilePath, LocalCourse, find_course_root_for, challenge_slug_for}
use rubber_duck.Courses.{Env}
use rubber_duck.CodeLens.{
  Command, test, submit, submit_remote, CodeLens, lenses, is_solution, basename, slug_lenses,
  course_lenses, provide_code_lenses,
}
use rubber_duck.Extension.{
  Effect, run_in_terminal, Arg, nothing, ref, TextEditor, duck_test, duck_submit,
  duck_submit_remote,
}

-- The handler of a command.
unfoldable pub perform : Env → Option TextEditor → Arg → Command → List Effect
perform env editor arg test = duck_test env editor arg
perform env editor arg submit = duck_submit env editor arg
perform env editor arg submit_remote = duck_submit_remote env editor arg

-- The arguments of `duck` for a command on a challenge.
abbrev pub args_of : Command → Text → List Text
args_of test slug = codes "test" ∷ slug ∷ []
args_of submit slug = codes "submit" ∷ slug ∷ []
args_of submit_remote slug = codes "submit" ∷ slug ∷ codes "--remote" ∷ []

abbrev pub RunsOn : FilePath → Text → Command → List Effect → Type 0
RunsOn root slug command effects = effects ≡ run_in_terminal root (args_of command slug) ∷ []

abbrev pub file_editor : Text → FilePath → Option TextEditor
file_editor scheme file = some (record { scheme = scheme; file_name = file })

module _ (env : Env) (active : Option TextEditor) (root : FilePath) where
  ref-RunsOn :
      (slug : Text) (command : Command)
      → slug ≢ []
      → RunsOn root slug command
          (perform env active (ref (record { root = root; slug = some slug })) command)
  unfolding perform duck_test duck_submit duck_submit_remote
  ref-RunsOn [] command ne = absurd (ne refl)
  ref-RunsOn (c ∷ slug) test ne = refl
  ref-RunsOn (c ∷ slug) submit ne = refl
  ref-RunsOn (c ∷ slug) submit_remote ne = refl

editor-RunsOn :
    (env : Env) (scheme : Text) (file : FilePath) (course : LocalCourse) (slug : Text)
    (command : Command)
    → same scheme (codes "file") ≡ true
    → find_course_root_for env.read_file env.parse file ≡ some course
    → challenge_slug_for course file ≡ some slug
    → slug ≢ []
    → RunsOn course.root slug command (perform env (file_editor scheme file) nothing command)
unfolding perform duck_test duck_submit duck_submit_remote
editor-RunsOn env scheme file course [] command is_file found is_slug ne = absurd (ne refl)
editor-RunsOn env scheme file course (c ∷ slug) test is_file found is_slug ne =
    rw (is_file, found, is_slug)
editor-RunsOn env scheme file course (c ∷ slug) submit is_file found is_slug ne =
    rw (is_file, found, is_slug)
editor-RunsOn env scheme file course (c ∷ slug) submit_remote is_file found is_slug ne =
    rw (is_file, found, is_slug)

-- What a lens of a file runs, and what its command runs from the palette with the file active.
abbrev pub Agrees : Env → Option TextEditor → Text → FilePath → CodeLens → Type 0
Agrees env active scheme file l =
    RunsOn l.root l.slug l.command
      (perform env active (ref (record { root = l.root; slug = some l.slug })) l.command)
    × RunsOn l.root l.slug l.command (perform env (file_editor scheme file) nothing l.command)

module _ (env : Env) (active : Option TextEditor) (scheme : Text) (file : FilePath) where
  lenses-Agrees :
      (course : LocalCourse) (slug : Text)
      → same scheme (codes "file") ≡ true
      → find_course_root_for env.read_file env.parse file ≡ some course
      → challenge_slug_for course file ≡ some slug
      → slug ≢ []
      → All (Agrees env active scheme file) (lenses course.root slug)
  lenses-Agrees course slug is_file found is_slug ne =
      (agrees test, (agrees submit, (agrees submit_remote, tt)))
    where
      agrees :
          (command : Command)
          → Agrees env active scheme file
              (record { command = command; root = course.root; slug = slug })
      agrees command = (
        ref-RunsOn env active course.root slug command ne,
        editor-RunsOn env scheme file course slug command is_file found is_slug ne,
      )

  slug_lenses-Agrees :
      (course : LocalCourse) (o : Option Text)
      → same scheme (codes "file") ≡ true
      → find_course_root_for env.read_file env.parse file ≡ some course
      → challenge_slug_for course file ≡ o
      → All (Agrees env active scheme file) (slug_lenses course.root o)
  slug_lenses-Agrees course none is_file found e = tt
  slug_lenses-Agrees course (some []) is_file found e = tt
  slug_lenses-Agrees course (some (c ∷ slug)) is_file found e =
      lenses-Agrees course (c ∷ slug) is_file found e (λ h. cc)

  course_lenses-Agrees :
      (o : Option LocalCourse)
      → same scheme (codes "file") ≡ true
      → find_course_root_for env.read_file env.parse file ≡ o
      → All (Agrees env active scheme file) (course_lenses file o)
  course_lenses-Agrees none is_file found = tt
  course_lenses-Agrees (some course) is_file found = slug_lenses-Agrees course _ is_file found refl

-- Every lens of a file, clicked, runs its command on its challenge in its course's root, and the
-- command from the palette with that file active runs exactly the same.
pub provide_code_lenses-Agrees :
    (env : Env) (active : Option TextEditor) (scheme : Text) (file : FilePath)
    → All (Agrees env active scheme file) (provide_code_lenses env scheme file)
unfolding provide_code_lenses
provide_code_lenses-Agrees env active scheme file = elim (Bool-cases (same scheme (codes "file"))) [
  | inr other_scheme ↦ rw other_scheme tt
  | inl is_file ↦ elim (Bool-cases (is_solution (basename file))) [
    | inr other_file ↦ rw (is_file, other_file) tt
    | inl solution ↦
        rw (is_file, solution) (course_lenses-Agrees env active scheme file _ is_file refl)
  ]
]
