-- ===== src/CodeLens.antt =====
-- vscode-extension/src/codelens.ts: the actions above a solution file.
use rubber_duck.Prelude.{
  Bool, ◌||◌, Option, none, some, List, [], ◌∷◌, if◌then◌else◌, not, Text, codes, same,
}
use rubber_duck.Local.{FilePath, LocalCourse, find_course_root_for, challenge_slug_for}
use rubber_duck.Courses.{Env}

-- `path.basename`
abbrev pub basename : FilePath → Text
basename [] = []
basename (name ∷ dir) = name

-- `solutionFiles.has(name)`
unfoldable pub is_solution : Text → Bool
unfolding same
is_solution name =
    same name (codes "solution.go")
    || same name (codes "solution.py")
    || same name (codes "solution.c")

pub data Command : Type 0 where
  test submit submit_remote : Command

-- A lens at the top of the file: its command, with the argument `{ root, slug }`.
pub record CodeLens : Type 0 where
  pub command : Command
  pub root : FilePath
  pub slug : Text

abbrev pub lenses : FilePath → Text → List CodeLens
lenses root slug =
    record { command = test; root = root; slug = slug }
    ∷ record { command = submit; root = root; slug = slug }
    ∷ record { command = submit_remote; root = root; slug = slug }
    ∷ []

-- `!slug` for a slug that is undefined or empty.
abbrev pub slug_lenses : FilePath → Option Text → List CodeLens
slug_lenses root none = []
slug_lenses root (some []) = []
slug_lenses root (some (c ∷ slug)) = lenses root (c ∷ slug)

abbrev pub course_lenses : FilePath → Option LocalCourse → List CodeLens
course_lenses file none = []
course_lenses file (some course) = slug_lenses course.root (challenge_slug_for course file)

unfoldable pub provide_code_lenses : Env → (scheme : Text) → FilePath → List CodeLens
unfolding is_solution
provide_code_lenses env scheme file =
    if not (same scheme (codes "file")) || not (is_solution (basename file))
    then []
    else course_lenses file (find_course_root_for env.read_file env.parse file)
