-- ===== src/Local.antt =====
-- vscode-extension/src/local.ts: pulled courses in the workspace. Paths are absolute, normalised
-- POSIX paths, each the list of its names with the innermost first; `/` is the empty list. What the
-- file system holds and `JSON.parse` are arguments.
pub mod Nearest
pub mod Slug
pub mod Tests
use rubber_duck.Prelude.{
  ℕ, Bool, true, false, not, ◌&&◌, ◌||◌, Option, none, some, List, [], ◌∷◌, ◌++◌, ◌==◌,
  if◌then◌else◌, Text, codes, same, join, starts_with,
}
use mathlib.Core.List.{reverse}
use rubber_duck.Json.{Json}

abbrev pub FilePath : Type 0
FilePath = List Text

-- `path.dirname`; the root is its own parent.
abbrev pub dirname : FilePath → FilePath
dirname [] = []
dirname (name ∷ dir) = dir

pub record LocalCourse : Type 0 where
  pub root : FilePath
  pub meta : Json

abbrev pub meta_file : Text
meta_file = codes ".duck-course.json"

module _ (read_file : FilePath → Option Text) (parse : Text → Option Json) where
  abbrev parse_read : Option Text → Option Json
  parse_read none = none
  parse_read (some text) = parse text

  -- The body of either `try`: `none` where reading or parsing throws.
  pub read_meta : FilePath → Option Json
  read_meta marker = parse_read (read_file marker)

  abbrev add_course : FilePath → Option Json → List LocalCourse → List LocalCourse
  add_course marker none courses = courses
  add_course marker (some meta) courses = record { root = dirname marker; meta = meta } ∷ courses

  -- The argument is what `findFiles` found.
  unfoldable pub find_local_courses : List FilePath → List LocalCourse
  unfolding read_meta
  find_local_courses [] = []
  find_local_courses (marker ∷ markers) =
      add_course marker (read_meta marker) (find_local_courses markers)

  -- The loop: a directory other than the root differs from its parent, so it ends at the root.
  find_from : FilePath → Option LocalCourse
  find_from [] = elim (read_meta (meta_file ∷ [])) [
    | some meta ↦ some (record { root = []; meta = meta })
    | none ↦ none
  ]
  find_from (name ∷ dir) = elim (read_meta (meta_file ∷ name ∷ dir)) [
    | some meta ↦ some (record { root = name ∷ dir; meta = meta })
    | none ↦ find_from dir
  ]

  unfoldable pub find_course_root_for : FilePath → Option LocalCourse
  unfolding find_from read_meta
  find_course_root_for file_path = find_from (dirname file_path)

-- `path.relative` on names, the outermost first: after the common start, one `..` for each name left
-- of the one path, then the names left of the other.
climb : List Text → List Text → List Text
climb [] to = to
climb (n ∷ from) to = codes ".." ∷ climb from to

descend : List Text → List Text → List Text
unfolding same climb
descend [] to = to
descend (n ∷ from) [] = climb (n ∷ from) []
descend (n ∷ from) (m ∷ to) = if same n m then descend from to else climb (n ∷ from) (m ∷ to)

unfoldable pub relative : FilePath → FilePath → Text
unfolding descend join
relative from to = join (codes "/") (descend (reverse from) (reverse to))

abbrev is_absolute : Text → Bool
is_absolute p = starts_with p (codes "/")

-- The first part of `rel.split(path.sep)`.
before_slash : Text → Text
before_slash [] = []
before_slash (c ∷ s) = if c == b'/' then [] else c ∷ before_slash s

-- `first && first !== META_FILE ? first : undefined`
abbrev slug_of : Text → Option Text
slug_of [] = none
slug_of (c ∷ first) = if not (same (c ∷ first) meta_file) then some (c ∷ first) else none

unfoldable pub challenge_slug_for : LocalCourse → FilePath → Option Text
unfolding relative before_slash starts_with
challenge_slug_for course file_path =
    let rel = relative course.root file_path in
    if starts_with rel (codes "..") || is_absolute rel then none else slug_of (before_slash rel)
