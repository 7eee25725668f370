-- ===== src/Local/Tests.antt =====
-- Tests and instances.
use rubber_duck.Prelude.{
  Option, some, none, List, [], ◌∷◌, ◌++◌, ◌≡◌, ◌↔◌, All, refl, Text, codes, same, contains,
  if◌then◌else◌,
}
use rubber_duck.Json.{Json}
use rubber_duck.Local.{
  FilePath, LocalCourse, meta_file, read_meta, dirname, find_course_root_for, challenge_slug_for,
}
use rubber_duck.Local.Nearest.{IsNearest, find_course_root_for_iff, find_course_root_for-none_iff}
use rubber_duck.Local.Slug.{IsName, IsSlug, challenge_slug_for_iff}

abbrev course : LocalCourse
course = record { root = codes "raft-go" ∷ codes "w" ∷ []; meta = Json.null }

slug_test :
    challenge_slug_for course (codes "solution.go" ∷ codes "log" ∷ codes "raft-go" ∷ codes "w" ∷ [])
    ≡ some (codes "log")
unfolding challenge_slug_for
slug_test = refl

slug_test' :
    challenge_slug_for course (codes "solution.go" ∷ codes "raft-c" ∷ codes "w" ∷ []) ≡ none
unfolding challenge_slug_for
slug_test' = refl

abbrev file : FilePath
file = codes "solution.go" ∷ codes "log" ∷ codes "raft-go" ∷ codes "w" ∷ []

-- One marker, in /w/raft-go, that holds `1`.
abbrev read_file : FilePath → Option Text
read_file (name ∷ dir ∷ up ∷ []) =
    if same name meta_file
    then (if same dir (codes "raft-go") then some (codes "1") else none)
    else none
read_file _ = none

abbrev parse : Text → Option Json
parse t = some (Json.num t)

abbrev found_course : LocalCourse
found_course = record { root = codes "raft-go" ∷ codes "w" ∷ []; meta = Json.num (codes "1") }

find_test : find_course_root_for read_file parse file ≡ some found_course
unfolding find_course_root_for same
find_test = refl

find_course_root_for_iff_example :
    (find_course_root_for read_file parse file ≡ some found_course)
    ↔ IsNearest read_file parse (dirname file) found_course
find_course_root_for_iff_example = find_course_root_for_iff read_file parse file found_course

abbrev outside : FilePath
outside = codes "solution.go" ∷ codes "w" ∷ []

find_course_root_for-none_iff_example : (find_course_root_for read_file parse outside ≡ none) ↔ (
    (p q : List Text) → dirname outside ≡ p ++ q → read_meta read_file parse (meta_file ∷ q) ≡ none)
find_course_root_for-none_iff_example = find_course_root_for-none_iff read_file parse outside

names : All IsName file
unfolding contains
names = (((λ e. cc), refl), (((λ e. cc), refl), (((λ e. cc), refl), (((λ e. cc), refl), tt))))

challenge_slug_for_iff_example :
    (challenge_slug_for course file ≡ some (codes "log"))
    ↔ (((inner : List Text) × (file ≡ inner ++ codes "log" ∷ course.root)) × IsSlug (codes "log"))
challenge_slug_for_iff_example = challenge_slug_for_iff course file (codes "log") names
