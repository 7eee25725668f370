-- ===== src/Duck.antt =====
-- cmd/duck/challenge.go: the directories of a pulled course's challenges, and finding one. A name is
-- the list of its bytes; a lesson's number is not negative.
pub mod Names
pub mod Tree
pub mod Resolve
pub mod Tests
use rubber_duck.Prelude.{
  ℕ, zero, suc, ◌+◌, Bool, true, false, ◌&&◌, Option, none, some, List, [], ◌∷◌, ◌++◌, ltb, ◌==◌,
  if◌then◌else◌, Text, codes, same, drop,
}
use rubber_duck.Number.{show_nat}
use rubber_duck.Api.{utf8}
use rubber_duck.Ingest.{ordering_prefix_len}

pub record ChallengeJson : Type 0 where
  pub lesson_slug : Text
  pub lesson_number : ℕ
  pub slug : Text

-- `LessonSlug == ""`
abbrev pub is_final : Text → Bool
is_final [] = true
is_final (c ∷ slug) = false

-- `perLesson[lesson]`
unfoldable pub per_lesson : Text → List ChallengeJson → ℕ
unfolding same
per_lesson lesson [] = 0
per_lesson lesson (c ∷ cs) =
    let rest = per_lesson lesson cs in
    if is_final c.lesson_slug then rest else if same c.lesson_slug lesson then suc rest else rest

-- `within[lesson]++` on the map as a function.
abbrev pub bump : Text → (Text → ℕ) → Text → ℕ
bump lesson within other = if same lesson other then within other + 1 else within other

-- `%02d`
unfoldable pub two_digits : ℕ → Text
unfolding show_nat
two_digits n = if ltb n 10 then b'0' ∷ show_nat n else show_nat n

-- `string(rune('a' + k))` if the lesson is shared, or nothing.
unfoldable pub suffix : Bool → ℕ → Text
unfolding utf8
suffix true k = utf8 (b'a' + k)
suffix false k = []

abbrev pub next_derived : Text → Text → ℕ → ℕ
next_derived lesson prev derived = if same lesson prev then derived else derived + 1

abbrev pub numbered : ℕ → Text → Text → Text
numbered n letter slug = two_digits n ++ (letter ++ (codes "-" ++ slug))

-- The second loop, from a state of its three variables on.
unfoldable pub names_from :
    List ChallengeJson → (Text → ℕ) → ℕ → Text → List ChallengeJson → List Text
unfolding per_lesson two_digits suffix same
names_from all within derived prev [] = []
names_from all within derived prev (c ∷ cs) = elim (is_final c.lesson_slug) [
  | true ↦ (codes "final-" ++ c.slug) ∷ names_from all within derived prev cs
  | false ↦
      let d = next_derived c.lesson_slug prev derived in
      let n = if c.lesson_number == 0 then d else c.lesson_number in
      let shared = ltb 1 (per_lesson c.lesson_slug all) in
      numbered n (suffix shared (within c.lesson_slug)) c.slug
      ∷ names_from all (if shared then bump c.lesson_slug within else within) d c.lesson_slug cs
]

unfoldable pub challenge_dir_names : List ChallengeJson → List Text
unfolding names_from
challenge_dir_names challenges = names_from challenges (λ lesson. 0) 0 [] challenges

unfoldable pub challenge_slug : Text → Text
unfolding ordering_prefix_len
challenge_slug dir = drop (ordering_prefix_len dir) dir

pub data Resolved : Type 0 where
  found : (dir slug : Text) → Resolved
  unreadable unknown : Resolved

-- An entry that `os.ReadDir` gives.
pub record DirEntry : Type 0 where
  pub name : Text
  pub is_dir : Bool

abbrev pub leads_to : Text → DirEntry → Bool
leads_to slug e = e.is_dir && same (challenge_slug e.name) slug

-- The loop over the entries.
unfoldable pub find_entry : Text → List DirEntry → Resolved
unfolding challenge_slug same
find_entry arg [] = unknown
find_entry arg (e ∷ entries) =
    let rest = find_entry arg entries in if leads_to arg e then found e.name arg else rest

-- `clean` is `filepath.Clean`, `stat` whether a directory stands at a path under the root, and the
-- entries are what the root holds, if it can be read.
unfoldable pub resolve_challenge :
    (clean : Text → Text) (stat : Text → Bool) → Option (List DirEntry) → Text → Resolved
unfolding find_entry challenge_slug
resolve_challenge clean stat entries arg =
    let name = clean arg in
    if stat name
    then found name (challenge_slug name)
    else elim entries [ none ↦ unreadable | some es ↦ find_entry name es ]
