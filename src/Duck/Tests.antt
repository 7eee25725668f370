-- ===== src/Duck/Tests.antt =====
-- Tests and instances.
use rubber_duck.Prelude.{
  ℕ, ◌≢◌, ◌⊎◌, Bool-cases, ◌≤◌, Bool, true, false, ◌&&◌, ◌||◌, some, none, ◌≡◌, [], ◌∷◌, List, inl,
  inr, In, refl, sym, ap, ◌∙◌, arith, map, Text, codes, same, same_iff, length,
}
use rubber_duck.Json.{Json}
use rubber_duck.Local.{FilePath, LocalCourse, meta_file}
use rubber_duck.Api.{Challenge}
use rubber_duck.Courses.{VariantItem, to_item, challenge_view}
use rubber_duck.Ingest.{ordering_prefix_len}
use rubber_duck.Duck.{
  ChallengeJson, per_lesson, challenge_dir_names, challenge_slug, found, DirEntry,
  resolve_challenge,
}
use rubber_duck.Duck.Resolve.{HasDir, Finds, resolve_challenge-Finds}
use rubber_duck.Duck.Names.{challenge_dir_names-slugs}
use rubber_duck.Duck.Tree.{challenge_view-to_item}

abbrev challenges : List ChallengeJson
challenges =
    record { lesson_slug = codes "l"; lesson_number = 5; slug = codes "heap" }
    ∷ record { lesson_slug = codes "l"; lesson_number = 5; slug = codes "sort" }
    ∷ record { lesson_slug = codes "m"; lesson_number = 12; slug = codes "map" }
    ∷ record { lesson_slug = []; lesson_number = 0; slug = codes "final-os" }
    ∷ []

dir_names :
    challenge_dir_names challenges
    ≡ codes "05a-heap" ∷ codes "05b-sort" ∷ codes "12-map" ∷ codes "final-final-os" ∷ []
unfolding challenge_dir_names
dir_names = refl

per_lesson-length : (cs : List ChallengeJson) (lesson : Text) → per_lesson lesson cs ≤ length cs
unfolding per_lesson
per_lesson-length [] lesson = omega arith
per_lesson-length (c ∷ cs) lesson = ground (arith, per_lesson-length cs lesson)

few : (lesson : Text) → per_lesson lesson challenges ≤ 26
few lesson = omega (arith, per_lesson-length challenges lesson)

challenge_dir_names-slugs_example :
    map challenge_slug (challenge_dir_names challenges) ≡ map (λ c. c.slug) challenges
challenge_dir_names-slugs_example = challenge_dir_names-slugs challenges few

-- The extension's view of the first of the directories and the marker file.
abbrev exists : FilePath → Bool
exists [] = false
exists (name ∷ dir) = same name (codes "05a-heap") || same name meta_file

only_pulled :
    (name : Text)
    → exists (name ∷ codes "w" ∷ []) ≡ true
    → In name (challenge_dir_names challenges) ⊎ (name ≡ meta_file)
only_pulled name h = elim (Bool-cases (same name (codes "05a-heap"))) [
  | inl e ↦ inl (rw dir_names (inl ((same_iff name (codes "05a-heap")).0 e)))
  | inr e ↦ inr ((same_iff name meta_file).0 (ground (arith, h, e)))
]

abbrev local : LocalCourse
local = record { root = codes "w" ∷ []; meta = Json.null }

abbrev variant : VariantItem
variant = record { course = codes "raft"; language = codes "go"; local = some local }

abbrev heap : Challenge
heap = record {
  lesson_slug = codes "l";
  slug = codes "heap";
  title = [];
  points = 1;
  starter_code = [];
  test_code = [];
}

heap_bare : ordering_prefix_len (codes "heap") ≡ 0
unfolding ordering_prefix_len
heap_bare = refl

heap_other : codes "heap" ≢ meta_file
heap_other e = cc

abbrev show : ℕ → Text
show n = codes "1"

challenge_view-to_item_example :
    let view = challenge_view show (to_item exists variant heap) in
    (view.context_value ≡ some (codes "duckChallenge"))
    × (view.opens ≡ none)
    × ((name : Text) × In name (challenge_dir_names challenges)
        × (challenge_slug name ≡ codes "heap"))
challenge_view-to_item_example =
    challenge_view-to_item exists variant local heap challenges show
      (record { lesson_slug = codes "l"; lesson_number = 5; slug = codes "heap" }) refl few
      only_pulled (inl refl) refl heap_bare heap_other

-- The root of the course as it is pulled, with the marker file.
abbrev pulled : List DirEntry
pulled =
    record { name = codes ".duck-course.json"; is_dir = false }
    ∷ record { name = codes "05a-heap"; is_dir = true }
    ∷ record { name = codes "05b-sort"; is_dir = true }
    ∷ record { name = codes "12-map"; is_dir = true }
    ∷ record { name = codes "final-final-os"; is_dir = true }
    ∷ []

-- Paths that are clean already.
abbrev clean : Text → Text
clean path = path

abbrev stat_in : List DirEntry → Text → Bool
stat_in [] name = false
stat_in (e ∷ es) name = (e.is_dir && same e.name name) || stat_in es name

resolve_slug :
    resolve_challenge clean (stat_in pulled) (some pulled) (codes "sort")
    ≡ found (codes "05b-sort") (codes "sort")
unfolding resolve_challenge same
resolve_slug = refl

HasDir-stat : (es : List DirEntry) (name : Text) → HasDir es name → stat_in es name ≡ true
HasDir-stat [] name (e, i, is, at) = absurd i
HasDir-stat (x ∷ es) name (e, inl same_entry, is, at) =
    let is' : x.is_dir ≡ true = ap (λ (y : DirEntry). y.is_dir) (sym same_entry) ∙ is in
    let at' : x.name ≡ name = ap (λ (y : DirEntry). y.name) (sym same_entry) ∙ at in
    ground (arith, (same_iff x.name name).1 at')
HasDir-stat (x ∷ es) name (e, inr i, is, at) = ground (arith, HasDir-stat es name (e, i, is, at))

all_pulled : (name : Text) → In name (challenge_dir_names challenges) → HasDir pulled name
all_pulled name i = elim (rw dir_names at i) [
  | inl e ↦ (record { name = codes "05a-heap"; is_dir = true }, inr (inl refl), refl, sym e)
  | inr (inl e) ↦
      (record { name = codes "05b-sort"; is_dir = true }, inr (inr (inl refl)), refl, sym e)
  | inr (inr (inl e)) ↦
      (record { name = codes "12-map"; is_dir = true }, inr (inr (inr (inl refl))), refl, sym e)
  | inr (inr (inr (inl e))) ↦ (
    record { name = codes "final-final-os"; is_dir = true },
    inr (inr (inr (inr (inl refl)))),
    refl,
    sym e,
  )
  | inr (inr (inr (inr none_left))) ↦ absurd none_left
]

abbrev sort : ChallengeJson
sort = record { lesson_slug = codes "l"; lesson_number = 5; slug = codes "sort" }

resolve_challenge-Finds_example :
    Finds pulled
      (codes "sort")
      (resolve_challenge clean (stat_in pulled) (some pulled) (codes "sort"))
    × ((name : Text) × In name (challenge_dir_names challenges)
        × (resolve_challenge clean (stat_in pulled) (some pulled) name ≡ found name (codes "sort")))
unfolding same
resolve_challenge-Finds_example =
    resolve_challenge-Finds clean (stat_in pulled) pulled challenges few all_pulled
      (HasDir-stat pulled) (λ name h. refl) (codes "sort") sort (inr (inl refl)) refl refl
