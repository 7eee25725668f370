-- ===== src/Duck/Tree.antt =====
-- What the extension's tree makes of the directories that `duck pull` makes.
use rubber_duck.Prelude.{
  ℕ, ◌<◌, ◌≤◌, Bool, true, none, some, List, [], ◌∷◌, ◌++◌, ◌≡◌, ◌≢◌, ◌⊎◌, inl, inr, refl, sym, ◌∙◌,
  ap, arith, ltb, ◌==◌, if◌then◌else◌, Text, codes, All, In, length, length-append, Bool-cases,
}
use rubber_duck.Local.{FilePath, LocalCourse, meta_file}
use rubber_duck.Api.{Challenge}
use rubber_duck.Courses.{VariantItem, ChallengeItem, to_item, challenge_view}
use rubber_duck.Ingest.{ordering_prefix_len}
use rubber_duck.Ingest.Prefix.{IsOrdering, ordering_prefix_len_complete}
use rubber_duck.Duck.{
  ChallengeJson, is_final, per_lesson, bump, two_digits, suffix, next_derived, numbered, names_from,
  challenge_dir_names, challenge_slug,
}
use rubber_duck.Duck.Resolve.{named}
use rubber_duck.Duck.Names.{
  challenge_dir_names-slugs, numbered-IsOrdering, suffix-IsLetter, Fits, Fits-final, Fits-within,
  Fits-bump,
}

abbrev HasPrefix : Text → Type 0
HasPrefix name = ordering_prefix_len name ≢ 0

length-IsOrdering : (p : Text) → IsOrdering p → length p ≢ 0
length-IsOrdering p (inl e) = rw e (λ z. omega (arith, z))
length-IsOrdering p (inr (digits, letter, e, all, two, is_letter)) =
    rw e (λ z. omega (arith, z, length-append digits (letter ++ codes "-")))

IsOrdering-HasPrefix : (p slug name : Text) → IsOrdering p → name ≡ p ++ slug → HasPrefix name
IsOrdering-HasPrefix p slug name h split z =
    length-IsOrdering p h
      (sym (ordering_prefix_len_complete p slug h) ∙ ap ordering_prefix_len (sym split) ∙ z)

names_from-HasPrefix :
    (all : List ChallengeJson) (within : Text → ℕ) (derived : ℕ) (prev : Text)
    (cs : List ChallengeJson)
    → ((k : Text) → per_lesson k all ≤ 26)
    → Fits all within cs
    → All HasPrefix (names_from all within derived prev cs)
unfolding names_from
names_from-HasPrefix all within derived prev [] few fits = tt
names_from-HasPrefix all within derived prev (c ∷ cs) few fits =
    elim (Bool-cases (is_final c.lesson_slug)) [
      | inl e ↦
          rw (e, All)
            (
              IsOrdering-HasPrefix (codes "final-") c.slug (codes "final-" ++ c.slug) (inl refl)
                  refl,
              names_from-HasPrefix all within derived prev cs few
                  (Fits-final all within c cs e fits),
            )
      | inr e ↦
          let l = c.lesson_slug in
          let d = next_derived l prev derived in
          let shared = ltb 1 (per_lesson l all) in
          let small : within l < 26 = omega (arith, few l, Fits-within all within c cs e fits) in
          let n = if c.lesson_number == 0 then d else c.lesson_number in
          let (is, split) =
            numbered-IsOrdering n (suffix shared (within l)) c.slug
              (suffix-IsLetter shared (within l) small) in
          rw (e, All)
            (
              IsOrdering-HasPrefix (two_digits n ++ (suffix shared (within l) ++ codes "-")) c.slug
                  (numbered n (suffix shared (within l)) c.slug) is split,
              names_from-HasPrefix all (if shared then bump l within else within) d l cs few
                  (Fits-bump all within c cs shared e fits),
            )
    ]

challenge_dir_names-HasPrefix :
    (challenges : List ChallengeJson)
    → ((lesson : Text) → per_lesson lesson challenges ≤ 26)
    → All HasPrefix (challenge_dir_names challenges)
unfolding challenge_dir_names
challenge_dir_names-HasPrefix challenges few =
    names_from-HasPrefix challenges (λ lesson. 0) 0 [] challenges few (λ k. omega arith)

All-In {κ} : {A : Type 0} (P : A → Type κ) (xs : List A) (x : A) → All P xs → In x xs → P x
All-In P [] x h member = absurd member
All-In P (y ∷ ys) x (p, h) (inl e) = rw e p
All-In P (y ∷ ys) x (p, h) (inr member) = All-In P ys x h member

module _ (exists : FilePath → Bool) (v : VariantItem) (local : LocalCourse) (c : Challenge)
    (challenges : List ChallengeJson) where
  local_dir_none :
      v.local ≡ some local
      → ((lesson : Text) → per_lesson lesson challenges ≤ 26)
      → ((name : Text)
          → exists (name ∷ local.root) ≡ true
          → In name (challenge_dir_names challenges) ⊎ (name ≡ meta_file))
      → ordering_prefix_len c.slug ≡ 0
      → c.slug ≢ meta_file
      → (to_item exists v c).local_dir ≡ none
  unfolding to_item
  local_dir_none pulled few only bare other = elim (Bool-cases (exists (c.slug ∷ local.root))) [
    | inr missing ↦ rw (pulled, missing) refl
    | inl found ↦ elim (only c.slug found) [
      | inr is_meta ↦ absurd (other is_meta)
      | inl member ↦ absurd (
          All-In HasPrefix (challenge_dir_names challenges) c.slug
            (challenge_dir_names-HasPrefix challenges few) member bare)
    ]
  ]

challenge_view-none :
    (show : ℕ → Text) (i : ChallengeItem)
    → i.local_dir ≡ none
    → ((challenge_view show i).context_value ≡ some (codes "duckChallenge"))
      × ((challenge_view show i).opens ≡ none)
unfolding challenge_view
challenge_view-none show i e = (rw e refl, rw e refl)

-- In a course root that holds nothing but what `duck pull` makes there, the directories of the
-- challenges, at most 26 to a lesson, and the marker file, the tree shows a challenge of the course
-- as not pulled, and a click on it opens nothing, although one of the directories leads `duck` back
-- to its slug; the slug must have no ordering prefix of its own and not be the marker's name.
pub challenge_view-to_item :
    (exists : FilePath → Bool) (v : VariantItem) (local : LocalCourse) (c : Challenge)
    (challenges : List ChallengeJson) (show : ℕ → Text) (d : ChallengeJson)
    → v.local ≡ some local
    → ((lesson : Text) → per_lesson lesson challenges ≤ 26)
    → ((name : Text)
        → exists (name ∷ local.root) ≡ true
        → In name (challenge_dir_names challenges) ⊎ (name ≡ meta_file))
    → In d challenges
    → d.slug ≡ c.slug
    → ordering_prefix_len c.slug ≡ 0
    → c.slug ≢ meta_file
    → let view = challenge_view show (to_item exists v c) in
      (view.context_value ≡ some (codes "duckChallenge"))
      × (view.opens ≡ none)
      × ((name : Text) × In name (challenge_dir_names challenges) × (challenge_slug name ≡ c.slug))
challenge_view-to_item exists v local c challenges show d pulled few only member same_slug bare
      other =
    let dir = local_dir_none exists v local c challenges pulled few only bare other in
    let (context, opens) = challenge_view-none show (to_item exists v c) dir in
    let (name, i, leads) =
      named (challenge_dir_names challenges) challenges d (challenge_dir_names-slugs challenges few)
        member in
    (context, opens, (name, i, leads ∙ same_slug))
