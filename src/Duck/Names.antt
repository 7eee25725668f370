-- ===== src/Duck/Names.antt =====
-- A challenge's directory leads back to the challenge's slug.
use rubber_duck.Prelude.{
  ℕ, suc, ◌+◌, ◌≤◌, ◌<◌, Bool, true, false, List, [], ◌∷◌, ◌++◌, append_assoc, map, ◌≡◌, refl, ◌∙◌,
  ap, inl, inr, arith, ltb, ◌==◌, if◌then◌else◌, Text, codes, same, drop, same_refl, AllPass,
  length, Bool-cases,
}
use rubber_duck.Number.{is_digit}
use rubber_duck.Number.Digits.{show_nat-AllPass, length-show_nat, length-show_nat_two}
use rubber_duck.Ingest.{is_lower}
use rubber_duck.Ingest.Prefix.{IsLetter, IsOrdering, ordering_prefix_len_complete}
use rubber_duck.Duck.{
  ChallengeJson, is_final, per_lesson, bump, two_digits, suffix, next_derived, numbered, names_from,
  challenge_dir_names, challenge_slug,
}

drop-append : (p s : Text) → drop (length p) (p ++ s) ≡ s
drop-append [] s = refl
drop-append (c ∷ p) s = drop-append p s

challenge_slug-IsOrdering : (p slug : Text) → IsOrdering p → challenge_slug (p ++ slug) ≡ slug
unfolding challenge_slug
challenge_slug-IsOrdering p slug h = rw (ordering_prefix_len_complete p slug h) (drop-append p slug)

two_digits-AllPass : (n : ℕ) → AllPass is_digit (two_digits n)
unfolding two_digits is_digit
two_digits-AllPass n = elim (Bool-cases (ltb n 10)) [
  | inl e ↦ rw e (refl, show_nat-AllPass n)
  | inr e ↦ rw e (show_nat-AllPass n)
]

length-two_digits : (n : ℕ) → 2 ≤ length (two_digits n)
unfolding two_digits
length-two_digits n = elim (Bool-cases (ltb n 10)) [
  | inl e ↦ rw e (omega (arith, length-show_nat n))
  | inr e ↦ rw e (length-show_nat_two n (ground arith))
]

pub suffix-IsLetter : (shared : Bool) (k : ℕ) → k < 26 → IsLetter (suffix shared k)
unfolding suffix is_lower
suffix-IsLetter false k h = tt
suffix-IsLetter true k h =
    let small : ltb (b'a' + k) 0x80 ≡ true = ground arith in rw small (ground arith)

-- A numbered name as its ordering prefix and the slug.
pub numbered-IsOrdering :
    (n : ℕ) (letter slug : Text)
    → IsLetter letter
    → IsOrdering (two_digits n ++ (letter ++ codes "-"))
      × (numbered n letter slug ≡ (two_digits n ++ (letter ++ codes "-")) ++ slug)
numbered-IsOrdering n letter slug h = (
  inr (two_digits n, letter, refl, two_digits-AllPass n, length-two_digits n, h),
  simp append_assoc,
)

challenge_slug-numbered :
    (n : ℕ) (letter slug : Text) → IsLetter letter → challenge_slug (numbered n letter slug) ≡ slug
challenge_slug-numbered n letter slug h =
    let (is, split) = numbered-IsOrdering n letter slug h in
    ap challenge_slug split ∙ challenge_slug-IsOrdering _ slug is

-- The letters given so far and the challenges to come are no more than a lesson has.
abbrev pub Fits : List ChallengeJson → (Text → ℕ) → List ChallengeJson → Type 0
Fits all within cs = (k : Text) → within k + per_lesson k cs ≤ per_lesson k all

per_lesson-final :
    (c : ChallengeJson) (cs : List ChallengeJson) (k : Text)
    → is_final c.lesson_slug ≡ true
    → per_lesson k (c ∷ cs) ≡ per_lesson k cs
unfolding per_lesson
per_lesson-final c cs k e = rw e refl

per_lesson-numbered :
    (c : ChallengeJson) (cs : List ChallengeJson) (k : Text)
    → is_final c.lesson_slug ≡ false
    → per_lesson k (c ∷ cs)
      ≡ (if same c.lesson_slug k then suc (per_lesson k cs) else per_lesson k cs)
unfolding per_lesson
per_lesson-numbered c cs k e = rw e refl

module _ (all : List ChallengeJson) (within : Text → ℕ) (c : ChallengeJson)
    (cs : List ChallengeJson) where
  pub Fits-final : is_final c.lesson_slug ≡ true → Fits all within (c ∷ cs) → Fits all within cs
  Fits-final e h k = rw (per_lesson-final c cs k e) at (h k)

  pub Fits-within :
      is_final c.lesson_slug ≡ false
      → Fits all within (c ∷ cs)
      → within c.lesson_slug < per_lesson c.lesson_slug all
  Fits-within e h = omega (
    arith,
    h c.lesson_slug,
    rw (same_refl c.lesson_slug) at (per_lesson-numbered c cs c.lesson_slug e),
  )

  pub Fits-bump :
      (shared : Bool)
      → is_final c.lesson_slug ≡ false
      → Fits all within (c ∷ cs)
      → Fits all (if shared then bump c.lesson_slug within else within) cs
  Fits-bump shared e h k = ground (arith, h k, per_lesson-numbered c cs k e)

names_from-slugs :
    (all : List ChallengeJson) (within : Text → ℕ) (derived : ℕ) (prev : Text)
    (cs : List ChallengeJson)
    → ((k : Text) → per_lesson k all ≤ 26)
    → Fits all within cs
    → map challenge_slug (names_from all within derived prev cs) ≡ map (λ c. c.slug) cs
unfolding names_from
names_from-slugs all within derived prev [] few fits = refl
names_from-slugs all within derived prev (c ∷ cs) few fits =
    elim (Bool-cases (is_final c.lesson_slug)) [
      | inl e ↦
          rw (e, map)
            (cc (
              challenge_slug-IsOrdering (codes "final-") c.slug (inl refl),
              names_from-slugs all within derived prev cs few (Fits-final all within c cs e fits),
            ))
      | inr e ↦
          let l = c.lesson_slug in
          let d = next_derived l prev derived in
          let shared = ltb 1 (per_lesson l all) in
          let small : within l < 26 = omega (arith, few l, Fits-within all within c cs e fits) in
          rw (e, map)
            (cc (
              challenge_slug-numbered (if c.lesson_number == 0 then d else c.lesson_number)
                  (suffix shared (within l)) c.slug (suffix-IsLetter shared (within l) small),
              names_from-slugs all (if shared then bump l within else within) d l cs few
                  (Fits-bump all within c cs shared e fits),
            ))
    ]

-- If no lesson has more than 26 challenges, `challengeSlug` recovers the slug of every challenge from
-- the name of its directory, in the listing's order: whatever the slugs and the lessons' numbers are.
pub challenge_dir_names-slugs :
    (challenges : List ChallengeJson)
    → ((lesson : Text) → per_lesson lesson challenges ≤ 26)
    → map challenge_slug (challenge_dir_names challenges) ≡ map (λ c. c.slug) challenges
unfolding challenge_dir_names
challenge_dir_names-slugs challenges few =
    names_from-slugs challenges (λ lesson. 0) 0 [] challenges few (λ k. omega arith)
