-- ===== src/Duck/Resolve.antt =====
-- cmd/duck/challenge.go: `resolveChallenge` on a pulled course.
use rubber_duck.Prelude.{
  ◌≤◌, Bool, true, false, some, List, [], ◌∷◌, ◌≡◌, inl, inr, refl, sym, ap, ◌∙◌, arith, Bool-cases,
  map, In, Text, same_iff,
}
use rubber_duck.Duck.{
  ChallengeJson, per_lesson, challenge_dir_names, challenge_slug, Resolved, found, DirEntry,
  leads_to, find_entry, resolve_challenge,
}
use rubber_duck.Duck.Names.{challenge_dir_names-slugs}

-- A directory with that name.
abbrev pub HasDir : List DirEntry → Text → Type 0
HasDir entries name = (e : DirEntry) × In e entries × (e.is_dir ≡ true) × (e.name ≡ name)

-- A directory that leads to the slug, for which it is found.
abbrev pub Finds : List DirEntry → Text → Resolved → Type 0
Finds entries slug r =
    (dir : Text) × (r ≡ found dir slug) × HasDir entries dir × (challenge_slug dir ≡ slug)

find_entry-Finds :
    (slug : Text) (entries : List DirEntry) (e : DirEntry)
    → In e entries
    → leads_to slug e ≡ true
    → Finds entries slug (find_entry slug entries)
unfolding find_entry
find_entry-Finds slug [] e i l = absurd i
find_entry-Finds slug (x ∷ entries) e i l = elim (Bool-cases (leads_to slug x)) [
  | inl here ↦ rw here (
    x.name,
    refl,
    (x, inl refl, ground arith, refl),
    (same_iff (challenge_slug x.name) slug).0 (ground arith),
  )
  | inr other ↦ elim i [
    | inl is ↦ absurd (let same_test = ap (leads_to slug) is in cc)
    | inr j ↦
        let (dir, r, (y, k, d, n), s) = find_entry-Finds slug entries e j l in
        rw other (dir, r, (y, inr k, d, n), s)
  ]
]

-- The name of the directory of each slug.
pub named :
    (names : List Text) (cs : List ChallengeJson) (c : ChallengeJson)
    → map challenge_slug names ≡ map (λ d. d.slug) cs
    → In c cs
    → (name : Text) × In name names × (challenge_slug name ≡ c.slug)
named names [] c e i = absurd i
named [] (d ∷ cs) c e i = let e' : [] ≡ d.slug ∷ map (λ d. d.slug) cs = e in absurd (cc)
named (n ∷ names) (d ∷ cs) c e (inl is) =
    let e' : challenge_slug n ∷ map challenge_slug names ≡ d.slug ∷ map (λ d. d.slug) cs = e in
    let first : challenge_slug n ≡ d.slug = cc in
    (n, inl refl, first ∙ ap (λ (x : ChallengeJson). x.slug) (sym is))
named (n ∷ names) (d ∷ cs) c e (inr i) =
    let e' : challenge_slug n ∷ map challenge_slug names ≡ d.slug ∷ map (λ d. d.slug) cs = e in
    let rest : map challenge_slug names ≡ map (λ d. d.slug) cs = cc in
    let (name, j, leads) = named names cs c rest i in (name, inr j, leads)

-- In a course pulled with at most 26 challenges in a lesson, with a directory for every challenge,
-- where each directory listed is found by its name, which is a clean path: an argument that cleans to
-- a challenge's slug, if no directory is found under the slug itself, is resolved to a listed
-- directory that leads to the slug; and the name of the challenge's own directory to that directory
-- and the slug.
pub resolve_challenge-Finds :
    (clean : Text → Text) (stat : Text → Bool) (entries : List DirEntry)
    (challenges : List ChallengeJson)
    → ((lesson : Text) → per_lesson lesson challenges ≤ 26)
    → ((name : Text) → In name (challenge_dir_names challenges) → HasDir entries name)
    → ((name : Text) → HasDir entries name → stat name ≡ true)
    → ((name : Text) → HasDir entries name → clean name ≡ name)
    → (arg : Text) (c : ChallengeJson) → In c challenges
    → clean arg ≡ c.slug
    → stat c.slug ≡ false
    → Finds entries c.slug (resolve_challenge clean stat (some entries) arg)
      × ((name : Text) × In name (challenge_dir_names challenges)
          × (resolve_challenge clean stat (some entries) name ≡ found name c.slug))
unfolding resolve_challenge
resolve_challenge-Finds clean stat entries challenges few pulled there tidy arg c i cleaned free =
    let (name, j, leads) =
      named (challenge_dir_names challenges) challenges c (challenge_dir_names-slugs challenges few)
        i in
    let (e, k, is, at) = pulled name j in
    let test : leads_to c.slug e ≡ true =
      ground (arith, (same_iff (challenge_slug e.name) c.slug).1 (ap challenge_slug at ∙ leads)) in
    let dir : HasDir entries name = (e, k, is, at) in
    (
      rw (cleaned, free) (find_entry-Finds c.slug entries e k test),
      (name, j, rw (tidy name dir, there name dir) (ap (found name) leads)),
    )
