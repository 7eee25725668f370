-- ===== src/Diff/Patience/Tops.antt =====
-- What the piles hold after any number of pairs, and that no step of the loop panics.
use rubber_duck.Prelude.{
  ℕ, zero, suc, ◌+◌, ◌/◌, ◌≤◌, ◌<◌, none, some, List, [], ◌∷◌, ◌++◌, ◌≡◌, inl, inr, refl, sym, ◌∙◌,
  ap, arith, ltb, ◌==◌, ==_iff, Bool-cases, Option-cases, length, length-append, get_elem?,
  get_elem?-lt, get_elem?-some, length-set, get_elem?-set_self, get_elem?-set_ne,
  get_elem?-append_left, get_elem?-append_self,
}
use mathlib.Core.Option.{some-injective}
use rubber_duck.Diff.Patience.{find_pile, write}

abbrev pub IsSorted : List ℕ → Type 0
IsSorted xs = (i j u v : ℕ) → i < j → get_elem? xs i ≡ some u → get_elem? xs j ≡ some v → u < v

-- `r` is the first pile whose value is not below `v`.
pub record Finds (piles : List ℕ) (v r : ℕ) : Type 0 where
  pub bound : r ≤ length piles
  pub below : (i u : ℕ) → i < r → get_elem? piles i ≡ some u → u < v
  pub above : (i u : ℕ) → r ≤ i → get_elem? piles i ≡ some u → v ≤ u

module _ (piles : List ℕ) (v : ℕ) (sorted : IsSorted piles) where
  below_mid :
      (m u : ℕ)
      → get_elem? piles m ≡ some u
      → u < v
      → (i w : ℕ) → i < m + 1
      → get_elem? piles i ≡ some w
      → w < v
  below_mid m u e lt i w h f = elim (Bool-cases (i == m)) [
    | inl same ↦
        let at : u ≡ w =
          some-injective _ _ (sym e ∙ ap (get_elem? piles) (sym ((==_iff i m).0 same)) ∙ f) in
        omega (arith, at)
    | inr other ↦ let less : i < m = ground arith in omega (arith, sorted i m w u less f e)
  ]

  above_mid :
      (m u : ℕ)
      → get_elem? piles m ≡ some u
      → v ≤ u
      → (i w : ℕ) → m ≤ i
      → get_elem? piles i ≡ some w
      → v ≤ w
  above_mid m u e le i w h f = elim (Bool-cases (i == m)) [
    | inl same ↦
        let at : u ≡ w =
          some-injective _ _ (sym e ∙ ap (get_elem? piles) (sym ((==_iff i m).0 same)) ∙ f) in
        omega (arith, at)
    | inr other ↦ let more : m < i = ground arith in omega (arith, sorted m i u w more e f)
  ]

  find_pile-Finds :
      (fuel lo hi : ℕ)
      → hi + 1 ≤ lo + fuel
      → lo ≤ hi
      → hi ≤ length piles
      → ((i u : ℕ) → i < lo → get_elem? piles i ≡ some u → u < v)
      → ((i u : ℕ) → hi ≤ i → get_elem? piles i ≡ some u → v ≤ u)
      → (r : ℕ) × (find_pile fuel piles v lo hi ≡ some r) × Finds piles v r
  unfolding find_pile
  find_pile-Finds zero lo hi f le len below above = absurd (omega arith)
  find_pile-Finds (suc fuel) lo hi f le len below above = elim (Bool-cases (ltb lo hi)) [
    | inr done ↦
        let same : lo ≡ hi = ground arith in
        (
          lo,
          rw (done, find_pile) refl,
          record { bound = omega arith; below = below; above = rw (← same) at above },
        )
    | inl more ↦
        let less : lo < hi = ground arith in
        let (u, e) = get_elem?-some piles ((lo + hi) / 2) (omega arith) in
        elim (Bool-cases (ltb u v)) [
          | inl lt ↦
              let (r, found, finds) =
                find_pile-Finds fuel ((lo + hi) / 2 + 1) hi (omega arith) (omega arith) len
                  (below_mid ((lo + hi) / 2) u e (ground arith)) above in
              (r, rw (more, e, lt, find_pile) found, finds)
          | inr ge ↦
              let (r, found, finds) =
                find_pile-Finds fuel lo ((lo + hi) / 2) (omega arith) (omega arith) (omega arith)
                  below (above_mid ((lo + hi) / 2) u e (ground arith)) in
              (r, rw (more, e, ge, find_pile) found, finds)
        ]
  ]

  pub find_pile_lem :
      (r : ℕ) × (find_pile (suc (length piles)) piles v 0 (length piles) ≡ some r) × Finds piles v r
  find_pile_lem =
      find_pile-Finds (suc (length piles)) 0 (length piles) (omega arith) (omega arith)
        (omega arith) (λ i u h e. absurd (omega arith))
        (λ i u h e. absurd (omega (arith, get_elem?-lt piles i u e)))

-- A write at an index up to the length, appending there.
pub record Written (xs ys : List ℕ) (r v : ℕ) : Type 0 where
  pub here : get_elem? ys r ≡ some v
  pub other : (p : ℕ) → (p ≡ r → ⊥) → get_elem? ys p ≡ get_elem? xs p

get_elem?-beyond : (xs : List ℕ) (p : ℕ) → length xs ≤ p → get_elem? xs p ≡ none
get_elem?-beyond xs p h = elim (Option-cases (get_elem? xs p)) [
  | inl missing ↦ missing
  | inr (a, e) ↦ absurd (omega (arith, get_elem?-lt xs p a e))
]

append-other :
    (xs : List ℕ) (v p : ℕ) → (p ≡ length xs → ⊥) → get_elem? (xs ++ v ∷ []) p ≡ get_elem? xs p
append-other xs v p ne = elim (Bool-cases (ltb p (length xs))) [
  | inl less ↦ get_elem?-append_left xs (v ∷ []) p (ground arith)
  | inr more ↦
      let past : length xs < p = ground (arith, ne) in
      get_elem?-beyond (xs ++ v ∷ []) p (omega (arith, length-append xs (v ∷ [])))
      ∙ sym (get_elem?-beyond xs p (omega arith))
]

pub write-Written :
    (xs : List ℕ) (r v n : ℕ) → length xs ≡ n → r ≤ n → Written xs (write (r == n) xs r v) r v
write-Written xs r v n len h = elim (Bool-cases (r == n)) [
  | inl e ↦
      let at : length xs ≡ r = len ∙ sym ((==_iff r n).0 e) in
      rw e (record {
        here = ap (get_elem? (xs ++ v ∷ [])) (sym at) ∙ get_elem?-append_self xs [] v;
        other = λ p ne. append-other xs v p (λ e'. ne (e' ∙ at));
      })
  | inr e ↦ rw e (record {
    here = get_elem?-set_self xs r v (ground arith);
    other = λ p ne. get_elem?-set_ne xs r p v (λ e'. ne (sym e'));
  })
]

pub length-write :
    (xs ys : List ℕ) (r v w n : ℕ)
    → length xs ≡ n
    → length ys ≡ n
    → length (write (r == n) xs r v) ≡ length (write (r == n) ys r w)
length-write xs ys r v w n e f = ground (
  arith,
  length-append xs (v ∷ []),
  length-append ys (w ∷ []),
  length-set xs r v,
  length-set ys r w,
)
