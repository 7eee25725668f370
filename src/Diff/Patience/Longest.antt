-- ===== src/Diff/Patience/Longest.antt =====
-- No chain of lines that both sides hold once is longer than the anchors.
use rubber_duck.Prelude.{
  ℕ, zero, suc, ◌+◌, ◌≤◌, ◌<◌, ◌&&◌, some, List, [], ◌∷◌, ◌++◌, append_assoc, ◌≡◌, refl, sym, ◌∙◌,
  ap, inl, inr, arith, ltb, ◌==◌, ==_iff, Text, same, same_iff, Bool-cases, length, length-append,
  get_elem?, get_elem?-lt, get_elem?-append_self,
}
use mathlib.Core.Option.{some-injective}
use rubber_duck.Diff.Patience.{Anchor, pairs_of, candidates, patience_anchors}
use rubber_duck.Diff.Patience.Pairs.{
  occurs, IsPair, counted, counted-o, counted-n, unique-IsPair, candidates-ArePairs,
}
use rubber_duck.Diff.Patience.Invariant.{Rising}
use rubber_duck.Diff.Patience.Chain.{ArePairs-lt, Divides, Collected, patience_anchors-Collected}

occurs-some :
    (k : Text) (lines : List Text) (i : ℕ) → get_elem? lines i ≡ some k → 1 ≤ occurs k lines
unfolding occurs
occurs-some k [] i e = absurd (ground arith)
occurs-some k (l ∷ lines) zero e =
    let here : l ≡ k = some-injective _ _ e in ground (arith, same_iff l k)
occurs-some k (l ∷ lines) (suc i) e = ground (arith, occurs-some k lines i e)

occurs_unique :
    (k : Text) (lines : List Text) (i j : ℕ)
    → occurs k lines ≡ 1
    → get_elem? lines i ≡ some k
    → get_elem? lines j ≡ some k
    → i ≡ j
unfolding occurs
occurs_unique k [] i j o e f = absurd (ground arith)
occurs_unique k (l ∷ lines) zero zero o e f = refl
occurs_unique k (l ∷ lines) zero (suc j) o e f =
    let here : l ≡ k = some-injective _ _ e in
    absurd (ground (arith, same_iff l k, occurs-some k lines j f))
occurs_unique k (l ∷ lines) (suc i) zero o e f =
    let here : l ≡ k = some-injective _ _ f in
    absurd (ground (arith, same_iff l k, occurs-some k lines i e))
occurs_unique k (l ∷ lines) (suc i) (suc j) o e f = elim (Bool-cases (same l k)) [
  | inl s ↦ absurd (ground (arith, occurs-some k lines i e))
  | inr s ↦ ap suc (occurs_unique k lines i j (rw s at o) e f)
]

module _ (old new : List Text) where
  -- Every line that both sides hold once is among the candidates.
  pairs_of_complete :
      (before rest : List Text) (a : Anchor)
      → old ≡ before ++ rest
      → IsPair old new a
      → length before ≤ a.old
      → (j : ℕ) × (get_elem? (pairs_of (counted old new) rest) j ≡ some a)
  unfolding pairs_of
  pairs_of_complete before [] a e (t, at_old, at_new, o, n) h =
      absurd (omega (arith, get_elem?-lt old a.old t at_old, ap length e, length-append before []))
  pairs_of_complete before (l ∷ rest) a e (t, at_old, at_new, o, n) h =
      elim (Bool-cases (a.old == length before)) [
        | inl here ↦
            let at : a.old ≡ length before = (==_iff a.old (length before)).0 here in
            let same_line : t ≡ l = some-injective _ _ (
              sym at_old
              ∙ ap (get_elem? old) at
              ∙ ap (λ ls. get_elem? ls (length before)) e
              ∙ get_elem?-append_self before rest l) in
            let one_old : (counted old new l).o ≡ 1 =
              counted-o old new l ∙ ap (λ k. occurs k old) (sym same_line) ∙ o in
            let one_new : (counted old new l).n ≡ 1 =
              counted-n old new l ∙ ap (λ k. occurs k new) (sym same_line) ∙ n in
            let (old_index, (t', at_old', at_new', o', n')) =
              unique-IsPair old new l before rest e one_old one_new in
            let p : (counted old new l).oi ≡ a.old = old_index ∙ sym at in
            let same_text : t' ≡ t =
              some-injective _ _ (sym at_old' ∙ ap (get_elem? old) p ∙ at_old) in
            let q : (counted old new l).ni ≡ a.new =
              occurs_unique t' new _ _ n' at_new' (at_new ∙ ap some (sym same_text)) in
            (0, rw (one_old, one_new) (λ i. some (record { old = p i; new = q i })))
        | inr later ↦
            let assoc : old ≡ (before ++ l ∷ []) ++ rest =
              e ∙ sym (append_assoc before (l ∷ []) rest) in
            let (j, found) =
              pairs_of_complete (before ++ l ∷ []) rest a assoc (t, at_old, at_new, o, n)
                (ground (arith, length-append before (l ∷ []))) in
            elim (Bool-cases ((counted old new l).o == 1 && (counted old new l).n == 1)) [
              | inl more ↦ (suc j, rw more found)
              | inr skip ↦ (j, rw skip found)
            ]
      ]

  candidates_complete :
      (a : Anchor) → IsPair old new a → (j : ℕ) × (get_elem? (candidates old new) j ≡ some a)
  unfolding candidates counted
  candidates_complete a is = pairs_of_complete [] old a refl is (omega arith)

  module _ (chain : List Anchor) (c : Collected old new (candidates old new) chain) where
    -- A run of pairs that ends at candidate `j`, followed by a chain of later ones.
    run-le :
        (p j : ℕ) (a : Anchor) (cs : List Anchor)
        → get_elem? (candidates old new) j ≡ some a
        → Rising (candidates old new) p j
        → Divides old new (a.old + 1) (a.new + 1) cs
        → suc p + length cs ≤ length c.st.piles
    run-le p j a [] at rising d =
        let below = get_elem?-lt (candidates old new) j a at in
        let (u, e, _) = c.inv.longest p j a below at rising in
        omega (arith, get_elem?-lt c.st.piles p u e)
    run-le p j a (b ∷ cs) at rising (le, le', is, d) =
        let (k, at_k) = candidates_complete b is in
        let later : j < k = elim (Bool-cases (ltb j k)) [
          | inl lt ↦ ground arith
          | inr ge ↦ absurd (elim (Bool-cases (j == k)) [
            | inl same ↦
                let one : a ≡ b =
                  some-injective _ _
                    (sym at ∙ ap (get_elem? (candidates old new)) ((==_iff j k).0 same) ∙ at_k) in
                omega (arith, ap (λ (x : Anchor). x.old) one)
            | inr ne ↦
                let before : k < j = ground arith in
                omega (
                  arith,
                  ArePairs-lt old new 0 (candidates old new) k j b a (candidates-ArePairs old new)
                      before at_k at,
                )
          ])
        ] in
        omega (arith, run-le (suc p) k b cs at_k (j, a, b, later, at, at_k, omega arith, rising) d)

    chain-le : (cs : List Anchor) → Divides old new 0 0 cs → length cs ≤ length chain
    chain-le [] d = omega arith
    chain-le (a ∷ cs) (le, le', is, d) =
        let (j, at) = candidates_complete a is in
        omega (arith, run-le 0 j a cs at tt d, c.same_length)

-- The anchors are a longest chain: `patienceAnchors` never panics, the anchors that it gives are lines
-- that each side holds exactly once, in the same order on both sides, and no other chain of such
-- lines is longer.
pub patience_anchors-longest :
    (old new : List Text)
    → (chain : List Anchor) × (patience_anchors old new ≡ some chain)
      × Divides old new 0 0 chain
      × ((cs : List Anchor) → Divides old new 0 0 cs → length cs ≤ length chain)
patience_anchors-longest old new =
    let (chain, e, c) = patience_anchors-Collected old new in
    (chain, e, c.divides, chain-le old new chain c)
