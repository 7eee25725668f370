-- ===== src/Diff/Patience/Chain.antt =====
-- `patienceAnchors` always returns: equal lines, increasing on both sides, as many as there are piles.
use rubber_duck.Prelude.{
  ℕ, zero, suc, ◌+◌, ◌-◌, ◌≤◌, ◌<◌, Option, some, List, [], ◌∷◌, ◌++◌, append_assoc, ◌≡◌, refl, sym,
  ◌∙◌, ap, arith, Text, length, length-append, get_elem?, get_elem?-lt, get_elem?-some,
  get_elem?-append_self,
}
use mathlib.Core.Option.{some-injective}
use mathlib.Core.Path.{subst}
use rubber_duck.Diff.Patience.{
  Anchor, Piles, no_piles, place_all, collect, longest_chain, candidates, patience_anchors,
}
use rubber_duck.Diff.Patience.Pairs.{IsPair, ArePairs, candidates-ArePairs}
use rubber_duck.Diff.Patience.Invariant.{Chain, Inv, no_piles-Inv, place-Inv}

place_all-Inv :
    (pairs done todo : List Anchor) (i : ℕ) (st : Piles)
    → pairs ≡ done ++ todo
    → i ≡ length done
    → Inv pairs i st
    → (st' : Piles) × (place_all i todo st ≡ some st') × Inv pairs (length pairs) st'
unfolding place_all
place_all-Inv pairs done [] i st e n v =
    let all : i ≡ length pairs = omega (arith, ap length e, length-append done []) in
    (st, refl, subst (λ k. Inv pairs k st) all v)
place_all-Inv pairs done (a ∷ todo) i st e n v =
    let at : get_elem? pairs i ≡ some a =
      ap (λ xs. get_elem? xs i) e
      ∙ ap (get_elem? (done ++ a ∷ todo)) n
      ∙ get_elem?-append_self done todo a in
    let (st', placed, v') = place-Inv pairs i a st at v in
    let (st'', rest, v'') =
      place_all-Inv pairs (done ++ a ∷ []) todo (i + 1) st'
        (e ∙ sym (append_assoc done (a ∷ []) todo)) (omega (arith, length-append done (a ∷ [])))
        v' in
    (st'', rw (placed, place_all) rest, v'')

module _ (old new : List Text) where
  ArePairs-get :
      (lo : ℕ) (pairs : List Anchor) (j : ℕ) (a : Anchor)
      → ArePairs old new lo pairs
      → get_elem? pairs j ≡ some a
      → (lo ≤ a.old) × IsPair old new a
  ArePairs-get lo [] j a h e = absurd (ground arith)
  ArePairs-get lo (b ∷ pairs) zero a (le, is, h) e =
      let same : b ≡ a = some-injective _ _ e in rw (← same) (le, is)
  ArePairs-get lo (b ∷ pairs) (suc j) a (le, is, h) e =
      let (le', is') = ArePairs-get (b.old + 1) pairs j a h e in (omega arith, is')

  pub ArePairs-lt :
      (lo : ℕ) (pairs : List Anchor) (i j : ℕ) (a b : Anchor)
      → ArePairs old new lo pairs
      → i < j
      → get_elem? pairs i ≡ some a
      → get_elem? pairs j ≡ some b
      → a.old < b.old
  ArePairs-lt lo [] i j a b h lt e f = absurd (ground arith)
  ArePairs-lt lo (c ∷ pairs) i zero a b h lt e f = absurd (omega arith)
  ArePairs-lt lo (c ∷ pairs) zero (suc j) a b (le, is, h) lt e f =
      let same : c ≡ a = some-injective _ _ e in
      let (le', _) = ArePairs-get (c.old + 1) pairs j b h f in
      omega (arith, ap (λ (x : Anchor). x.old) same)
  ArePairs-lt lo (c ∷ pairs) (suc i) (suc j) a b (le, is, h) lt e f =
      ArePairs-lt (c.old + 1) pairs i j a b h (omega arith) e f

  -- Anchors that divide both sides from these indices on: equal lines, in order on both sides.
  abbrev pub Divides : (oi ni : ℕ) → List Anchor → Type 0
  Divides oi ni [] = (oi ≤ length old) × (ni ≤ length new)
  Divides oi ni (a ∷ anchors) =
      (oi ≤ a.old) × (ni ≤ a.new) × IsPair old new a × Divides (a.old + 1) (a.new + 1) anchors

  collect-Divides :
      (pairs : List Anchor) (links : List (Option ℕ))
      → ArePairs old new 0 pairs
      → (p j : ℕ) (a : Anchor) (chain : List Anchor) → get_elem? pairs j ≡ some a
      → Chain pairs links p j
      → Divides (a.old + 1) (a.new + 1) chain
      → (r : List Anchor) × (collect pairs links (suc p) (some j) chain ≡ some r)
        × Divides 0 0 r
        × (length r ≡ suc p + length chain)
  unfolding collect
  collect-Divides pairs links are zero j a chain e c d =
      let (_, is) = ArePairs-get 0 pairs j a are e in
      (a ∷ chain, rw (e, collect) refl, (omega arith, omega arith, is, d), omega arith)
  collect-Divides pairs links are (suc p) j a chain e (i, b, a', link, lt, at, at', less, c) d =
      let (_, is) = ArePairs-get 0 pairs j a are e in
      let same : a' ≡ a = some-injective _ _ (sym at' ∙ e) in
      let before : b.old < a.old = ArePairs-lt 0 pairs i j b a are lt at e in
      let (r, collected, divides, len) =
        collect-Divides pairs links are p i b (a ∷ chain) at c
          (omega arith, omega (arith, ap (λ (x : Anchor). x.new) same), is, d) in
      (r, rw (e, link, collect) collected, divides, omega (arith, len))

  -- The result is what the invariant at the end of the loop says of the piles.
  pub record Collected (pairs chain : List Anchor) : Type 0 where
    pub st : Piles
    pub inv : Inv pairs (length pairs) st
    pub divides : Divides 0 0 chain
    pub same_length : length chain ≡ length st.piles

  collect_all :
      (pairs : List Anchor) (st : Piles) (n : ℕ)
      → ArePairs old new 0 pairs
      → Inv pairs (length pairs) st
      → length st.piles ≡ suc n
      → (r : List Anchor) × (collect pairs st.backlink (suc n) (get_elem? st.tops n) [] ≡ some r)
        × Divides 0 0 r
        × (length r ≡ suc n)
  collect_all pairs st n are v e =
      let (w, top) = get_elem?-some st.piles n (omega arith) in
      let (j, at_top, (a, at, _, _, chain)) = v.topped n w top in
      let (_, (t, at_old, at_new, _, _)) = ArePairs-get 0 pairs j a are at in
      let (r, collected, divides, len) = collect-Divides pairs st.backlink are n j a [] at chain (
        omega (arith, get_elem?-lt old a.old t at_old),
        omega (arith, get_elem?-lt new a.new t at_new),
      ) in
      (
        r,
        ap (λ at. collect pairs st.backlink (suc n) at []) at_top ∙ collected,
        divides,
        omega (arith, len),
      )

  longest_chain-cons :
      (q : Anchor) (pairs : List Anchor) (st : Piles) (n : ℕ)
      → place_all 0 (q ∷ pairs) no_piles ≡ some st
      → length st.piles ≡ suc n
      → longest_chain (q ∷ pairs) ≡ collect (q ∷ pairs) st.backlink (suc n) (get_elem? st.tops n) []
  longest_chain-cons q pairs st n placed e =
      rw (placed, longest_chain) refl
      ∙ ap (λ k. collect (q ∷ pairs) st.backlink k (get_elem? st.tops (k - 1)) []) e
      ∙ ap (λ m. collect (q ∷ pairs) st.backlink (suc n) (get_elem? st.tops m) []) (omega arith)

  longest_chain-Collected :
      (pairs : List Anchor)
      → ArePairs old new 0 pairs
      → (r : List Anchor) × (longest_chain pairs ≡ some r) × Collected pairs r
  longest_chain-Collected [] are = (
    [],
    refl,
    record {
      st = no_piles;
      inv = no_piles-Inv [];
      divides = (omega arith, omega arith);
      same_length = refl;
    },
  )
  longest_chain-Collected (q ∷ pairs) are =
      let (st, placed, v) =
        place_all-Inv (q ∷ pairs) [] (q ∷ pairs) 0 no_piles refl refl (no_piles-Inv (q ∷ pairs)) in
      let (u, bottom, _) = v.longest 0 0 q (omega arith) refl tt in
      let count : length st.piles ≡ suc (length st.piles - 1) =
        omega (arith, get_elem?-lt st.piles 0 u bottom) in
      let (r, collected, divides, len) =
        collect_all (q ∷ pairs) st (length st.piles - 1) are v count in
      (
        r,
        longest_chain-cons q pairs st (length st.piles - 1) placed count ∙ collected,
        record { st = st; inv = v; divides = divides; same_length = len ∙ sym count },
      )

  pub patience_anchors-Collected :
      (r : List Anchor) × (patience_anchors old new ≡ some r) × Collected (candidates old new) r
  unfolding patience_anchors
  patience_anchors-Collected =
      longest_chain-Collected (candidates old new) (candidates-ArePairs old new)
