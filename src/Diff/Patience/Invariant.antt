-- ===== src/Diff/Patience/Invariant.antt =====
-- The invariant of the loop over the pairs: the piles are sorted, each top ends a chain of links of
-- its pile's length, and no increasing run of pairs is longer than the piles.
use rubber_duck.Prelude.{
  ℕ, zero, suc, ◌+◌, ◌≤◌, ◌<◌, Option, none, some, List, [], ◌∷◌, ◌++◌, ◌≡◌, inl, inr, refl, sym,
  ◌∙◌, ap, arith, ltb, ◌==◌, ==_iff, Bool-cases, length, length-append, get_elem?, get_elem?-lt,
  get_elem?-some, get_elem?-append_left, get_elem?-append_self,
}
use mathlib.Core.Option.{some-injective}
use rubber_duck.Diff.Patience.{Anchor, Piles, no_piles, link, write, put, place}
use rubber_duck.Diff.Patience.Tops.{
  IsSorted, Finds, find_pile_lem, Written, write-Written, length-write,
}

module _ (pairs : List Anchor) where
  -- From pair `j` the links lead back through `p` more pairs, each earlier and smaller.
  abbrev pub Chain : List (Option ℕ) → ℕ → ℕ → Type 0
  Chain backlink zero j = Unit
  Chain backlink (suc p) j =
      (i : ℕ) × (b a : Anchor) × (get_elem? backlink j ≡ some (some i))
      × (i < j)
      × (get_elem? pairs i ≡ some b)
      × (get_elem? pairs j ≡ some a)
      × (b.new < a.new)
      × Chain backlink p i

  -- Pair `j` ends an increasing run of `p + 1` pairs.
  abbrev pub Rising : ℕ → ℕ → Type 0
  Rising zero j = Unit
  Rising (suc p) j =
      (i : ℕ) × (b a : Anchor) × (i < j)
      × (get_elem? pairs i ≡ some b)
      × (get_elem? pairs j ≡ some a)
      × (b.new < a.new)
      × Rising p i

  -- Pair `j` is on top of pile `p`, whose value is `v`.
  abbrev pub Tops : ℕ → List (Option ℕ) → (p v j : ℕ) → Type 0
  Tops i backlink p v j =
      (a : Anchor) × (get_elem? pairs j ≡ some a) × (a.new ≡ v) × (j < i) × Chain backlink p j

  pub record Inv (i : ℕ) (st : Piles) : Type 0 where
    pub tops_length : length st.tops ≡ length st.piles
    pub links_length : length st.backlink ≡ i
    pub sorted : IsSorted st.piles
    pub topped :
        (p v : ℕ)
        → get_elem? st.piles p ≡ some v
        → (j : ℕ) × (get_elem? st.tops p ≡ some j) × Tops i st.backlink p v j
    pub longest :
        (p j : ℕ) (a : Anchor)
        → j < i
        → get_elem? pairs j ≡ some a
        → Rising p j
        → (u : ℕ) × (get_elem? st.piles p ≡ some u) × (u ≤ a.new)

  Chain-append :
      (links more : List (Option ℕ)) (p j : ℕ)
      → j < length links
      → Chain links p j
      → Chain (links ++ more) p j
  Chain-append links more zero j h c = tt
  Chain-append links more (suc p) j h (i, b, a, e, lt, at, at', less, c) = (
    i,
    b,
    a,
    get_elem?-append_left links more j h ∙ e,
    lt,
    at,
    at',
    less,
    Chain-append links more p i (omega arith) c,
  )

  pub no_piles-Inv : Inv 0 no_piles
  no_piles-Inv = record {
    tops_length = refl;
    links_length = refl;
    sorted = λ i j u v h e f. absurd (ground arith);
    topped = λ p v e. absurd (ground arith);
    longest = λ p j a h e r. absurd (omega arith);
  }

  -- One pair is put on its pile.
  module _ (i : ℕ) (a : Anchor) (at_i : get_elem? pairs i ≡ some a) (st : Piles) (v : Inv i st)
      (r : ℕ) (f : Finds st.piles a.new r) where
    piles' : List ℕ
    piles' = write (r == length st.piles) st.piles r a.new

    tops' : List ℕ
    tops' = write (r == length st.piles) st.tops r i

    piles-Written : Written st.piles piles' r a.new
    unfolding piles'
    piles-Written = write-Written st.piles r a.new (length st.piles) refl f.bound

    tops-Written : Written st.tops tops' r i
    unfolding tops'
    tops-Written = write-Written st.tops r i (length st.piles) v.tops_length f.bound

    piles'-IsSorted : IsSorted piles'
    piles'-IsSorted p q u w lt e e' = elim (Bool-cases (p == r)) [
      | inl same ↦
          let at_p : a.new ≡ u =
            some-injective _ _
              (sym piles-Written.here ∙ ap (get_elem? piles') (sym ((==_iff p r).0 same)) ∙ e) in
          let past : r < q = omega (arith, (==_iff p r).0 same) in
          let old : get_elem? st.piles q ≡ some w =
            sym (piles-Written.other q (λ z. omega arith)) ∙ e' in
          above_strict past old at_p
      | inr ne ↦ elim (Bool-cases (q == r)) [
        | inl same ↦
            let at_q : a.new ≡ w =
              some-injective _ _
                (sym piles-Written.here ∙ ap (get_elem? piles') (sym ((==_iff q r).0 same)) ∙ e') in
            let before : p < r = omega (arith, (==_iff q r).0 same) in
            let old : get_elem? st.piles p ≡ some u =
              sym (piles-Written.other p (λ z. omega arith)) ∙ e in
            omega (arith, f.below p u before old)
        | inr ne' ↦
            v.sorted p q u w lt (sym (piles-Written.other p (λ z. ground arith)) ∙ e)
              (sym (piles-Written.other q (λ z. ground arith)) ∙ e')
      ]
    ]
      where
        above_strict : {q u w : ℕ} → r < q → get_elem? st.piles q ≡ some w → a.new ≡ u → u < w
        above_strict {q} {u} {w} past old at =
            let (x, e) = get_elem?-some st.piles r (omega (arith, get_elem?-lt st.piles q w old)) in
            omega (arith, v.sorted r q x w past e old, f.above r x (omega arith) e)

    -- The pair is linked to the top of the pile before, and so ends a chain as long as its pile.
    linked :
        (q : ℕ)
        → q ≡ r
        → (back : Option ℕ) × (link tops' q ≡ some back) × Chain (st.backlink ++ back ∷ []) q i
    linked zero e = (none, refl, tt)
    linked (suc q) e =
        let (u, at_q) = get_elem?-some st.piles q (omega (arith, f.bound)) in
        let (j, top, (b, at_j, same, lt, chain)) = v.topped q u at_q in
        let top' : get_elem? tops' q ≡ some j = tops-Written.other q (λ z. omega arith) ∙ top in
        let at : get_elem? (st.backlink ++ some j ∷ []) i ≡ some (some j) =
          ap (get_elem? (st.backlink ++ some j ∷ [])) (sym v.links_length)
          ∙ get_elem?-append_self st.backlink [] (some j) in
        (
          some j,
          rw (top', link) refl,
          (
            j,
            b,
            a,
            at,
            lt,
            at_j,
            at_i,
            omega (arith, f.below q u (omega arith) at_q),
            Chain-append st.backlink (some j ∷ []) q j (omega (arith, v.links_length)) chain,
          ),
        )

    next : Option ℕ → Piles
    next back = record { piles = piles'; tops = tops'; backlink = st.backlink ++ back ∷ [] }

    -- Every pile up to the one written has a value no greater than the pair's.
    reach : (p : ℕ) → p ≤ r → (u : ℕ) × (get_elem? piles' p ≡ some u) × (u ≤ a.new)
    reach p h = elim (Bool-cases (p == r)) [
      | inl same ↦
          (a.new, ap (get_elem? piles') ((==_iff p r).0 same) ∙ piles-Written.here, omega arith)
      | inr ne ↦
          let less : p < r = ground arith in
          let (u, e) = get_elem?-some st.piles p (omega (arith, f.bound)) in
          (u, piles-Written.other p (λ z. omega arith) ∙ e, omega (arith, f.below p u less e))
    ]

    next-topped :
        (back : Option ℕ)
        → Chain (st.backlink ++ back ∷ []) r i
        → (p w : ℕ) → get_elem? piles' p ≡ some w
        → (j : ℕ) × (get_elem? tops' p ≡ some j) × Tops (i + 1) (st.backlink ++ back ∷ []) p w j
    next-topped back chain p w e = elim (Bool-cases (p == r)) [
      | inl same ↦
          let at : p ≡ r = (==_iff p r).0 same in
          let value : a.new ≡ w =
            some-injective _ _ (sym piles-Written.here ∙ ap (get_elem? piles') (sym at) ∙ e) in
          (
            i,
            ap (get_elem? tops') at ∙ tops-Written.here,
            (a, at_i, value, omega arith, rw at chain),
          )
      | inr ne ↦
          let (j, top, (b, at_j, same, lt, chain')) =
            v.topped p w (sym (piles-Written.other p (λ z. ground arith)) ∙ e) in
          (
            j,
            tops-Written.other p (λ z. ground arith) ∙ top,
            (
              b,
              at_j,
              same,
              omega arith,
              Chain-append st.backlink (back ∷ []) p j (omega (arith, v.links_length)) chain',
            ),
          )
    ]

    next-longest_new : (p : ℕ) → Rising p i → (u : ℕ) × (get_elem? piles' p ≡ some u) × (u ≤ a.new)
    next-longest_new zero rising = reach 0 (omega arith)
    next-longest_new (suc p) (j, b, c, lt, at_j, at_c, less, rising) =
        let same : a ≡ c = some-injective _ _ (sym at_i ∙ at_c) in
        let (u, e, le) = v.longest p j b lt at_j rising in
        let small : u < a.new = omega (arith, ap (λ (x : Anchor). x.new) same) in
        elim (Bool-cases (ltb p r)) [
          | inl below ↦ reach (suc p) (ground arith)
          | inr beyond ↦ absurd (omega (arith, f.above p u (ground arith) e))
        ]

    next-longest :
        (p j : ℕ) (c : Anchor)
        → j < i + 1
        → get_elem? pairs j ≡ some c
        → Rising p j
        → (u : ℕ) × (get_elem? piles' p ≡ some u) × (u ≤ c.new)
    next-longest p j c h e rising = elim (Bool-cases (j == i)) [
      | inl same ↦
          let at : j ≡ i = (==_iff j i).0 same in
          let (u, e', le) = next-longest_new p (rw at at rising) in
          let value : a ≡ c = some-injective _ _ (sym at_i ∙ ap (get_elem? pairs) (sym at) ∙ e) in
          (u, e', omega (arith, ap (λ (x : Anchor). x.new) value))
      | inr ne ↦
          let (u, e', le) = v.longest p j c (ground arith) e rising in
          elim (Bool-cases (p == r)) [
            | inl same ↦
                let at : p ≡ r = (==_iff p r).0 same in
                (
                  a.new,
                  ap (get_elem? piles') at ∙ piles-Written.here,
                  omega (arith, f.above p u (omega arith) e'),
                )
            | inr ne' ↦ (u, piles-Written.other p (λ z. ground arith) ∙ e', le)
          ]
    ]

    next-Inv : (back : Option ℕ) → Chain (st.backlink ++ back ∷ []) r i → Inv (i + 1) (next back)
    unfolding next
    next-Inv back chain = record {
      tops_length =
          unfold tops' piles' in
          length-write st.tops st.piles r i a.new (length st.piles) v.tops_length refl;
      links_length = omega (arith, length-append st.backlink (back ∷ []), v.links_length);
      sorted = piles'-IsSorted;
      topped = next-topped back chain;
      longest = next-longest;
    }

    put-Inv : (st' : Piles) × (put i a.new r st ≡ some st') × Inv (i + 1) st'
    unfolding next tops' piles'
    put-Inv =
        let (back, link_eq, chain) = linked r refl in
        (next back, rw (link_eq, put) refl, next-Inv back chain)

  pub place-Inv :
      (i : ℕ) (a : Anchor) (st : Piles)
      → get_elem? pairs i ≡ some a
      → Inv i st
      → (st' : Piles) × (place i a st ≡ some st') × Inv (i + 1) st'
  unfolding place
  place-Inv i a st at_i v =
      let (r, found, finds) = find_pile_lem st.piles a.new v.sorted in
      let (st', put_eq, v') = put-Inv i a at_i st v r finds in (st', rw (found, place) put_eq, v')
