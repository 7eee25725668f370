-- ===== src/Diff/Patience/Pairs.antt =====
-- The candidate pairs are equal lines, in the order of the old side.
use rubber_duck.Prelude.{
  ℕ, suc, ◌+◌, ◌≤◌, ◌&&◌, some, List, [], ◌∷◌, ◌++◌, append_assoc, ◌≡◌, refl, sym, ◌∙◌, ap, inl,
  inr, arith, ◌==◌, if◌then◌else◌, Text, same, same_iff, same_refl, Bool-cases, length,
  length-append, get_elem?, get_elem?-append_self,
}
use rubber_duck.Diff.Patience.{
  Anchor, Count, Counts, no_counts, note_old, note_new, count_old, count_new, pairs_of, candidates,
}

unfoldable pub occurs : Text → List Text → ℕ
unfolding same
occurs k [] = 0
occurs k (l ∷ lines) = if same l k then suc (occurs k lines) else occurs k lines

pub occurs-append : (k : Text) (xs ys : List Text) → occurs k (xs ++ ys) ≡ occurs k xs + occurs k ys
unfolding occurs
occurs-append k [] ys = omega arith
occurs-append k (x ∷ xs) ys = ground (arith, occurs-append k xs ys)

-- What a loop over the one side does to the counts of a line.
record OldCounted (k : Text) (lines : List Text) (c d : Count) : Type 0 where
  o : d.o ≡ c.o + occurs k lines
  n : d.n ≡ c.n
  ni : d.ni ≡ c.ni
  oi : occurs k lines ≡ 0 → d.oi ≡ c.oi

count_old-OldCounted :
    (i : ℕ) (lines : List Text) (counts : Counts) (k : Text)
    → OldCounted k lines (counts k) (count_old i lines counts k)
unfolding count_old occurs
count_old-OldCounted i [] counts k = record { o = omega arith; n = refl; ni = refl; oi = λ e. refl }
count_old-OldCounted i (l ∷ lines) counts k =
    let ih = count_old-OldCounted (i + 1) lines (note_old i l counts) k in
    elim (Bool-cases (same l k)) [
      | inl e ↦ record {
        o = ground (arith, ih.o);
        n = ground (arith, ih.n);
        ni = ground (arith, ih.ni);
        oi = λ z. absurd (ground arith);
      }
      | inr e ↦ record {
        o = ground (arith, ih.o);
        n = ground (arith, ih.n);
        ni = ground (arith, ih.ni);
        oi = λ z. ground (arith, ih.oi);
      }
    ]

record NewCounted (k : Text) (lines : List Text) (c d : Count) : Type 0 where
  n : d.n ≡ c.n + occurs k lines
  o : d.o ≡ c.o
  oi : d.oi ≡ c.oi
  ni : occurs k lines ≡ 0 → d.ni ≡ c.ni

count_new-NewCounted :
    (i : ℕ) (lines : List Text) (counts : Counts) (k : Text)
    → NewCounted k lines (counts k) (count_new i lines counts k)
unfolding count_new occurs
count_new-NewCounted i [] counts k = record { n = omega arith; o = refl; oi = refl; ni = λ e. refl }
count_new-NewCounted i (l ∷ lines) counts k =
    let ih = count_new-NewCounted (i + 1) lines (note_new i l counts) k in
    elim (Bool-cases (same l k)) [
      | inl e ↦ record {
        n = ground (arith, ih.n);
        o = ground (arith, ih.o);
        oi = ground (arith, ih.oi);
        ni = λ z. absurd (ground arith);
      }
      | inr e ↦ record {
        n = ground (arith, ih.n);
        o = ground (arith, ih.o);
        oi = ground (arith, ih.oi);
        ni = λ z. ground (arith, ih.ni);
      }
    ]

-- The index noted for a line is that of its last occurrence.
count_old-last :
    (i : ℕ) (k : Text) (before after : List Text) (counts : Counts)
    → occurs k after ≡ 0
    → (count_old i (before ++ k ∷ after) counts k).oi ≡ i + length before
unfolding count_old
count_old-last i k [] after counts h =
    (count_old-OldCounted (i + 1) after (note_old i k counts) k).oi h
    ∙ rw (same_refl k) (omega arith)
count_old-last i k (l ∷ before) after counts h =
    count_old-last (i + 1) k before after (note_old i l counts) h ∙ omega arith

count_new-last :
    (i : ℕ) (k : Text) (before after : List Text) (counts : Counts)
    → occurs k after ≡ 0
    → (count_new i (before ++ k ∷ after) counts k).ni ≡ i + length before
unfolding count_new
count_new-last i k [] after counts h =
    (count_new-NewCounted (i + 1) after (note_new i k counts) k).ni h
    ∙ rw (same_refl k) (omega arith)
count_new-last i k (l ∷ before) after counts h =
    count_new-last (i + 1) k before after (note_new i l counts) h ∙ omega arith

occurs-split :
    (k : Text) (lines : List Text)
    → occurs k lines ≡ 1
    → (before after : List Text) × (lines ≡ before ++ k ∷ after) × (occurs k after ≡ 0)
unfolding occurs
occurs-split k [] h = absurd (omega arith)
occurs-split k (l ∷ lines) h = elim (Bool-cases (same l k)) [
  | inl e ↦ ([], lines, ap (◌∷ lines) ((same_iff l k).0 e), ground arith)
  | inr e ↦
      let (before, after, split, last) = occurs-split k lines (rw e at h) in
      (l ∷ before, after, ap (l ∷◌) split, last)
]

module _ (old new : List Text) where
  -- The same line on both sides, which each side holds exactly once.
  abbrev pub IsPair : Anchor → Type 0
  IsPair a =
      (t : Text) × (get_elem? old a.old ≡ some t)
      × (get_elem? new a.new ≡ some t)
      × (occurs t old ≡ 1)
      × (occurs t new ≡ 1)

  -- Pairs from an index of the old side on, in its order.
  abbrev pub ArePairs : ℕ → List Anchor → Type 0
  ArePairs lo [] = Unit
  ArePairs lo (a ∷ pairs) = (lo ≤ a.old) × IsPair a × ArePairs (a.old + 1) pairs

  ArePairs-le : (lo hi : ℕ) (pairs : List Anchor) → lo ≤ hi → ArePairs hi pairs → ArePairs lo pairs
  ArePairs-le lo hi [] h p = tt
  ArePairs-le lo hi (a ∷ pairs) h (l, p, ps) = (omega arith, p, ps)

  unfoldable pub counted : Counts
  counted = count_new 0 new (count_old 0 old no_counts)

  pub counted-o : (k : Text) → (counted k).o ≡ occurs k old
  unfolding counted
  counted-o k =
      let c = count_old 0 old no_counts in
      (count_new-NewCounted 0 new c k).o ∙ (count_old-OldCounted 0 old no_counts k).o ∙ omega arith

  pub counted-n : (k : Text) → (counted k).n ≡ occurs k new
  unfolding counted
  counted-n k =
      let c = count_old 0 old no_counts in
      omega (arith, (count_new-NewCounted 0 new c k).n, (count_old-OldCounted 0 old no_counts k).n)

  counted-oi :
      (k : Text) (before after : List Text)
      → old ≡ before ++ k ∷ after
      → occurs k after ≡ 0
      → (counted k).oi ≡ length before
  unfolding counted
  counted-oi k before after e h =
      (count_new-NewCounted 0 new (count_old 0 old no_counts) k).oi
      ∙ ap (λ ls. (count_old 0 ls no_counts k).oi) e
      ∙ count_old-last 0 k before after no_counts h
      ∙ omega arith

  counted-ni :
      (k : Text) (before after : List Text)
      → new ≡ before ++ k ∷ after
      → occurs k after ≡ 0
      → (counted k).ni ≡ length before
  unfolding counted
  counted-ni k before after e h =
      ap (λ ls. (count_new 0 ls (count_old 0 old no_counts) k).ni) e
      ∙ count_new-last 0 k before after (count_old 0 old no_counts) h
      ∙ omega arith

  -- A line that both sides hold once is a pair at its indices.
  pub unique-IsPair :
      (l : Text) (before after : List Text)
      → old ≡ before ++ l ∷ after
      → (counted l).o ≡ 1
      → (counted l).n ≡ 1
      → ((counted l).oi ≡ length before)
        × IsPair (record { old = (counted l).oi; new = (counted l).ni })
  unfolding occurs
  unique-IsPair l before after e o n =
      let total : occurs l old ≡ occurs l before + occurs l (l ∷ after) =
        rw e (occurs-append l before (l ∷ after)) in
      let here : occurs l (l ∷ after) ≡ suc (occurs l after) = rw (same_refl l) refl in
      let last : occurs l after ≡ 0 = omega (arith, total, here, counted-o l, o) in
      let at_old = counted-oi l before after e last in
      let (before', after', e', last') = occurs-split l new (sym (counted-n l) ∙ n) in
      let at_new = counted-ni l before' after' e' last' in
      (
        at_old,
        (
          l,
          ap (get_elem? old) at_old
              ∙ ap (λ ls. get_elem? ls (length before)) e
              ∙ get_elem?-append_self before after l,
          ap (get_elem? new) at_new
              ∙ ap (λ ls. get_elem? ls (length before')) e'
              ∙ get_elem?-append_self before' after' l,
          sym (counted-o l) ∙ o,
          sym (counted-n l) ∙ n,
        ),
      )

  pairs_of-ArePairs :
      (before rest : List Text)
      → old ≡ before ++ rest
      → ArePairs (length before) (pairs_of counted rest)
  unfolding pairs_of
  pairs_of-ArePairs before [] e = tt
  pairs_of-ArePairs before (l ∷ rest) e =
      let ih =
        pairs_of-ArePairs (before ++ l ∷ []) rest (e ∙ sym (append_assoc before (l ∷ []) rest)) in
      let ih' : ArePairs (length before + 1) (pairs_of counted rest) =
        rw (length-append before (l ∷ [])) at ih in
      elim (Bool-cases ((counted l).o == 1 && (counted l).n == 1)) [
        | inr e' ↦ rw e' (
            ArePairs-le (length before) (length before + 1) (pairs_of counted rest) (omega arith)
              ih')
        | inl e' ↦
            let (at_old, pair) = unique-IsPair l before rest e (ground arith) (ground arith) in
            rw e' (omega (arith, at_old), pair, rw at_old ih')
      ]

  pub candidates-ArePairs : ArePairs 0 (candidates old new)
  unfolding candidates counted
  candidates-ArePairs = pairs_of-ArePairs [] old refl
