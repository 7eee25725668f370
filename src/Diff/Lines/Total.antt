-- ===== src/Diff/Lines/Total.antt =====
-- `Lines` always returns, and what it returns is a diff of its two sides.
use rubber_duck.Prelude.{
  ℕ, zero, suc, ◌+◌, ◌-◌, ◌≤◌, ◌<◌, Option, some, List, [], ◌∷◌, ◌++◌, append-nil, ◌≡◌, refl, sym,
  ap, ◌∙◌, arith, Text, length, take, drop, get_elem?, get_elem?-lt, get_elem?-split,
  take-append-drop, length-take, length-drop, drop-drop,
}
use rubber_duck.Diff.Patience.{Anchor}
use rubber_duck.Diff.Patience.Chain.{Divides}
use rubber_duck.Diff.Patience.Longest.{patience_anchors-longest}
use rubber_duck.Diff.Lines.{
  equal, delete, insert, Emitted, emit, common_prefix, common_suffix, slice, walk, middle, trimmed,
  recurse,
}
use rubber_duck.Diff.Lines.Sides.{Extends, Extends-trans, emit-Extends}
use rubber_duck.Diff.Lines.Slices.{slice_lem, take_all, common_prefix-take, common_suffix-drop}

abbrev Diff : Type 0
Diff = (old new : List Text) → Emitted → Option Emitted

-- The call returns a diff for every old side shorter than the bound.
abbrev pub IsTotal : ℕ → Diff → Type 0
IsTotal bound rec =
    (old new : List Text) (st : Emitted)
    → length old < bound
    → (st' : Emitted) × (rec old new st ≡ some st') × Extends old new st st'

-- A side from an anchor's predecessor on: the segment before the anchor, its line, and the rest.
cut_at :
    (lines : List Text) (i j : ℕ) (t : Text)
    → i ≤ j
    → get_elem? lines j ≡ some t
    → drop i lines ≡ take (j - i) (drop i lines) ++ t ∷ drop (j + 1) lines
cut_at lines i j t h e =
    let to : i + (j - i) ≡ j = omega arith in
    let next : suc j ≡ j + 1 = omega arith in
    sym (take-append-drop (j - i) (drop i lines))
    ∙ ap (take (j - i) (drop i lines) ++◌) (
        drop-drop i (j - i) lines
        ∙ ap (λ k. drop k lines) to
        ∙ get_elem?-split lines j t e
        ∙ ap (λ k. t ∷ drop k lines) next)

slice_line :
    (lines : List Text) (j : ℕ) (t : Text)
    → get_elem? lines j ≡ some t
    → slice j (j + 1) lines ≡ some (t ∷ [])
slice_line lines j t e =
    let one : j + 1 - j ≡ suc 0 = omega arith in
    slice_lem j (j + 1) lines (omega arith) (omega (arith, get_elem?-lt lines j t e))
    ∙ ap (λ k. some (take k (drop j lines))) one
    ∙ ap (λ ls. some (take 1 ls)) (get_elem?-split lines j t e)

slice_rest :
    (lines : List Text) (i : ℕ)
    → i ≤ length lines
    → slice i (length lines) lines ≡ some (drop i lines)
slice_rest lines i h =
    slice_lem i (length lines) lines h (omega arith)
    ∙ ap some (take_all (length lines - i) (drop i lines) (omega (arith, length-drop i lines)))

module _ (bound : ℕ) (rec : Diff) (total : IsTotal bound rec) (old new : List Text)
    (fits : length old ≤ bound) where
  walk-Extends :
      (oi ni : ℕ) (anchors : List Anchor) (st : Emitted)
      → Divides old new oi ni anchors
      → (anchors ≡ [] → 0 < oi)
      → (st' : Emitted) × (walk rec old new oi ni anchors st ≡ some st')
        × Extends (drop oi old) (drop ni new) st st'
  unfolding walk
  walk-Extends oi ni [] st (le, le') past =
      let (st', e, x) =
        total (drop oi old) (drop ni new) st (omega (arith, length-drop oi old, past refl)) in
      (st', rw (slice_rest old oi le, slice_rest new ni le', walk) e, x)
  walk-Extends oi ni (a ∷ anchors) st (le, le', (t, at_old, at_new, _, _), d) past =
      let below = get_elem?-lt old a.old t at_old in
      let below' = get_elem?-lt new a.new t at_new in
      let o = take (a.old - oi) (drop oi old) in
      let n = take (a.new - ni) (drop ni new) in
      let short : length o < bound =
        omega (arith, length-take (a.old - oi) (drop oi old), length-drop oi old) in
      let (st₁, e₁, x₁) = total o n st short in
      let x₂ = emit-Extends equal (t ∷ []) st₁ in
      let (st₃, e₃, x₃) =
        walk-Extends (a.old + 1) (a.new + 1) anchors (emit equal (t ∷ []) st₁) d
          (λ z. omega arith) in
      let tail =
        Extends-trans x₂ x₃ (t ∷ drop (a.old + 1) old) (t ∷ drop (a.new + 1) new) refl refl in
      (
        st₃,
        rw
            (
              slice_lem oi a.old old le (omega arith),
              slice_lem ni a.new new le' (omega arith),
              e₁,
              slice_line old a.old t at_old,
              walk,
            )
            e₃,
        Extends-trans x₁ tail (drop oi old) (drop ni new) (cut_at old oi a.old t le at_old)
            (cut_at new ni a.new t le' at_new),
      )

  middle-Extends :
      (anchors : List Anchor) (st : Emitted)
      → Divides old new 0 0 anchors
      → (st' : Emitted) × (middle rec old new anchors st ≡ some st') × Extends old new st st'
  middle-Extends [] st d = (
    emit insert new (emit delete old st),
    refl,
    Extends-trans (emit-Extends delete old st) (emit-Extends insert new (emit delete old st)) old
        new (sym (append-nil old)) refl,
  )
  middle-Extends (a ∷ anchors) st d = walk-Extends 0 0 (a ∷ anchors) st d (λ e. cc)

module _ (bound : ℕ) (rec : Diff) (total : IsTotal bound rec) (old new : List Text)
    (fits : length old ≤ bound) where
  trimmed-Extends :
      (st : Emitted)
      → (st' : Emitted) × (trimmed rec old new st ≡ some st') × Extends old new st st'
  unfolding trimmed
  trimmed-Extends st =
      let s = common_suffix old new in
      let o = take (length old - s) old in
      let n = take (length new - s) new in
      let suffix = drop (length old - s) old in
      let (anchors, found, d, _) = patience_anchors-longest o n in
      let short : length o ≤ bound = omega (arith, length-take (length old - s) old) in
      let (st₁, e₁, x₁) = middle-Extends bound rec total o n short anchors st d in
      let x₂ = emit-Extends equal suffix st₁ in
      (
        emit equal suffix st₁,
        rw (found, e₁, trimmed) refl,
        Extends-trans x₁ x₂ old new (sym (take-append-drop (length old - s) old)) (
            sym (take-append-drop (length new - s) new)
            ∙ ap (n ++◌) (sym (common_suffix-drop old new))),
      )

-- With more fuel than the old side has lines, the recursion ends.
pub recurse-IsTotal : (fuel : ℕ) → IsTotal fuel (recurse fuel)
unfolding recurse
recurse-IsTotal zero old new st h = absurd (omega arith)
recurse-IsTotal (suc fuel) old new st h =
    let p = common_prefix old new in
    let x₁ = emit-Extends equal (take p old) st in
    let (st₂, e₂, x₂) =
      trimmed-Extends fuel (recurse fuel) (recurse-IsTotal fuel) (drop p old) (drop p new)
        (omega (arith, length-drop p old)) (emit equal (take p old) st) in
    (
      st₂,
      e₂,
      Extends-trans x₁ x₂ old new (sym (take-append-drop p old))
          (sym (take-append-drop p new) ∙ ap (◌++ drop p new) (sym (common_prefix-take old new))),
    )
