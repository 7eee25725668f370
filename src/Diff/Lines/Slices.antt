-- ===== src/Diff/Lines/Slices.antt =====
-- How prefixes, suffixes and slices cut a list, and what the two sides have in common.
use mathlib.Core.List.{reverse, reverse-cons, reverse-append, reverse-reverse}
use rubber_duck.Prelude.{
  ℕ, zero, suc, ◌-◌, ◌≤◌, some, List, [], ◌∷◌, ◌++◌, ◌≡◌, refl, sym, ap, ◌∙◌, inl, inr, arith, Text,
  same, same_iff, Bool-cases, length, length-append, take, drop, take-append-drop, length-drop,
}
use rubber_duck.Diff.Lines.{common_prefix, common_suffix, slice}

pub slice_lem :
    (i j : ℕ) (lines : List Text)
    → i ≤ j
    → j ≤ length lines
    → slice i j lines ≡ some (take (j - i) (drop i lines))
slice_lem i j lines h k = ground arith

pub take_all : (n : ℕ) (lines : List Text) → length lines ≤ n → take n lines ≡ lines
take_all zero [] h = refl
take_all zero (l ∷ lines) h = absurd (omega arith)
take_all (suc n) [] h = refl
take_all (suc n) (l ∷ lines) h = ap (l ∷◌) (take_all n lines (omega arith))

take-append_left : (xs ys : List Text) → take (length xs) (xs ++ ys) ≡ xs
take-append_left [] [] = refl
take-append_left [] (y ∷ ys) = refl
take-append_left (x ∷ xs) ys = ap (x ∷◌) (take-append_left xs ys)

length-reverse : (xs : List Text) → length (reverse xs) ≡ length xs
length-reverse [] = refl
length-reverse (x ∷ xs) =
    ap length (reverse-cons x xs)
    ∙ omega (arith, length-append (reverse xs) (x ∷ []), length-reverse xs)

pub common_prefix-le :
    (xs ys : List Text) → (common_prefix xs ys ≤ length xs) × (common_prefix xs ys ≤ length ys)
unfolding common_prefix
common_prefix-le [] ys = omega arith
common_prefix-le (x ∷ xs) [] = omega arith
common_prefix-le (x ∷ xs) (y ∷ ys) = ground (arith, common_prefix-le xs ys)

pub common_prefix-take :
    (xs ys : List Text) → take (common_prefix xs ys) xs ≡ take (common_prefix xs ys) ys
unfolding common_prefix
common_prefix-take [] [] = refl
common_prefix-take [] (y ∷ ys) = refl
common_prefix-take (x ∷ xs) [] = refl
common_prefix-take (x ∷ xs) (y ∷ ys) = elim (Bool-cases (same x y)) [
  | inl e ↦ rw e (cc ((same_iff x y).0 e, common_prefix-take xs ys))
  | inr e ↦ rw e refl
]

-- The last `s` lines, from the end and from the start.
drop-reverse :
    (s : ℕ) (xs : List Text)
    → s ≤ length xs
    → drop (length xs - s) xs ≡ reverse (take s (reverse xs))
drop-reverse s xs h =
    let k = length xs - s in
    let len : length (reverse (drop k xs)) ≡ s =
      omega (arith, length-reverse (drop k xs), length-drop k xs) in
    let whole : reverse xs ≡ reverse (drop k xs) ++ reverse (take k xs) =
      ap reverse (sym (take-append-drop k xs)) ∙ reverse-append (take k xs) (drop k xs) in
    sym (
      ap (λ ls. reverse (take s ls)) whole
      ∙ ap (λ n. reverse (take n (reverse (drop k xs) ++ reverse (take k xs)))) (sym len)
      ∙ ap reverse (take-append_left (reverse (drop k xs)) (reverse (take k xs)))
      ∙ reverse-reverse (drop k xs))

pub common_suffix-le :
    (xs ys : List Text) → (common_suffix xs ys ≤ length xs) × (common_suffix xs ys ≤ length ys)
common_suffix-le xs ys =
    omega (arith, common_prefix-le (reverse xs) (reverse ys), length-reverse xs, length-reverse ys)

pub common_suffix-drop :
    (xs ys : List Text)
    → drop (length xs - common_suffix xs ys) xs ≡ drop (length ys - common_suffix xs ys) ys
common_suffix-drop xs ys =
    let (le, le') = common_suffix-le xs ys in
    drop-reverse (common_suffix xs ys) xs le
    ∙ ap reverse (common_prefix-take (reverse xs) (reverse ys))
    ∙ sym (drop-reverse (common_suffix xs ys) ys le')
