-- ===== src/Ingest/Prefix.antt =====
-- Which names have an ordering prefix, and how long it is.
use rubber_duck.Prelude.{
  ℕ, suc, ◌+◌, ◌≤◌, true, false, [], ◌∷◌, ◌++◌, append_assoc, ◌≡◌, ◌≢◌, ◌↔◌, ◌⊎◌, inl, inr, refl,
  ap, ◌∙◌, arith, ltb, ◌==◌, ==_iff, Text, codes, starts_with, AllPass, length, length-append,
  Bool-cases,
}
use rubber_duck.Number.{is_digit}
use rubber_duck.Ingest.{
  is_lower, digit_count, after_digits, at_dash, at_letter, ordering_prefix_len,
}

-- At most one lower-case letter.
abbrev pub IsLetter : Text → Type 0
IsLetter [] = Unit
IsLetter (c ∷ []) = is_lower c ≡ true
IsLetter (c ∷ d ∷ s) = ⊥

-- `final-`, or two digits or more, at most one letter, and a dash.
abbrev pub IsOrdering : Text → Type 0
IsOrdering p =
    (p ≡ codes "final-")
    ⊎ ((digits letter : Text) × (p ≡ digits ++ (letter ++ codes "-"))
        × AllPass is_digit digits
        × (2 ≤ length digits)
        × IsLetter letter)

digit_split :
    (s : Text)
    → (digits : Text) × (s ≡ digits ++ after_digits s)
      × AllPass is_digit digits
      × (length digits ≡ digit_count s)
unfolding digit_count after_digits
digit_split [] = ([], refl, tt, refl)
digit_split (c ∷ s) = elim (Bool-cases (is_digit c)) [
  | inl e ↦
      let (digits, split, all, len) = digit_split s in
      (c ∷ digits, rw e (ap (c ∷◌) split), (e, all), rw e (ap suc len))
  | inr e ↦ ([], rw e refl, tt, rw e refl)
]

abbrev NoDigit : Text → Type 0
NoDigit [] = Unit
NoDigit (c ∷ s) = is_digit c ≡ false

digits_lem :
    (digits s : Text)
    → AllPass is_digit digits
    → NoDigit s
    → (digit_count (digits ++ s) ≡ length digits) × (after_digits (digits ++ s) ≡ s)
unfolding digit_count after_digits
digits_lem [] [] h n = (refl, refl)
digits_lem [] (c ∷ s) h n = rw n (refl, refl)
digits_lem (c ∷ digits) s (e, h) n =
    let (count, rest) = digits_lem digits s h n in (rw e (ap suc count), rw e rest)

at_dash-split :
    (i : ℕ) (s : Text)
    → at_dash i s ≢ 0
    → (rest : Text) × (s ≡ codes "-" ++ rest) × (at_dash i s ≡ i + 1)
at_dash-split i [] h = absurd (h refl)
at_dash-split i (c ∷ s) h = elim (Bool-cases (c == b'-')) [
  | inl e ↦ (s, ap (◌∷ s) ((==_iff c b'-').0 e), rw e refl)
  | inr e ↦ absurd (h (rw e refl))
]

at_letter-split :
    (i : ℕ) (s : Text)
    → at_letter i s ≢ 0
    → (letter rest : Text) × (s ≡ letter ++ (codes "-" ++ rest))
      × IsLetter letter
      × (at_letter i s ≡ i + (length letter + 1))
at_letter-split i [] h = absurd (h refl)
at_letter-split i (c ∷ s) h = elim (Bool-cases (is_lower c)) [
  | inl e ↦
      let (rest, split, len) = at_dash-split (i + 1) s (rw e at h) in
      (c ∷ [], rest, ap (c ∷◌) split, e, rw e (omega (arith, len)))
  | inr e ↦
      let (rest, split, len) = at_dash-split i (c ∷ s) (rw e at h) in
      ([], rest, split, tt, rw e (omega (arith, len)))
]

starts_with-split : (s p : Text) → starts_with s p ≡ true → (rest : Text) × (s ≡ p ++ rest)
unfolding starts_with
starts_with-split s [] h = (s, refl)
starts_with-split [] (b ∷ p) h = cc
starts_with-split (a ∷ s) (b ∷ p) h = elim (Bool-cases (a == b)) [
  | inl e ↦
      let (rest, split) = starts_with-split s p (rw e at h) in (rest, cc ((==_iff a b).0 e, split))
  | inr e ↦ absurd (ground arith)
]

-- What the function gives, and what it says of the name, wherever it gives a length.
ordering_prefix_len_sound :
    (name : Text)
    → ordering_prefix_len name ≢ 0
    → (p rest : Text) × (name ≡ p ++ rest) × IsOrdering p × (length p ≡ ordering_prefix_len name)
unfolding ordering_prefix_len
ordering_prefix_len_sound name h = elim (Bool-cases (starts_with name (codes "final-"))) [
  | inl e ↦
      let (rest, split) = starts_with-split name (codes "final-") e in
      (codes "final-", rest, split, inl refl, rw e refl)
  | inr e ↦ elim (Bool-cases (ltb (digit_count name) 2)) [
    | inl few ↦ absurd (h (rw (e, few) refl))
    | inr enough ↦
        let (digits, split, all, len) = digit_split name in
        let (letter, rest, tail, is_letter, count) =
          at_letter-split (digit_count name) (after_digits name) (rw (e, enough) at h) in
        (
          digits ++ (letter ++ codes "-"),
          rest,
          split ∙ ap (digits ++◌) tail ∙ simp append_assoc,
          inr (digits, letter, refl, all, ground (arith, len), is_letter),
          rw (e, enough)
              (omega (
                arith,
                len,
                count,
                length-append digits (letter ++ codes "-"),
                length-append letter (codes "-"),
              )),
        )
  ]
]

digit_first :
    (digits s : Text)
    → AllPass is_digit digits
    → 2 ≤ length digits
    → starts_with (digits ++ s) (codes "final-") ≡ false
unfolding starts_with is_digit
digit_first [] s h two = absurd (omega arith)
digit_first (c ∷ digits) s (e, h) two = ground arith

NoDigit-letter : (letter rest : Text) → IsLetter letter → NoDigit (letter ++ (codes "-" ++ rest))
unfolding is_digit is_lower
NoDigit-letter [] rest h = refl
NoDigit-letter (c ∷ []) rest h = ground arith
NoDigit-letter (c ∷ d ∷ s) rest h = absurd h

at_letter_lem :
    (i : ℕ) (letter rest : Text)
    → IsLetter letter
    → at_letter i (letter ++ (codes "-" ++ rest)) ≡ i + (length letter + 1)
unfolding is_lower
at_letter_lem i [] rest h = omega arith
at_letter_lem i (c ∷ []) rest h = rw h (omega arith)
at_letter_lem i (c ∷ d ∷ s) rest h = absurd h

pub ordering_prefix_len_complete :
    (p rest : Text) → IsOrdering p → ordering_prefix_len (p ++ rest) ≡ length p
unfolding ordering_prefix_len
ordering_prefix_len_complete p rest (inl e) = rw e refl
ordering_prefix_len_complete p rest (inr (digits, letter, e, all, two, is_letter)) =
    let tail : Text = letter ++ (codes "-" ++ rest) in
    let (count, left) = digits_lem digits tail all (NoDigit-letter letter rest is_letter) in
    let whole : p ++ rest ≡ digits ++ tail = rw e (simp append_assoc) in
    let enough : ltb (length digits) 2 ≡ false = ground arith in
    rw (whole, digit_first digits tail all two, count, left, enough, e)
      (at_letter_lem (length digits) letter rest is_letter
        ∙ omega
            (arith, length-append digits (letter ++ codes "-"), length-append letter (codes "-")))

-- For any length but 0, the function gives it exactly if the name begins with an ordering prefix of
-- that length: `final-`, or two digits or more with at most one lower-case letter and a dash.
pub ordering_prefix_len_iff :
    (name : Text) (n : ℕ)
    → n ≢ 0
    → (ordering_prefix_len name ≡ n)
      ↔ ((p rest : Text) × (name ≡ p ++ rest) × IsOrdering p × (length p ≡ n))
ordering_prefix_len_iff name n h = (
  λ e.
      let (p, rest, split, is, len) = ordering_prefix_len_sound name (rw e h) in
      (p, rest, split, is, len ∙ e),
  λ (p, rest, split, is, len).
      ap ordering_prefix_len split ∙ ordering_prefix_len_complete p rest is ∙ len,
)
