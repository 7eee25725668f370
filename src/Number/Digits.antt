-- ===== src/Number/Digits.antt =====
-- The decimal text of a natural number: its digits and their number.
use rubber_duck.Prelude.{
  ℕ, zero, suc, ◌+◌, ◌/◌, ◌%◌, ◌≤◌, true, [], ◌∷◌, ◌≡◌, arith, ◌==◌, Text, AllPass, length,
  Bool-cases, inl, inr,
}
use rubber_duck.Number.{is_digit, emit, show_nat}

is_digit-last : (n : ℕ) → is_digit (b'0' + n % 10) ≡ true
unfolding is_digit
is_digit-last n = ground arith

emit-AllPass : (fuel n : ℕ) (out : Text) → AllPass is_digit out → AllPass is_digit (emit fuel n out)
unfolding emit
emit-AllPass zero n out h = h
emit-AllPass (suc fuel) n out h = elim (Bool-cases (n / 10 == 0)) [
  | inl last ↦ rw last (is_digit-last n, h)
  | inr more ↦ rw more (emit-AllPass fuel (n / 10) ((b'0' + n % 10) ∷ out) (is_digit-last n, h))
]

pub show_nat-AllPass : (n : ℕ) → AllPass is_digit (show_nat n)
unfolding show_nat
show_nat-AllPass n = emit-AllPass (suc n) n [] tt

length-emit : (fuel n : ℕ) (out : Text) → length out + 1 ≤ length (emit (suc fuel) n out)
unfolding emit
length-emit zero n out = elim (Bool-cases (n / 10 == 0)) [
  | inl last ↦ rw last (omega arith)
  | inr more ↦ rw more (omega arith)
]
length-emit (suc fuel) n out = elim (Bool-cases (n / 10 == 0)) [
  | inl last ↦ rw last (omega arith)
  | inr more ↦ rw more (omega (arith, length-emit fuel (n / 10) ((b'0' + n % 10) ∷ out)))
]

pub length-show_nat : (n : ℕ) → 1 ≤ length (show_nat n)
unfolding show_nat
length-show_nat n = omega (arith, length-emit n n [])

length-emit_two : (fuel n : ℕ) → 10 ≤ n → 2 ≤ length (emit (suc (suc fuel)) n [])
unfolding emit
length-emit_two fuel n h = elim (Bool-cases (n / 10 == 0)) [
  | inl last ↦ absurd (ground arith)
  | inr more ↦ rw more (omega (arith, length-emit fuel (n / 10) ((b'0' + n % 10) ∷ [])))
]

pub length-show_nat_two : (n : ℕ) → 10 ≤ n → 2 ≤ length (show_nat n)
unfolding show_nat
length-show_nat_two zero h = absurd (omega arith)
length-show_nat_two (suc n) h = length-emit_two n (suc n) h
