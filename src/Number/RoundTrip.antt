-- ===== src/Number/RoundTrip.antt =====
-- `parseInt` reads back what `String` writes.
use rubber_duck.Prelude.{
  ℕ, zero, suc, ◌+◌, ◌-◌, ◌*◌, ◌/◌, ◌%◌, ◌<◌, true, false, some, [], ◌∷◌, ◌≡◌, refl, ◌∙◌, ap, arith,
  ==_iff, ◌==◌, Text, Bool-cases, inl, inr, trim_start, is_white,
}
use rubber_duck.Number.{
  ℤ, pos, negsuc, is_digit, digits_value, read_digits, negate, as_pos, signed, parse_int, emit,
  show_nat, show_int,
}

is_digit-digit : (d : ℕ) → d < 10 → is_digit (b'0' + d) ≡ true
unfolding is_digit
is_digit-digit d h = ground arith

digits_value-digit :
    (m d : ℕ) (s : Text) → d < 10 → digits_value m ((b'0' + d) ∷ s) ≡ digits_value (m * 10 + d) s
unfolding digits_value
digits_value-digit m d s h =
    let back : b'0' + d - b'0' ≡ d = omega arith in
    let digit : is_digit (b'0' + d) ≡ true = is_digit-digit d h in rw (digit, back)

-- One more digit in front is read before the others.
digits_value-last :
    (n : ℕ) (out : Text) → digits_value (n / 10) ((b'0' + n % 10) ∷ out) ≡ digits_value n out
digits_value-last n out =
    let whole : n / 10 * 10 + n % 10 ≡ n = omega arith in
    rw (digits_value-digit (n / 10) (n % 10) out (omega arith), whole)

digits_value-emit :
    (fuel n : ℕ) (out : Text) → n < fuel → digits_value 0 (emit fuel n out) ≡ digits_value n out
unfolding emit
digits_value-emit zero n out h = absurd (omega arith)
digits_value-emit (suc fuel) n out h = elim (Bool-cases (n / 10 == 0)) [
  | inl last ↦
      let none_left : n / 10 ≡ 0 = (==_iff (n / 10) 0).0 last in
      rw last (rw none_left at (digits_value-last n out))
  | inr more ↦ rw more (
      digits_value-emit fuel (n / 10) ((b'0' + n % 10) ∷ out) (ground arith)
      ∙ digits_value-last n out)
]

-- The first character of what is written is a digit.
abbrev Leads : Text → Type 0
Leads s = (d : ℕ) × (t : Text) × (s ≡ (b'0' + d) ∷ t) × (d < 10)

emit-Leads : (fuel n : ℕ) (out : Text) → n < fuel → Leads (emit fuel n out)
unfolding emit
emit-Leads zero n out h = absurd (omega arith)
emit-Leads (suc fuel) n out h = elim (Bool-cases (n / 10 == 0)) [
  | inl last ↦ rw last (n % 10, out, refl, omega arith)
  | inr more ↦ rw more (emit-Leads fuel (n / 10) ((b'0' + n % 10) ∷ out) (ground arith))
]

read_digits-Leads : (s : Text) → Leads s → read_digits s ≡ some (digits_value 0 s)
unfolding read_digits
read_digits-Leads s (d, t, e, h) =
    let digit : is_digit (b'0' + d) ≡ true = is_digit-digit d h in rw e (rw digit)

show_nat-Leads : (n : ℕ) → Leads (show_nat n)
unfolding show_nat
show_nat-Leads n = emit-Leads (suc n) n [] (omega arith)

digits_value-nil : (n : ℕ) → digits_value n [] ≡ n
unfolding digits_value
digits_value-nil n = refl

read_digits-show_nat : (n : ℕ) → read_digits (show_nat n) ≡ some n
read_digits-show_nat n =
    read_digits-Leads (show_nat n) (show_nat-Leads n)
    ∙ ap some (unfold show_nat in digits_value-emit (suc n) n [] (omega arith) ∙ digits_value-nil n)

is_white-digit : (d : ℕ) → d < 10 → is_white (b'0' + d) ≡ false
unfolding is_white
is_white-digit d h = ground arith

trim_start-digit : (d : ℕ) (t : Text) → d < 10 → trim_start ((b'0' + d) ∷ t) ≡ (b'0' + d) ∷ t
unfolding trim_start
trim_start-digit d t h = let w : is_white (b'0' + d) ≡ false = is_white-digit d h in rw w

signed-digit :
    (d : ℕ) (t : Text) → d < 10 → signed ((b'0' + d) ∷ t) ≡ as_pos (read_digits ((b'0' + d) ∷ t))
unfolding signed
signed-digit d t h = ground arith

parse_int_lem : (s : Text) → parse_int s ≡ signed (trim_start s)
unfolding parse_int
parse_int_lem s = refl

parse_int-Leads : (s : Text) (n : ℕ) → Leads s → read_digits s ≡ some n → parse_int s ≡ some (pos n)
parse_int-Leads s n (d, t, e, h) r =
    rw (parse_int_lem, e, trim_start-digit d t h, signed-digit d t h, rw e at r) refl

parse_int-minus : (s : Text) → parse_int (b'-' ∷ s) ≡ negate (read_digits s)
unfolding parse_int trim_start
parse_int-minus s = refl

-- Writing an integer and reading it gives it back.
pub parse_int-show_int : (z : ℤ) → parse_int (show_int z) ≡ some z
unfolding show_int
parse_int-show_int (pos n) =
    unfold show_int in parse_int-Leads (show_nat n) n (show_nat-Leads n) (read_digits-show_nat n)
parse_int-show_int (negsuc n) =
    parse_int-minus (show_nat (suc n)) ∙ rw (read_digits-show_nat (suc n))
