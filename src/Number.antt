-- ===== src/Number.antt =====
-- The integers that the scripts compute with: `parseInt(s, 10)`, `String(n)`, `Math.min` and
-- `Math.max`. JavaScript's numbers are floats; the values here are integers that a float holds, and
-- an integer too large for one is only ever clamped.
pub mod RoundTrip
pub mod Digits
pub mod Tests
use rubber_duck.Prelude.{
  ℕ, zero, suc, ◌+◌, ◌-◌, ◌*◌, ◌/◌, ◌%◌, Bool, true, false, ◌&&◌, Option, none, some, List, [], ◌∷◌,
  leb, ltb, ◌==◌, if◌then◌else◌, Text, trim_start,
}

-- `negsuc n` is -(n + 1).
pub data ℤ : Type 0 where
  pos : ℕ → ℤ
  negsuc : ℕ → ℤ

abbrev pub leb_ℤ : ℤ → ℤ → Bool
leb_ℤ (pos m) (pos n) = leb m n
leb_ℤ (pos m) (negsuc n) = false
leb_ℤ (negsuc m) (pos n) = true
leb_ℤ (negsuc m) (negsuc n) = leb n m

unfoldable pub min : ℤ → ℤ → ℤ
min a b = if leb_ℤ a b then a else b

unfoldable pub max : ℤ → ℤ → ℤ
max a b = if leb_ℤ a b then b else a

-- `n || d` for a number that may be NaN, here `none`.
unfoldable pub or_default : Option ℤ → ℤ → ℤ
or_default none d = d
or_default (some (pos zero)) d = d
or_default (some (pos (suc n))) d = pos (suc n)
or_default (some (negsuc n)) d = negsuc n

unfoldable pub is_digit : ℕ → Bool
is_digit c = leb b'0' c && leb c b'9'

-- The value of the digits in front, behind those read so far.
digits_value : ℕ → Text → ℕ
unfolding is_digit
digits_value n [] = n
digits_value n (c ∷ s) =
    let more = digits_value (n * 10 + (c - b'0')) s in if is_digit c then more else n

read_digits : Text → Option ℕ
unfolding digits_value
read_digits [] = none
read_digits (c ∷ s) = if is_digit c then some (digits_value 0 (c ∷ s)) else none

abbrev negate : Option ℕ → Option ℤ
negate none = none
negate (some zero) = some (pos 0)
negate (some (suc n)) = some (negsuc n)

abbrev as_pos : Option ℕ → Option ℤ
as_pos none = none
as_pos (some n) = some (pos n)

signed : Text → Option ℤ
unfolding read_digits
signed [] = none
signed (c ∷ s) =
    if c == b'-'
    then negate (read_digits s)
    else if c == b'+'
    then as_pos (read_digits s)
    else as_pos (read_digits (c ∷ s))

-- `parseInt(s, 10)`, `none` for NaN.
unfoldable pub parse_int : Text → Option ℤ
unfolding signed trim_start
parse_int s = signed (trim_start s)

-- The decimal digits of `n` in front of `out`; the fuel is a bound of their number.
emit : ℕ → ℕ → Text → Text
emit zero n out = out
emit (suc fuel) n out =
    let digit = b'0' + n % 10 in
    let more = emit fuel (n / 10) (digit ∷ out) in if n / 10 == 0 then digit ∷ out else more

unfoldable pub show_nat : ℕ → Text
unfolding emit
show_nat n = emit (suc n) n []

-- `String(n)` of an integer.
unfoldable pub show_int : ℤ → Text
unfolding show_nat
show_int (pos n) = show_nat n
show_int (negsuc n) = b'-' ∷ show_nat (suc n)
