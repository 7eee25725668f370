-- ===== src/Ingest.antt =====
-- internal/ingest/slug.go: the ordering prefix of a directory that `duck pull` made. A name is the
-- list of its bytes.
pub mod Prefix
pub mod Tests
use rubber_duck.Prelude.{
  ℕ, suc, ◌+◌, Bool, ◌&&◌, [], ◌∷◌, leb, ltb, ◌==◌, if◌then◌else◌, Text, codes, starts_with,
}
use rubber_duck.Number.{is_digit}

unfoldable pub is_lower : ℕ → Bool
is_lower c = leb b'a' c && leb c b'z'

-- The index `i` behind the first loop, and what of the name is left there.
unfoldable pub digit_count : Text → ℕ
unfolding is_digit
digit_count [] = 0
digit_count (c ∷ s) = if is_digit c then suc (digit_count s) else 0

unfoldable pub after_digits : Text → Text
unfolding is_digit
after_digits [] = []
after_digits (c ∷ s) = if is_digit c then after_digits s else c ∷ s

-- The two last tests, at index `i` with this left of the name.
abbrev pub at_dash : ℕ → Text → ℕ
at_dash i [] = 0
at_dash i (c ∷ s) = if c == b'-' then i + 1 else 0

abbrev pub at_letter : ℕ → Text → ℕ
at_letter i [] = 0
at_letter i (c ∷ s) = if is_lower c then at_dash (i + 1) s else at_dash i (c ∷ s)

unfoldable pub ordering_prefix_len : Text → ℕ
unfolding digit_count after_digits is_lower starts_with
ordering_prefix_len name =
    if starts_with name (codes "final-")
    then 6
    else if ltb (digit_count name) 2
    then 0
    else at_letter (digit_count name) (after_digits name)
