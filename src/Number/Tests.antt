-- ===== src/Number/Tests.antt =====
-- Tests of the numbers.
use rubber_duck.Prelude.{none, some, ◌≡◌, refl, codes}
use rubber_duck.Number.{pos, negsuc, parse_int, show_int}

reads_prefix : parse_int (codes "  12px") ≡ some (pos 12)
unfolding parse_int
reads_prefix = refl

reads_nothing : parse_int (codes "px") ≡ none
unfolding parse_int
reads_nothing = refl

writes_negative : show_int (negsuc 41) ≡ codes "-42"
unfolding show_int
writes_negative = refl
