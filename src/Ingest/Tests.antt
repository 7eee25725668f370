-- ===== src/Ingest/Tests.antt =====
-- Tests and instances.
use rubber_duck.Prelude.{◌++◌, ◌≡◌, ◌↔◌, refl, Text, codes, length}
use rubber_duck.Ingest.{ordering_prefix_len}
use rubber_duck.Ingest.Prefix.{IsOrdering, ordering_prefix_len_iff}

lettered : ordering_prefix_len (codes "05a-maps") ≡ 4
unfolding ordering_prefix_len
lettered = refl

single_digit : ordering_prefix_len (codes "3-way-partition") ≡ 0
unfolding ordering_prefix_len
single_digit = refl

final : ordering_prefix_len (codes "final-exam") ≡ 6
unfolding ordering_prefix_len
final = refl

ordering_prefix_len_iff_example :
    (ordering_prefix_len (codes "05a-maps") ≡ 4)
    ↔ ((p rest : Text) × (codes "05a-maps" ≡ p ++ rest) × IsOrdering p × (length p ≡ 4))
ordering_prefix_len_iff_example = ordering_prefix_len_iff (codes "05a-maps") 4 (λ e. cc)
