-- ===== src/Diff/Lines/Unchanged.antt =====
-- Documents with the same lines have a diff without a change, and no others do.
use rubber_duck.Prelude.{
  ℕ, suc, Option, some, List, [], ◌∷◌, ◌≡◌, ◌↔◌, refl, sym, ap, ◌∙◌, arith, Text, same_refl, length,
  take, drop, All, All-append,
}
use mathlib.Core.Option.{some-injective}
use mathlib.Core.Option
use rubber_duck.Diff.Lines.{
  equal, Line, Emitted, emit_line, emit, common_prefix, trimmed, recurse, diff_from, lines,
  split_lines,
}
use rubber_duck.Diff.Lines.Sides.{old_side, new_side}
use rubber_duck.Diff.Lines.Slices.{take_all}
use rubber_duck.Diff.Lines.Reconstruct.{diff_from-IsDiff}

abbrev pub IsEqual : Line → Type 0
IsEqual l = l.op ≡ equal

common_prefix_self : (ls : List Text) → common_prefix ls ls ≡ length ls
unfolding common_prefix
common_prefix_self [] = refl
common_prefix_self (l ∷ ls) = rw (same_refl l) (ap suc (common_prefix_self ls))

drop_all : (ls : List Text) → drop (length ls) ls ≡ []
drop_all [] = refl
drop_all (l ∷ ls) = drop_all ls

trimmed-nil :
    (rec : (old new : List Text) → Emitted → Option Emitted) (st : Emitted)
    → trimmed rec [] [] st ≡ some st
unfolding trimmed
trimmed-nil rec st = refl

recurse_self :
    (fuel : ℕ) (ls : List Text) (st : Emitted)
    → recurse (suc fuel) ls ls st ≡ some (emit equal ls st)
unfolding recurse
recurse_self fuel ls st =
    ap (λ p. trimmed (recurse fuel) (drop p ls) (drop p ls) (emit equal (take p ls) st))
      (common_prefix_self ls)
    ∙ ap (λ rest. trimmed (recurse fuel) rest rest (emit equal (take (length ls) ls) st))
        (drop_all ls)
    ∙ trimmed-nil (recurse fuel) (emit equal (take (length ls) ls) st)
    ∙ ap (λ all. some (emit equal all st)) (take_all (length ls) ls (omega arith))

emit-IsEqual :
    (ls : List Text) (st : Emitted) → All IsEqual st.out → All IsEqual (emit equal ls st).out
unfolding emit emit_line
emit-IsEqual [] st h = h
emit-IsEqual (l ∷ ls) st h =
    emit-IsEqual ls (emit_line equal l st) (All-append IsEqual st.out _ h (refl, tt))

diff_from_self :
    (ls : List Text) → (out : List Line) × (diff_from ls ls ≡ some out) × All IsEqual out
diff_from_self ls =
    let start : Emitted = record { out = []; old_n = 1; new_n = 1 } in
    (
      (emit equal ls start).out,
      ap (Option.map (λ (s : Emitted). s.out)) (recurse_self (length ls) ls start),
      emit-IsEqual ls start tt,
    )

sides-eq : (out : List Line) → All IsEqual out → old_side out ≡ new_side out
unfolding old_side new_side
sides-eq [] h = refl
sides-eq (l ∷ ls) (e, h) = rw e (ap (l.text ∷◌) (sides-eq ls h))

-- Every row of a diff is unchanged exactly if the documents have the same lines.
pub lines-IsEqual :
    (old_src new_src : Text) (out : List Line)
    → lines old_src new_src ≡ some out
    → All IsEqual out ↔ (split_lines old_src ≡ split_lines new_src)
unfolding lines
lines-IsEqual old_src new_src out e =
    let (out', e', d) = diff_from-IsDiff (split_lines old_src) (split_lines new_src) in
    let same_out : out' ≡ out = some-injective _ _ (sym e' ∙ e) in
    (
      λ h. sym d.olds ∙ sides-eq out' (rw same_out h) ∙ d.news,
      λ same_lines.
          let (out'', e'', h) = diff_from_self (split_lines old_src) in
          let same_out' : out'' ≡ out =
            some-injective _ _ (sym e'' ∙ ap (diff_from (split_lines old_src)) same_lines ∙ e) in
          rw (← same_out') h,
    )
