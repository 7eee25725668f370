-- ===== src/Diff/Hunks/Laws.antt =====
-- What `Hunks` shows of a diff.
use rubber_duck.Prelude.{
  ℕ, zero, suc, ◌<◌, Bool, true, false, some, List, [], ◌∷◌, ◌≡◌, ◌≢◌, ◌↔◌, ◌⊎◌, inl, inr, refl,
  sym, ap, ◌∙◌, arith, Text, All, length, get_elem?, get_elem?-lt, get_elem?-append_self,
}
use mathlib.Core.Option.{some-injective}
use rubber_duck.Diff.Lines.{Line, Op, equal, delete, insert, split_lines}
use rubber_duck.Diff.Lines as L
use rubber_duck.Diff.Lines.Unchanged.{IsEqual, lines-IsEqual}
use rubber_duck.Diff.Lines.Reconstruct.{lines_reconstruct}
use rubber_duck.Diff.Hunks.{is_change, keep, hunks}
use rubber_duck.Diff.Hunks.Near.{ChangeAt, Near, length-keep, keep_iff}
use rubber_duck.Diff.Hunks.Laid.{marks, Laid, group-Laid}

-- The marks of the lines near a change.
pub record Marked (context : ℕ) (lines : List Line) (bits : List Bool) : Type 0 where
  pub same_length : length bits ≡ length lines
  pub near : (i : ℕ) → i < length lines → (get_elem? bits i ≡ some true) ↔ Near context lines i

-- For each line there is a mark that says whether a change stands at most `context` lines before or
-- behind it, or there. The hunks are the runs of marked lines, each whole and in order, and the lines
-- between, before and behind them are those without a mark.
pub hunks-Laid :
    (context : ℕ) (lines : List Line)
    → (bits : List Bool) × Marked context lines bits × Laid lines bits (hunks lines context)
unfolding hunks
hunks-Laid context lines = (
  keep context lines,
  record { same_length = length-keep context lines; near = keep_iff context lines },
  group-Laid (keep context lines) lines (length-keep context lines),
)

op_cases : (op : Op) → (op ≡ equal) ⊎ (elim op [ equal ↦ false | _ ↦ true ] ≡ true)
op_cases equal = inl refl
op_cases delete = inr refl
op_cases insert = inr refl

All-IsEqual : (lines : List Line) → ((j : ℕ) → ¬ ChangeAt lines j) → All IsEqual lines
All-IsEqual [] none_at = tt
All-IsEqual (l ∷ lines) none_at = elim (op_cases l.op) [
  | inl is ↦ (is, All-IsEqual lines (λ j. none_at (suc j)))
  | inr c ↦ absurd (none_at 0 (l, refl, c))
]

no_ChangeAt : (lines : List Line) → All IsEqual lines → (j : ℕ) → ¬ ChangeAt lines j
no_ChangeAt [] h j (l, at, c) = absurd (ground arith)
no_ChangeAt (l ∷ lines) (is, h) zero (l', at, c) =
    let same : l ≡ l' = some-injective _ _ at in
    let unchanged : is_change l ≡ false = ap (λ op. elim op [ equal ↦ false | _ ↦ true ]) is in
    let changed : is_change l ≡ true = ap is_change same ∙ c in absurd (cc)
no_ChangeAt (l ∷ lines) (is, h) (suc j) c = no_ChangeAt lines h j c

marks-false : (lines : List Line) (i : ℕ) → get_elem? (marks false lines) i ≢ some true
marks-false [] i e = ground arith
marks-false (l ∷ lines) zero e = ground arith
marks-false (l ∷ lines) (suc i) e = marks-false lines i e

length-marks : (b : Bool) (lines : List Line) → length (marks b lines) ≡ length lines
length-marks b [] = refl
length-marks b (l ∷ lines) = ap suc (length-marks b lines)

module _ (context : ℕ) (lines : List Line) (bits : List Bool) (m : Marked context lines bits) where
  no_hunks : Laid lines bits [] → All IsEqual lines
  no_hunks e = All-IsEqual lines (λ j (l, at, c).
      let below = get_elem?-lt lines j l at in
      marks-false lines j (
        ap (λ bs. get_elem? bs j) (sym e)
        ∙ (m.near j below).1 (j, (l, at, c), omega arith, omega arith)))

  a_hunk : (h : List Line) (hs : List (List Line)) → Laid lines bits (h ∷ hs) → ¬ All IsEqual lines
  a_hunk [] hs (gap, rest, rbits, e, f, ne, breaks, laid) all = ne refl
  a_hunk (l ∷ h) hs (gap, rest, rbits, e, f, ne, breaks, laid) all =
      let at : get_elem? bits (length (marks false gap)) ≡ some true =
        ap (λ bs. get_elem? bs (length (marks false gap))) f
        ∙ get_elem?-append_self (marks false gap) _ true in
      let below = get_elem?-lt bits (length (marks false gap)) true at in
      let (j, c, _, _) = (m.near (length (marks false gap)) (omega (arith, m.same_length))).0 at in
      no_ChangeAt lines all j c

  no_hunks_iff : (hs : List (List Line)) → Laid lines bits hs → (hs ≡ []) ↔ All IsEqual lines
  no_hunks_iff [] laid = (λ e. no_hunks laid, λ all. refl)
  no_hunks_iff (h ∷ hs) laid = (λ e. absurd (cc), λ all. absurd (a_hunk h hs laid all))

-- The diff of two documents has no hunk, whatever the context, exactly if they have the same lines.
pub hunks-lines :
    (old_src new_src : Text) (context : ℕ)
    → (out : List Line) × (L.lines old_src new_src ≡ some out)
      × ((hunks out context ≡ []) ↔ (split_lines old_src ≡ split_lines new_src))
hunks-lines old_src new_src context =
    let (out, e, _, _, _) = lines_reconstruct old_src new_src in
    let (bits, m, laid) = hunks-Laid context out in
    let (to_all, from_all) = no_hunks_iff context out bits m (hunks out context) laid in
    let (to_same, from_same) = lines-IsEqual old_src new_src out e in
    (out, e, (λ h. to_same (to_all h), λ h. from_all (from_same h)))
