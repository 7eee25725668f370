-- ===== src/Diff/Hunks.antt =====
-- internal/diff/diff.go: `Hunks`. A context is not negative.
pub mod Near
pub mod Laid
pub mod Laws
use rubber_duck.Prelude.{ℕ, ◌+◌, Bool, true, false, ◌||◌, List, [], ◌∷◌, ◌++◌, leb, if◌then◌else◌}
use mathlib.Core.List.{reverse}
use rubber_duck.Diff.Lines.{Line, Op, equal, delete, insert}

abbrev pub is_change : Line → Bool
is_change l = elim l.op [ equal ↦ false | _ ↦ true ]

-- The first loop: whether each line is within `context` lines behind a change. `dist` is the
-- variable of that name before the line.
unfoldable pub behind : (context dist : ℕ) → List Line → List Bool
behind context dist [] = []
behind context dist (l ∷ lines) =
    let d = if is_change l then 0 else dist + 1 in leb d context ∷ behind context d lines

-- `keep` after the second loop, which goes from the last line to the first.
abbrev pub either : List Bool → List Bool → List Bool
either [] cs = []
either (b ∷ bs) [] = b ∷ bs
either (b ∷ bs) (c ∷ cs) = (b || c) ∷ either bs cs

unfoldable pub keep : ℕ → List Line → List Bool
unfolding behind
keep context lines =
    either (behind context (context + 1) lines)
      (reverse (behind context (context + 1) (reverse lines)))

abbrev pub flush : List Line → List (List Line) → List (List Line)
flush [] hunks = hunks
flush (l ∷ cur) hunks = hunks ++ (l ∷ cur) ∷ []

-- The last loop, from a state of `hunks` and `cur` on; an empty `cur` is nil.
unfoldable pub group :
    List Bool → List Line → (cur : List Line) → List (List Line) → List (List Line)
group (true ∷ bs) (l ∷ lines) cur hunks = group bs lines (cur ++ l ∷ []) hunks
group (false ∷ bs) (l ∷ lines) cur hunks = group bs lines [] (flush cur hunks)
group [] lines cur hunks = flush cur hunks
group (b ∷ bs) [] cur hunks = flush cur hunks

unfoldable pub hunks : List Line → ℕ → List (List Line)
unfolding keep group
hunks lines context = group (keep context lines) lines [] []
