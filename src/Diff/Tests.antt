-- ===== src/Diff/Tests.antt =====
-- Tests and instances.
use rubber_duck.Prelude.{
  ℕ, ◌≤◌, ◌≡◌, ◌↔◌, refl, Bool, some, List, [], ◌∷◌, Text, codes, length, join,
}
use mathlib.Core.Option
use rubber_duck.Diff.Patience.{Anchor, patience_anchors}
use rubber_duck.Diff.Patience.Chain.{Divides}
use rubber_duck.Diff.Patience.Longest.{patience_anchors-longest}
use rubber_duck.Diff.Lines.{Line, Op, equal, delete, insert, lines, split_lines, trim_newline}
use rubber_duck.Diff.Lines.Sides.{old_side, new_side, renumber}
use rubber_duck.Diff.Lines.Reconstruct.{lines_reconstruct}
use rubber_duck.Diff.Hunks.{hunks}
use rubber_duck.Diff.Hunks.Laid.{Laid}
use rubber_duck.Diff.Hunks.Laws.{Marked, hunks-Laid, hunks-lines}

abbrev old_lines : List Text
old_lines = codes "a" ∷ codes "b" ∷ codes "c" ∷ codes "d" ∷ []

abbrev new_lines : List Text
new_lines = codes "d" ∷ codes "a" ∷ codes "c" ∷ codes "e" ∷ []

abbrev old_doc : Text
old_doc = codes "x\na\nb\nc\nd\ny\n"

abbrev new_doc : Text
new_doc = codes "x\nd\na\nc\ne\ny"

abbrev show_lines : List Line → List (Op × Text)
show_lines [] = []
show_lines (l ∷ ls) = (l.op, l.text) ∷ show_lines ls

moved :
    patience_anchors old_lines new_lines
    ≡ some (record { old = 0; new = 1 } ∷ record { old = 2; new = 2 } ∷ [])
unfolding patience_anchors
moved = refl

patience_anchors-longest_example :
    (chain : List Anchor) × (patience_anchors old_lines new_lines ≡ some chain)
    × Divides old_lines new_lines 0 0 chain
    × ((cs : List Anchor) → Divides old_lines new_lines 0 0 cs → length cs ≤ length chain)
patience_anchors-longest_example = patience_anchors-longest old_lines new_lines

lines_test :
    Option.map show_lines (lines old_doc new_doc)
    ≡ some (
        (equal, codes "x")
        ∷ (insert, codes "d")
        ∷ (equal, codes "a")
        ∷ (delete, codes "b")
        ∷ (equal, codes "c")
        ∷ (delete, codes "d")
        ∷ (insert, codes "e")
        ∷ (equal, codes "y")
        ∷ [])
unfolding lines
lines_test = refl

lines_reconstruct_example :
    (out : List Line) × (lines old_doc new_doc ≡ some out)
    × (join (codes "\n") (old_side out) ≡ trim_newline old_doc)
    × (join (codes "\n") (new_side out) ≡ trim_newline new_doc)
    × (renumber 1 1 out ≡ out)
lines_reconstruct_example = lines_reconstruct old_doc new_doc

abbrev row : Op → ℕ → ℕ → Line
row op o n = record { op = op; text = codes "t"; old_n = o; new_n = n }

-- A change, a line near it, two dropped lines, and another change.
abbrev rows : List Line
rows =
    row insert 0 1
    ∷ row equal 1 2
    ∷ row equal 2 3
    ∷ row equal 3 4
    ∷ row equal 4 5
    ∷ row delete 5 0
    ∷ []

hunks_test :
    hunks rows 1
    ≡ (row insert 0 1 ∷ row equal 1 2 ∷ []) ∷ (row equal 4 5 ∷ row delete 5 0 ∷ []) ∷ []
unfolding hunks
hunks_test = refl

hunks-Laid_example : (bits : List Bool) × Marked 1 rows bits × Laid rows bits (hunks rows 1)
hunks-Laid_example = hunks-Laid 1 rows

hunks-lines_example :
    (out : List Line) × (lines old_doc new_doc ≡ some out)
    × ((hunks out 3 ≡ []) ↔ (split_lines old_doc ≡ split_lines new_doc))
hunks-lines_example = hunks-lines old_doc new_doc 3
