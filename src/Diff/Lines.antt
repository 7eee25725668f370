-- ===== src/Diff/Lines.antt =====
-- internal/diff/diff.go: `Lines`. A panic is `none`, and so is running out of fuel.
pub mod Sides
pub mod Slices
pub mod Total
pub mod Reconstruct
pub mod Unchanged
use rubber_duck.Prelude.{
  ℕ, zero, suc, ◌+◌, ◌-◌, Bool, true, false, ◌&&◌, Option, none, some, List, [], ◌∷◌, ◌++◌, leb,
  ◌==◌, if◌then◌else◌, Text, same, length, take, drop,
}
use mathlib.Core.List.{reverse}
use mathlib.Core.Option
use rubber_duck.Diff.Patience.{Anchor, patience_anchors}

pub data Op : Type 0 where
  equal delete insert : Op

pub record Line : Type 0 where
  pub op : Op
  pub text : Text
  pub old_n : ℕ
  pub new_n : ℕ

-- `strings.TrimSuffix(s, "\n")`
unfoldable pub trim_newline : Text → Text
trim_newline [] = []
trim_newline (c ∷ []) = if c == 10 then [] else c ∷ []
trim_newline (c ∷ d ∷ s) = c ∷ trim_newline (d ∷ s)

abbrev pub cons_first : ℕ → List Text → List Text
cons_first c [] = (c ∷ []) ∷ []
cons_first c (l ∷ lines) = (c ∷ l) ∷ lines

-- `strings.Split(s, "\n")`
unfoldable pub split : Text → List Text
split [] = [] ∷ []
split (c ∷ s) = let rest = split s in if c == 10 then [] ∷ rest else cons_first c rest

unfoldable pub split_lines : Text → List Text
unfolding split trim_newline
split_lines [] = []
split_lines (c ∷ s) = split (trim_newline (c ∷ s))

-- The variables `out`, `oldN` and `newN`.
pub record Emitted : Type 0 where
  pub out : List Line
  pub old_n : ℕ
  pub new_n : ℕ

-- One round of the loop of `emit`.
unfoldable pub emit_line : Op → Text → Emitted → Emitted
emit_line equal text st = record {
  out = st.out ++ record { op = equal; text = text; old_n = st.old_n; new_n = st.new_n } ∷ [];
  old_n = st.old_n + 1;
  new_n = st.new_n + 1;
}
emit_line delete text st = record {
  out = st.out ++ record { op = delete; text = text; old_n = st.old_n; new_n = 0 } ∷ [];
  old_n = st.old_n + 1;
  new_n = st.new_n;
}
emit_line insert text st = record {
  out = st.out ++ record { op = insert; text = text; old_n = 0; new_n = st.new_n } ∷ [];
  old_n = st.old_n;
  new_n = st.new_n + 1;
}

unfoldable pub emit : Op → List Text → Emitted → Emitted
unfolding emit_line
emit op [] st = st
emit op (text ∷ lines) st = emit op lines (emit_line op text st)

-- The loop that counts the common prefix, and the one that counts the common suffix, from the end.
unfoldable pub common_prefix : (old new : List Text) → ℕ
unfolding same
common_prefix [] new = 0
common_prefix (l ∷ old) [] = 0
common_prefix (l ∷ old) (m ∷ new) = if same l m then suc (common_prefix old new) else 0

abbrev pub common_suffix : (old new : List Text) → ℕ
common_suffix old new = common_prefix (reverse old) (reverse new)

-- `lines[i:j]`, which panics if the bounds are out of order or out of range.
abbrev pub slice : (i j : ℕ) → List Text → Option (List Text)
slice i j lines =
    if leb i j && leb j (length lines) then some (take (j - i) (drop i lines)) else none

infixl 5 ◌>>=◌
abbrev pub ◌>>=◌ {ℓ κ} : {A : Type ℓ} {B : Type κ} → Option A → (A → Option B) → Option B
none >>= f = none
some a >>= f = f a

-- The loop over the anchors and the call behind it, for the recursive call `rec`.
unfoldable pub walk :
    ((old new : List Text) → Emitted → Option Emitted)
    → (old new : List Text) → (oi ni : ℕ) → List Anchor
    → Emitted
    → Option Emitted
unfolding emit
walk rec old new oi ni [] st = do
  o ← slice oi (length old) old
  n ← slice ni (length new) new
  rec o n st
walk rec old new oi ni (a ∷ anchors) st = do
  o ← slice oi a.old old
  n ← slice ni a.new new
  st' ← rec o n st
  line ← slice a.old (a.old + 1) old
  walk rec old new (a.old + 1) (a.new + 1) anchors (emit equal line st')

abbrev pub middle :
    ((old new : List Text) → Emitted → Option Emitted)
    → (old new : List Text) → List Anchor
    → Emitted
    → Option Emitted
middle rec old new [] st = some (emit insert new (emit delete old st))
middle rec old new (a ∷ anchors) st = walk rec old new 0 0 (a ∷ anchors) st

-- What follows the common prefix.
unfoldable pub trimmed :
    ((old new : List Text) → Emitted → Option Emitted)
    → (old new : List Text) → Emitted
    → Option Emitted
unfolding walk common_prefix patience_anchors emit
trimmed rec old new st =
    let s = common_suffix old new in
    let old_mid = take (length old - s) old in
    let new_mid = take (length new - s) new in
    do
      anchors ← patience_anchors old_mid new_mid
      st' ← middle rec old_mid new_mid anchors st
      some (emit equal (drop (length old - s) old) st')

unfoldable pub recurse : ℕ → (old new : List Text) → Emitted → Option Emitted
unfolding trimmed
recurse zero old new st = none
recurse (suc fuel) old new st =
    let p = common_prefix old new in
    trimmed (recurse fuel) (drop p old) (drop p new) (emit equal (take p old) st)

abbrev pub diff_from : (old new : List Text) → Option (List Line)
diff_from old new =
    Option.map (λ st. st.out)
      (recurse (suc (length old)) old new (record { out = []; old_n = 1; new_n = 1 }))

unfoldable pub lines : (old_src new_src : Text) → Option (List Line)
unfolding split_lines recurse
lines old_src new_src = diff_from (split_lines old_src) (split_lines new_src)
