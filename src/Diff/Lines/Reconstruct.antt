-- ===== src/Diff/Lines/Reconstruct.antt =====
-- Both documents can be read off a diff, and the line numbers are those of the documents.
use rubber_duck.Prelude.{
  ℕ, suc, some, List, [], ◌∷◌, ◌≡◌, ◌≢◌, refl, sym, ap, ◌∙◌, inl, inr, arith, ◌==◌, ==_iff, Text,
  codes, join, Bool-cases, length,
}
use mathlib.Core.Option
use rubber_duck.Diff.Lines.{
  Line, Emitted, trim_newline, cons_first, split, split_lines, diff_from, lines,
}
use rubber_duck.Diff.Lines.Sides.{old_side, new_side, renumber}
use rubber_duck.Diff.Lines.Total.{recurse-IsTotal}

join-cons_first :
    (c : ℕ) (ls : List Text) → join (codes "\n") (cons_first c ls) ≡ c ∷ join (codes "\n") ls
unfolding join
join-cons_first c [] = refl
join-cons_first c (l ∷ []) = refl
join-cons_first c (l ∷ m ∷ ls) = refl

split-ne-nil : (s : Text) → split s ≢ []
unfolding split
split-ne-nil [] = λ e. cc
split-ne-nil (c ∷ s) = elim (Bool-cases (c == 10)) [
  | inl e ↦ rw e (λ z. cc)
  | inr e ↦ rw e (cons_first-ne-nil (split s))
]
  where
    cons_first-ne-nil : (ls : List Text) → cons_first c ls ≢ []
    cons_first-ne-nil [] = λ z. cc
    cons_first-ne-nil (l ∷ ls) = λ z. cc

join-nil_cons : (ls : List Text) → ls ≢ [] → join (codes "\n") ([] ∷ ls) ≡ 10 ∷ join (codes "\n") ls
unfolding join
join-nil_cons [] h = absurd (h refl)
join-nil_cons (l ∷ ls) h = refl

join-split : (s : Text) → join (codes "\n") (split s) ≡ s
unfolding split join
join-split [] = refl
join-split (c ∷ s) = elim (Bool-cases (c == 10)) [
  | inl e ↦ rw e (join-nil_cons (split s) (split-ne-nil s) ∙ cc ((==_iff c 10).0 e, join-split s))
  | inr e ↦ rw e (join-cons_first c (split s) ∙ ap (c ∷◌) (join-split s))
]

pub join-split_lines : (s : Text) → join (codes "\n") (split_lines s) ≡ trim_newline s
unfolding split_lines join trim_newline
join-split_lines [] = refl
join-split_lines (c ∷ s) = unfold split_lines in join-split (trim_newline (c ∷ s))

-- A diff of these two sides, numbered from 1.
pub record IsDiff (old new : List Text) (out : List Line) : Type 0 where
  pub olds : old_side out ≡ old
  pub news : new_side out ≡ new
  pub numbered : renumber 1 1 out ≡ out

pub diff_from-IsDiff :
    (old new : List Text) → (out : List Line) × (diff_from old new ≡ some out) × IsDiff old new out
diff_from-IsDiff old new =
    let start : Emitted = record { out = []; old_n = 1; new_n = 1 } in
    let (st, e, x) = recurse-IsTotal (suc (length old)) old new start (omega arith) in
    (
      st.out,
      ap (Option.map (λ (s : Emitted). s.out)) e,
      record {
        olds = ap old_side x.out ∙ x.olds;
        news = ap new_side x.out ∙ x.news;
        numbered = ap (renumber 1 1) x.out ∙ x.numbered ∙ sym x.out;
      },
    )

-- `Lines` always returns. Its rows that are not inserted, joined by line feeds, are the old document
-- and those that are not deleted the new one, each less a line feed at its end; and every row's
-- numbers are its line's numbers in the two documents, counted from 1, or 0.
pub lines_reconstruct :
    (old_src new_src : Text)
    → (out : List Line) × (lines old_src new_src ≡ some out)
      × (join (codes "\n") (old_side out) ≡ trim_newline old_src)
      × (join (codes "\n") (new_side out) ≡ trim_newline new_src)
      × (renumber 1 1 out ≡ out)
unfolding lines
lines_reconstruct old_src new_src =
    let (out, e, d) = diff_from-IsDiff (split_lines old_src) (split_lines new_src) in
    (
      out,
      e,
      ap (join (codes "\n")) d.olds ∙ join-split_lines old_src,
      ap (join (codes "\n")) d.news ∙ join-split_lines new_src,
      d.numbered,
    )
