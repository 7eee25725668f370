-- ===== src/Diff/Hunks/Laid.antt =====
-- The hunks are the runs of the kept lines.
use rubber_duck.Prelude.{
  Bool, true, false, List, [], ◌∷◌, ◌++◌, append_assoc, append-nil, ◌≡◌, ◌≢◌, refl, sym, ap, ◌∙◌,
  arith, length,
}
use rubber_duck.Diff.Lines.{Line}
use rubber_duck.Diff.Hunks.{group}

-- The same mark for each of the lines.
abbrev pub marks : Bool → List Line → List Bool
marks b [] = []
marks b (l ∷ ls) = b ∷ marks b ls

-- Not a kept line next.
abbrev pub Breaks : List Bool → Type 0
Breaks [] = Unit
Breaks (true ∷ bs) = ⊥
Breaks (false ∷ bs) = Unit

-- The lines are a gap, a hunk, a gap and so on: every line of a gap is dropped, every line of a hunk
-- kept; a hunk is not empty and ends where the next line is dropped or there is none.
abbrev pub Laid : List Line → List Bool → List (List Line) → Type 0
Laid lines bits [] = bits ≡ marks false lines
Laid lines bits (h ∷ hs) =
    (gap rest : List Line) × (rbits : List Bool) × (lines ≡ gap ++ (h ++ rest))
    × (bits ≡ marks false gap ++ (marks true h ++ rbits))
    × (h ≢ [])
    × Breaks rbits
    × Laid rest rbits hs

Laid-skip :
    (l : Line) (lines : List Line) (bits : List Bool) (hs : List (List Line))
    → Laid lines bits hs
    → Laid (l ∷ lines) (false ∷ bits) hs
Laid-skip l lines bits [] e = ap (false ∷◌) e
Laid-skip l lines bits (h ∷ hs) (gap, rest, rbits, e, f, ne, breaks, laid) =
    (l ∷ gap, rest, rbits, ap (l ∷◌) e, ap (false ∷◌) f, ne, breaks, laid)

group-hunks :
    (bits : List Bool) (lines cur : List Line) (hunks : List (List Line))
    → group bits lines cur hunks ≡ hunks ++ group bits lines cur []
unfolding group
group-hunks [] lines [] hunks = sym (append-nil hunks)
group-hunks [] lines (c ∷ cur) hunks = refl
group-hunks (true ∷ bits) [] [] hunks = sym (append-nil hunks)
group-hunks (true ∷ bits) [] (c ∷ cur) hunks = refl
group-hunks (false ∷ bits) [] [] hunks = sym (append-nil hunks)
group-hunks (false ∷ bits) [] (c ∷ cur) hunks = refl
group-hunks (true ∷ bits) (l ∷ lines) cur hunks = group-hunks bits lines (cur ++ l ∷ []) hunks
group-hunks (false ∷ bits) (l ∷ lines) [] hunks = group-hunks bits lines [] hunks
group-hunks (false ∷ bits) (l ∷ lines) (c ∷ cur) hunks =
    group-hunks bits lines [] (hunks ++ (c ∷ cur) ∷ [])
    ∙ append_assoc hunks ((c ∷ cur) ∷ []) (group bits lines [] [])
    ∙ ap (hunks ++◌) (sym (group-hunks bits lines [] ((c ∷ cur) ∷ [])))

marks-append : (b : Bool) (xs ys : List Line) → marks b (xs ++ ys) ≡ marks b xs ++ marks b ys
marks-append b [] ys = refl
marks-append b (x ∷ xs) ys = ap (b ∷◌) (marks-append b xs ys)

-- From a state in which the lines of `cur` have just been kept.
group-Laid_from :
    (bits : List Bool) (lines cur : List Line)
    → length bits ≡ length lines
    → Laid (cur ++ lines) (marks true cur ++ bits) (group bits lines cur [])
unfolding group
group-Laid_from [] [] [] e = refl
group-Laid_from [] [] (c ∷ cur) e = ([], [], [], refl, refl, (λ z. cc), tt, refl)
group-Laid_from [] (l ∷ lines) cur e = absurd (omega arith)
group-Laid_from (b ∷ bits) [] cur e = absurd (omega arith)
group-Laid_from (true ∷ bits) (l ∷ lines) cur e =
    let all : (cur ++ l ∷ []) ++ lines ≡ cur ++ l ∷ lines = append_assoc cur (l ∷ []) lines in
    let all_bits : marks true (cur ++ l ∷ []) ++ bits ≡ marks true cur ++ true ∷ bits =
      ap (◌++ bits) (marks-append true cur (l ∷ []))
      ∙ append_assoc (marks true cur) (true ∷ []) bits in
    rw (← all, ← all_bits) (group-Laid_from bits lines (cur ++ l ∷ []) (omega arith))
group-Laid_from (false ∷ bits) (l ∷ lines) [] e =
    Laid-skip l lines bits (group bits lines [] []) (group-Laid_from bits lines [] (omega arith))
group-Laid_from (false ∷ bits) (l ∷ lines) (c ∷ cur) e =
    rw (group-hunks bits lines [] ((c ∷ cur) ∷ [])) (
      [],
      l ∷ lines,
      false ∷ bits,
      refl,
      refl,
      (λ z. cc),
      tt,
      Laid-skip l lines bits (group bits lines [] []) (group-Laid_from bits lines [] (omega arith)),
    )

pub group-Laid :
    (bits : List Bool) (lines : List Line)
    → length bits ≡ length lines
    → Laid lines bits (group bits lines [] [])
group-Laid bits lines e = group-Laid_from bits lines [] e
