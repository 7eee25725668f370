-- ===== src/Diff/Hunks/Near.antt =====
-- The lines that are kept are those near a change.
use mathlib.Core.List.{reverse, reverse-cons}
use rubber_duck.Prelude.{
  ℕ, zero, suc, ◌+◌, ◌-◌, ◌≤◌, ◌<◌, Bool, true, some, List, [], ◌∷◌, ◌++◌, ◌≡◌, ◌↔◌, ◌⊎◌, inl, inr,
  refl, sym, ap, ◌∙◌, arith, leb, if◌then◌else◌, Bool-cases, length, length-append, get_elem?,
  get_elem?-lt, get_elem?-append_left, get_elem?-append_self,
}
use mathlib.Core.Option.{some-injective}
use rubber_duck.Diff.Lines.{Line}
use rubber_duck.Diff.Hunks.{is_change, behind, either, keep}

-- Line `j` is a change.
abbrev pub ChangeAt : List Line → ℕ → Type 0
ChangeAt lines j = (l : Line) × (get_elem? lines j ≡ some l) × (is_change l ≡ true)

-- A change stands at most `context` lines before or behind line `i`, or there.
abbrev pub Near : ℕ → List Line → ℕ → Type 0
Near context lines i = (j : ℕ) × ChangeAt lines j × (i ≤ j + context) × (j ≤ i + context)

abbrev Behind : ℕ → List Line → ℕ → Type 0
Behind context lines i = (j : ℕ) × ChangeAt lines j × (j ≤ i) × (i ≤ j + context)

Behind-cons :
    (context : ℕ) (l : Line) (lines : List Line) (i : ℕ)
    → Behind context lines i
    → Behind context (l ∷ lines) (suc i)
Behind-cons context l lines i (j, at, le, le') = (suc j, at, omega arith, omega arith)

behind_sound :
    (context dist : ℕ) (lines : List Line) (i : ℕ)
    → get_elem? (behind context dist lines) i ≡ some true
    → Behind context lines i ⊎ (dist + suc i ≤ context)
unfolding behind
behind_sound context dist [] i e = absurd (ground arith)
behind_sound context dist (l ∷ lines) zero e = elim (Bool-cases (is_change l)) [
  | inl c ↦ inl (0, (l, refl, c), omega arith, omega arith)
  | inr c ↦ inr (ground arith)
]
behind_sound context dist (l ∷ lines) (suc i) e = elim (Bool-cases (is_change l)) [
  | inl c ↦ elim (behind_sound context 0 lines i (rw c at e)) [
    | inl near ↦ inl (Behind-cons context l lines i near)
    | inr start ↦ inl (0, (l, refl, c), omega arith, omega arith)
  ]
  | inr c ↦ elim (behind_sound context (dist + 1) lines i (rw c at e)) [
    | inl near ↦ inl (Behind-cons context l lines i near)
    | inr start ↦ inr (omega arith)
  ]
]

behind_start :
    (context dist : ℕ) (lines : List Line) (i : ℕ)
    → i < length lines
    → dist + suc i ≤ context
    → get_elem? (behind context dist lines) i ≡ some true
unfolding behind
behind_start context dist [] i h s = absurd (omega arith)
behind_start context dist (l ∷ lines) zero h s = ground arith
behind_start context dist (l ∷ lines) (suc i) h s =
    behind_start context (if is_change l then 0 else dist + 1) lines i (omega arith) (ground arith)

behind_complete :
    (context dist : ℕ) (lines : List Line) (i : ℕ)
    → i < length lines
    → Behind context lines i
    → get_elem? (behind context dist lines) i ≡ some true
unfolding behind
behind_complete context dist [] i h b = absurd (omega arith)
behind_complete context dist (l ∷ lines) zero h (zero, (c, e, is), le, le') =
    let same : l ≡ c = some-injective _ _ e in
    let change : is_change l ≡ true = ap is_change same ∙ is in rw change (ground arith)
behind_complete context dist (l ∷ lines) zero h (suc j, at, le, le') = absurd (omega arith)
behind_complete context dist (l ∷ lines) (suc i) h (zero, (c, e, is), le, le') =
    let same : l ≡ c = some-injective _ _ e in
    let change : is_change l ≡ true = ap is_change same ∙ is in
    rw change (behind_start context 0 lines i (omega arith) (omega arith))
behind_complete context dist (l ∷ lines) (suc i) h (suc j, at, le, le') =
    behind_complete context (if is_change l then 0 else dist + 1) lines i (omega arith)
      (j, at, omega arith, omega arith)

length-behind :
    (context dist : ℕ) (lines : List Line) → length (behind context dist lines) ≡ length lines
unfolding behind
length-behind context dist [] = refl
length-behind context dist (l ∷ lines) =
    ap suc (length-behind context (if is_change l then 0 else dist + 1) lines)

-- The first loop keeps exactly the lines at most `context` behind a change.
behind_iff :
    (context : ℕ) (lines : List Line) (i : ℕ)
    → i < length lines
    → (get_elem? (behind context (context + 1) lines) i ≡ some true) ↔ Behind context lines i
behind_iff context lines i h = (
  λ e. elim (behind_sound context (context + 1) lines i e) [
    | inl b ↦ b
    | inr start ↦ absurd (omega arith)
  ],
  behind_complete context (context + 1) lines i h,
)

length-reverse {ℓ} : {A : Type ℓ} (xs : List A) → length (reverse xs) ≡ length xs
length-reverse [] = refl
length-reverse (x ∷ xs) =
    ap length (reverse-cons x xs)
    ∙ omega (arith, length-append (reverse xs) (x ∷ []), length-reverse xs)

-- Element `i` of a reversed list is element `j` of the list, counted from the other end.
get_elem?-reverse {ℓ} :
    {A : Type ℓ} (xs : List A) (i j : ℕ)
    → i + suc j ≡ length xs
    → get_elem? (reverse xs) i ≡ get_elem? xs j
get_elem?-reverse [] i j h = absurd (omega arith)
get_elem?-reverse (x ∷ xs) i zero h =
    let at : i ≡ length (reverse xs) = omega (arith, length-reverse xs) in
    ap (λ ys. get_elem? ys i) (reverse-cons x xs)
    ∙ ap (get_elem? (reverse xs ++ x ∷ [])) at
    ∙ get_elem?-append_self (reverse xs) [] x
get_elem?-reverse (x ∷ xs) i (suc j) h =
    ap (λ ys. get_elem? ys i) (reverse-cons x xs)
    ∙ get_elem?-append_left (reverse xs) (x ∷ []) i (omega (arith, length-reverse xs))
    ∙ get_elem?-reverse xs i j (omega arith)

-- What the second loop keeps, seen from the front.
ahead_iff :
    (context : ℕ) (lines : List Line) (i : ℕ)
    → i < length lines
    → (get_elem? (reverse (behind context (context + 1) (reverse lines))) i ≡ some true)
      ↔ ((j : ℕ) × ChangeAt lines j × (i ≤ j) × (j ≤ i + context))
ahead_iff context lines i h =
    let k = length lines - suc i in
    let n = length-reverse lines in
    let flip : get_elem? (reverse (behind context (context + 1) (reverse lines))) i
        ≡ get_elem? (behind context (context + 1) (reverse lines)) k =
      get_elem?-reverse (behind context (context + 1) (reverse lines)) i k
        (omega (arith, length-behind context (context + 1) (reverse lines))) in
    let (out, into) = behind_iff context (reverse lines) k (omega arith) in
    (
      λ e.
          let (j, (l, at, is), le, le') = out (sym flip ∙ e) in
          let in_range = get_elem?-lt (reverse lines) j l at in
          let j' = length lines - suc j in
          (
            j',
            (l, sym (get_elem?-reverse lines j j' (omega arith)) ∙ at, is),
            omega arith,
            omega arith,
          ),
      λ (j, (l, at, is), le, le').
          let in_range = get_elem?-lt lines j l at in
          let j' = length lines - suc j in
          flip
          ∙ into (
            j',
            (l, get_elem?-reverse lines j' j (omega arith) ∙ at, is),
            omega arith,
            omega arith,
          ),
    )

get_elem?-either :
    (bs cs : List Bool) (i : ℕ)
    → length bs ≡ length cs
    → (get_elem? (either bs cs) i ≡ some true)
      ↔ ((get_elem? bs i ≡ some true) ⊎ (get_elem? cs i ≡ some true))
get_elem?-either [] [] i e = (λ h. inl h, λ h. ground arith)
get_elem?-either [] (c ∷ cs) i e = absurd (omega arith)
get_elem?-either (b ∷ bs) [] i e = absurd (omega arith)
get_elem?-either (b ∷ bs) (c ∷ cs) zero e = (λ h. ground arith, λ h. ground arith)
get_elem?-either (b ∷ bs) (c ∷ cs) (suc i) e = get_elem?-either bs cs i (omega arith)

length-either : (bs cs : List Bool) → length (either bs cs) ≡ length bs
length-either [] cs = refl
length-either (b ∷ bs) [] = refl
length-either (b ∷ bs) (c ∷ cs) = ap suc (length-either bs cs)

pub length-keep : (context : ℕ) (lines : List Line) → length (keep context lines) ≡ length lines
unfolding keep
length-keep context lines =
    length-either (behind context (context + 1) lines) _ ∙ length-behind context (context + 1) lines

pub keep_iff :
    (context : ℕ) (lines : List Line) (i : ℕ)
    → i < length lines
    → (get_elem? (keep context lines) i ≡ some true) ↔ Near context lines i
unfolding keep
keep_iff context lines i h =
    let bs = behind context (context + 1) lines in
    let cs = reverse (behind context (context + 1) (reverse lines)) in
    let len : length bs ≡ length cs = omega (
      arith,
      length-behind context (context + 1) lines,
      length-reverse (behind context (context + 1) (reverse lines)),
      length-behind context (context + 1) (reverse lines),
      length-reverse lines,
    ) in
    let (out, into) = get_elem?-either bs cs i len in
    let (b_out, b_into) = behind_iff context lines i h in
    let (c_out, c_into) = ahead_iff context lines i h in
    (
      λ e. elim (out e) [
        | inl b ↦ let (j, at, le, le') = b_out b in (j, at, le', omega arith)
        | inr c ↦ let (j, at, le, le') = c_out c in (j, at, omega arith, le')
      ],
      λ (j, at, le, le'). elim (Bool-cases (leb j i)) [
        | inl before ↦ into (inl (b_into (j, at, ground arith, le)))
        | inr after ↦ into (inr (c_into (j, at, ground arith, le')))
      ],
    )
