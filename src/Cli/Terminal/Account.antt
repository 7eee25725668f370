-- ===== src/Cli/Terminal/Account.antt =====
-- What becomes of the terminals that a session creates.
use rubber_duck.Prelude.{
  ℕ, ◌<◌, Option, none, some, List, [], ◌∷◌, ◌≡◌, refl, arith, Text, contains, ltb, Bool-cases, inl,
  inr, All, ◌⊎◌, true, sym, ◌==◌, ==_iff, ap, ◌∙◌, append-nil, ◌++◌, append_assoc, foldl-append,
}
use mathlib.Core.Path.{subst}
use rubber_duck.Cli.Terminal.{
  Terminals, start, ensure, run_in_terminal, forget, dispose_terminal, Event, run, close, exit,
  handle, session,
}
use rubber_duck.Cli.Terminal.Reuse.{
  IsGone, Chosen, IsValid, ensure-holds, ensure-kept, ensure-Chosen, session-IsValid,
}

-- An event after which the terminal may be gone.
abbrev pub IsLoss : Event → ℕ → Type 0
IsLoss (run path cwd args) t = ⊥
IsLoss (close u) t = u ≡ t
IsLoss (exit u) t = u ≡ t

-- Every terminal that was created is at hand or `L`, and so is each that has exited.
record Accounts (w : Terminals) (L : ℕ → Type 0) : Type 0 where
  gone : All L w.exited
  held : (t : ℕ) → t < w.made → (w.terminal ≡ some t) ⊎ L t

All-mono : {L M : ℕ → Type 0} (xs : Text) → ((t : ℕ) → L t → M t) → All L xs → All M xs
All-mono [] f h = tt
All-mono (x ∷ xs) f (p, h) = (f x p, All-mono xs f h)

contains-All : (L : ℕ → Type 0) (t : ℕ) (xs : Text) → contains t xs ≡ true → All L xs → L t
unfolding contains
contains-All L t [] e h = absurd (cc)
contains-All L t (x ∷ xs) e (p, h) = elim (Bool-cases (t == x)) [
  | inl is ↦ rw ((==_iff t x).0 is) p
  | inr other ↦ contains-All L t xs (ground arith) h
]

IsGone-L :
    (L : ℕ → Type 0) (o : Option ℕ) (exited : Text) (t : ℕ)
    → IsGone o exited
    → o ≡ some t
    → All L exited
    → L t
IsGone-L L none exited t gone e h = absurd (cc)
IsGone-L L (some u) exited t gone e h =
    let same_one : u ≡ t = cc in rw (sym same_one) (contains-All L u exited gone h)

-- How an event changes the account, where `M` is `L` or a loss by the event.
module _ (w : Terminals) (L M : ℕ → Type 0) (v : IsValid w) (kept : (t : ℕ) → L t → M t)
    (a : Accounts w L) where
  run-held :
      (u : ℕ) (w' : Terminals)
      → Chosen w u w'
      → w'.terminal ≡ some u
      → (t : ℕ) → t < w'.made
      → (w'.terminal ≡ some t) ⊎ M t
  run-held u w' (inl (hold, live, same_made)) at t p = elim (a.held t (omega (arith, same_made))) [
    | inl h ↦ inl (cc)
    | inr l ↦ inr (kept t l)
  ]
  run-held u w' (inr (lost, new, one_more)) at t p = elim (Bool-cases (t == w.made)) [
    | inl is ↦ inl (let same_t = (==_iff t w.made).0 is in cc)
    | inr other ↦ elim (a.held t (ground arith)) [
      | inl h ↦ inr (kept t (IsGone-L L w.terminal w.exited t lost h a.gone))
      | inr l ↦ inr (kept t l)
    ]
  ]

  run-Accounts : (path cwd : Text) (args : List Text) → Accounts (run_in_terminal path cwd args w) M
  unfolding run_in_terminal
  run-Accounts path cwd args =
      let (same_exits, _, _, _) = ensure-kept w v in
      record {
        gone = rw same_exits (All-mono w.exited kept a.gone);
        held =
            run-held (ensure w.terminal w).0 (ensure w.terminal w).1
              (ensure-Chosen w.made w.exited w.sent w.terminal) (ensure-holds w v);
      }

  close-held :
      (u : ℕ) (o : Option ℕ) (t : ℕ)
      → (u ≡ t → M t)
      → (o ≡ some t) ⊎ L t
      → (forget u o ≡ some t) ⊎ M t
  close-held u o t lost (inr l) = inr (kept t l)
  close-held u none t lost (inl e) = absurd (cc)
  close-held u (some x) t lost (inl e) = elim (Bool-cases (u == x)) [
    | inl is ↦ inr (lost (let same_x = (==_iff u x).0 is in cc))
    | inr other ↦ rw other (inl e)
  ]

  close-Accounts :
      (u : ℕ) → ((t : ℕ) → u ≡ t → t < w.made → M t) → Accounts (dispose_terminal u w) M
  unfolding dispose_terminal
  close-Accounts u lost = record {
    gone = All-mono w.exited kept a.gone;
    held = λ t p. close-held u w.terminal t (λ e. lost t e p) (a.held t p);
  }

  held-kept : (t : ℕ) → t < w.made → (w.terminal ≡ some t) ⊎ M t
  held-kept t p = elim (a.held t p) [ inl h ↦ inl h | inr l ↦ inr (kept t l) ]

  exit-Accounts : (u : ℕ) → ((t : ℕ) → u ≡ t → t < w.made → M t) → Accounts (handle w (exit u)) M
  unfolding handle
  exit-Accounts u lost = elim (Bool-cases (ltb u w.made)) [
    | inl e ↦ rw e (record {
      gone = (lost u refl (ground arith), All-mono w.exited kept a.gone);
      held = held-kept;
    })
    | inr e ↦ rw e (record { gone = All-mono w.exited kept a.gone; held = held-kept })
  ]

handle-Accounts :
    (w : Terminals) (e : Event) (L M : ℕ → Type 0)
    → IsValid w
    → ((t : ℕ) → L t → M t)
    → ((t : ℕ) → IsLoss e t → t < w.made → M t)
    → Accounts w L
    → Accounts (handle w e) M
unfolding handle
handle-Accounts w (run path cwd args) L M v kept lost a = run-Accounts w L M v kept a path cwd args
handle-Accounts w (close u) L M v kept lost a = close-Accounts w L M v kept a u lost
handle-Accounts w (exit u) L M v kept lost a = exit-Accounts w L M v kept a u lost

-- The terminal `t` was closed, or its shell exited, after it was created.
abbrev pub Lost : List Event → ℕ → Type 0
Lost es t =
    (before : List Event) × (e : Event) × (after : List Event) × (es ≡ before ++ e ∷ after)
    × IsLoss e t
    × (t < (session before).made)

Lost-append : (es : List Event) (e : Event) (t : ℕ) → Lost es t → Lost (es ++ e ∷ []) t
Lost-append es e t (before, d, after, split, loss, made) = (
  before,
  d,
  after ++ e ∷ [],
  ap (λ xs. xs ++ e ∷ []) split ∙ append_assoc before (d ∷ after) (e ∷ []),
  loss,
  made,
)

session-snoc : (es : List Event) (e : Event) → session (es ++ e ∷ []) ≡ handle (session es) e
session-snoc es e = foldl-append handle start es (e ∷ [])

session-Accounts_from :
    (before es : List Event)
    → Accounts (session before) (Lost before)
    → Accounts (session (before ++ es)) (Lost (before ++ es))
session-Accounts_from before [] a = rw append-nil a
session-Accounts_from before (e ∷ es) a =
    subst (λ xs. Accounts (session xs) (Lost xs)) (append_assoc before (e ∷ []) es)
      (session-Accounts_from (before ++ e ∷ []) es (
        subst (λ w. Accounts w (Lost (before ++ e ∷ []))) (sym (session-snoc before e))
          (handle-Accounts (session before) e (Lost before) (Lost (before ++ e ∷ []))
            (session-IsValid before) (Lost-append before e)
            (λ t loss made. (before, e, [], refl, loss, made)) a)))

-- In any session every terminal that was created is the one at hand, or was closed or its shell
-- exited after it was created: no other terminal is left behind.
pub session-Accounted :
    (es : List Event) (t : ℕ) → t < (session es).made → ((session es).terminal ≡ some t) ⊎ Lost es t
session-Accounted es =
    (session-Accounts_from [] es (record { gone = tt; held = λ t p. absurd (omega arith) })).held
