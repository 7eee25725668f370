-- ===== src/Cli/Terminal/Reuse.antt =====
-- Which terminal a command goes to.
use rubber_duck.Prelude.{
  ℕ, ◌+◌, ◌<◌, ◌≤◌, false, Option, none, some, List, [], ◌∷◌, ◌≡◌, refl, arith, Text, contains,
  foldl, ltb, Bool-cases, inl, inr, All, ◌⊎◌, true,
}
use rubber_duck.Cli.{command_line}
use rubber_duck.Cli.Terminal.{
  Terminals, start, ensure, run_in_terminal, Event, run, close, exit, handle, session,
}

abbrev Known : ℕ → Option ℕ → Type 0
Known made none = Unit
Known made (some t) = t < made

-- Nothing is at hand, or what is has exited.
abbrev pub IsGone : Option ℕ → Text → Type 0
IsGone none exited = Unit
IsGone (some t) exited = contains t exited ≡ true

-- The terminal `t` is the one at hand if that has not exited, and else a new one.
abbrev pub Chosen : Terminals → ℕ → Terminals → Type 0
Chosen w t w' =
    ((w.terminal ≡ some t) × (contains t w.exited ≡ false) × (w'.made ≡ w.made))
    ⊎ (IsGone w.terminal w.exited × (t ≡ w.made) × (w'.made ≡ w.made + 1))

-- Only terminals that were created exit or are held.
pub record IsValid (w : Terminals) : Type 0 where
  pub exits : All (λ t. t < w.made) w.exited
  pub holds : Known w.made w.terminal

All-lt_mono : (m n : ℕ) (xs : Text) → m ≤ n → All (λ t. t < m) xs → All (λ t. t < n) xs
All-lt_mono m n [] le h = tt
All-lt_mono m n (x ∷ xs) le (p, h) = (omega arith, All-lt_mono m n xs le h)

fresh-not_contains : (n : ℕ) (xs : Text) → All (λ t. t < n) xs → contains n xs ≡ false
unfolding contains
fresh-not_contains n [] h = refl
fresh-not_contains n (x ∷ xs) h = ground (arith, fresh-not_contains n xs)

-- What `ensure` gives: a terminal that has not exited, held and known.
module _ (w : Terminals) (v : IsValid w) where
  ensure-live : contains (ensure w.terminal w).0 w.exited ≡ false
  unfolding ensure
  ensure-live = ground (arith, fresh-not_contains w.made w.exited)

  pub ensure-holds : (ensure w.terminal w).1.terminal ≡ some (ensure w.terminal w).0
  unfolding ensure
  ensure-holds = ground arith

  pub ensure-kept :
      ((ensure w.terminal w).1.exited ≡ w.exited)
      × ((ensure w.terminal w).1.sent ≡ w.sent)
      × (w.made ≤ (ensure w.terminal w).1.made)
      × ((ensure w.terminal w).0 < (ensure w.terminal w).1.made)
  unfolding ensure
  ensure-kept = ground arith

module _ (made : ℕ) (exited : Text) (sent : List (ℕ × Text)) where
  pub ensure-Chosen :
      (o : Option ℕ)
      → let w : Terminals = record { terminal = o; made = made; exited = exited; sent = sent } in
        Chosen w (ensure o w).0 (ensure o w).1
  unfolding ensure
  ensure-Chosen none = inr (tt, refl, refl)
  ensure-Chosen (some t) = elim (Bool-cases (contains t exited)) [
    | inl e ↦ rw e (inr (refl, refl, refl))
    | inr e ↦ rw e (inl (refl, e, refl))
  ]

-- A command goes to the terminal at hand if there is one and it has not exited, and then no terminal
-- is created; else it goes to a new one. That terminal has not exited and is the one at hand
-- afterwards; the command's line is the last one sent, and no other line is lost.
pub run_in_terminal-live :
    (path cwd : Text) (args : List Text) (w : Terminals)
    → IsValid w
    → let w' = run_in_terminal path cwd args w in
      (t : ℕ) × Chosen w t w'
      × (w'.terminal ≡ some t)
      × (contains t w'.exited ≡ false)
      × (w'.sent ≡ (t, command_line path cwd args) ∷ w.sent)
unfolding run_in_terminal
run_in_terminal-live path cwd args w v =
    let (same_exits, same_sent, _, _) = ensure-kept w v in
    (
      (ensure w.terminal w).0,
      ensure-Chosen w.made w.exited w.sent w.terminal,
      ensure-holds w v,
      rw same_exits (ensure-live w v),
      rw same_sent,
    )

handle-IsValid : (w : Terminals) (e : Event) → IsValid w → IsValid (handle w e)
unfolding handle
handle-IsValid w (run path cwd args) v =
    let (same_exits, _, grows, held) = ensure-kept w v in
    record {
      exits = rw same_exits (All-lt_mono w.made _ w.exited grows v.exits);
      holds = rw (ensure-holds w v) held;
    }
handle-IsValid w (close t) v = record { exits = v.exits; holds = ground arith }
handle-IsValid w (exit t) v = elim (Bool-cases (ltb t w.made)) [
  | inl p ↦ rw p (record { exits = (ground arith, v.exits); holds = v.holds })
  | inr n ↦ rw n v
]

foldl-IsValid : (es : List Event) (w : Terminals) → IsValid w → IsValid (foldl handle w es)
foldl-IsValid [] w v = v
foldl-IsValid (e ∷ es) w v = foldl-IsValid es (handle w e) (handle-IsValid w e v)

-- After any session the terminals are well formed: only created ones have exited or are held.
pub session-IsValid : (es : List Event) → IsValid (session es)
session-IsValid es = foldl-IsValid es start (record { exits = tt; holds = tt })
