-- ===== src/Cli/Terminal.antt =====
-- vscode-extension/src/cli.ts: the module variable `terminal` and its life cycle. A terminal is
-- named by the number of terminals created before it. `exited` holds the terminals whose
-- `exitStatus` is defined, which VS Code sets; `sent` the lines sent, the latest first.
pub mod Reuse
pub mod Account
use rubber_duck.Prelude.{
  ℕ, ◌+◌, Bool, not, Option, none, some, List, [], ◌∷◌, ◌==◌, ltb, if◌then◌else◌, Text, contains,
  foldl,
}
use rubber_duck.Cli.{command_line}

pub record Terminals : Type 0 where
  pub terminal : Option ℕ
  pub made : ℕ
  pub exited : Text
  pub sent : List (ℕ × Text)

abbrev pub start : Terminals
start = record { terminal = none; made = 0; exited = []; sent = [] }

-- `if (!terminal || terminal.exitStatus !== undefined) terminal = createTerminal(…)`, and the terminal.
pub ensure : Option ℕ → Terminals → ℕ × Terminals
ensure none w = (w.made, record w { terminal = some w.made; made = w.made + 1 })
ensure (some t) w =
    if contains t w.exited
    then (w.made, record w { terminal = some w.made; made = w.made + 1 })
    else (t, w)

pub run_in_terminal : (path cwd : Text) → List Text → Terminals → Terminals
unfolding ensure
run_in_terminal path cwd args w =
    let (t, w') = ensure w.terminal w in
    record w' { sent = (t, command_line path cwd args) ∷ w'.sent }

abbrev forget : ℕ → Option ℕ → Option ℕ
forget t none = none
forget t (some u) = if t == u then none else some u

-- The listener of `onDidCloseTerminal`.
pub dispose_terminal : ℕ → Terminals → Terminals
dispose_terminal t w = record w { terminal = forget t w.terminal }

-- What happens to the variable: a command is run; the user closes a terminal; the shell in an open
-- one exits.
pub data Event : Type 0 where
  run : (path cwd : Text) → List Text → Event
  close : ℕ → Event
  exit : ℕ → Event

unfoldable pub handle : Terminals → Event → Terminals
unfolding run_in_terminal dispose_terminal
handle w (run path cwd args) = run_in_terminal path cwd args w
handle w (close t) = dispose_terminal t w
handle w (exit t) = if ltb t w.made then record w { exited = t ∷ w.exited } else w

abbrev pub session : List Event → Terminals
session = foldl handle start
