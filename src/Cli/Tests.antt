-- ===== src/Cli/Tests.antt =====
-- Tests of the command lines and the terminals, and instances of the theorems about them.
use rubber_duck.Prelude.{
  ℕ, ◌⊎◌, ◌↔◌, arith, false, none, some, List, [], ◌∷◌, ◌≡◌, refl, Text, codes, contains,
}
use rubber_duck.Cli.{Config, base_url, base_args, shell_quote, command_line}
use rubber_duck.Cli.Shell.{word, and_if, tokens, read}
use rubber_duck.Cli.Lexed.{nonempty}
use rubber_duck.Cli.Quoting.{is_interpreted, read-shell_quote, read-command_line}
use rubber_duck.Cli.Process.{rejected, exec_duck}
use rubber_duck.Cli.Terminal.{handle, run_in_terminal, run, close, exit, Event, session}
use rubber_duck.Cli.Terminal.Reuse.{Chosen, run_in_terminal-live, session-IsValid}
use rubber_duck.Cli.Terminal.Account.{Lost, session-Accounted}

quoted :
    shell_quote (codes "duck" ∷ codes "it's" ∷ codes "a b" ∷ []) ≡ codes "duck 'it'\\''s' 'a b'"
unfolding shell_quote
quoted = refl

read_back :
    tokens (codes "cd '/a b' && duck test")
    ≡ some (
        word (codes "cd")
        ∷ word (codes "/a b")
        ∷ and_if
        ∷ word (codes "duck")
        ∷ word (codes "test")
        ∷ [])
unfolding tokens
read_back = refl

interpreted : tokens (codes "duck $HOME") ≡ none
unfolding tokens
interpreted = refl

assignment : read (codes "A=b duck test") ≡ none
unfolding read
assignment = refl

reserved_word : read (codes "cd /w && if test") ≡ none
unfolding read
reserved_word = refl

quoted_word : read (codes "'if' A=b") ≡ some ((codes "if" ∷ codes "A=b" ∷ []) ∷ [])
unfolding read
quoted_word = refl

abbrev odd_parts : List Text
odd_parts = [] ∷ codes "$(rm -rf ~)" ∷ codes "it's" ∷ []

read-shell_quote_example :
    (read (shell_quote (codes "/my tools/duck" ∷ odd_parts))
      ≡ some ((codes "/my tools/duck" ∷ nonempty odd_parts) ∷ []))
    ↔ (is_interpreted (codes "/my tools/duck") ≡ false)
read-shell_quote_example = read-shell_quote (codes "/my tools/duck") odd_parts (λ e. cc)

read-command_line_example :
    (read (command_line (codes "duck") (codes "/a;b/c d") (codes "test" ∷ codes "x'y" ∷ []))
      ≡ some (
          (codes "cd" ∷ codes "/a;b/c d" ∷ [])
          ∷ (codes "duck" ∷ nonempty (codes "test" ∷ codes "x'y" ∷ []))
          ∷ []))
    ↔ (is_interpreted (codes "duck") ≡ false)
read-command_line_example =
    read-command_line (codes "duck") (codes "/a;b/c d") (codes "test" ∷ codes "x'y" ∷ []) (λ e. cc)
      (λ e. cc)

abbrev local_server : Config
local_server = record { path = none; base_url = some (codes "http://localhost:8080//") }

local_url : base_url local_server ≡ codes "http://localhost:8080"
unfolding base_url
local_url = refl

default_args :
    base_args (record { path = none; base_url = some (codes "https://duckgc.com/") }) ≡ []
unfolding base_args
default_args = refl

missing_binary :
    exec_duck (codes "duk") (record {
      error = some (record { code = some (codes "ENOENT"); message = codes "spawn" });
      stdout = [];
      stderr = [];
    })
    ≡ rejected (codes "duck CLI not found (duk) — install it or set the \"duck.path\" setting")
unfolding exec_duck
missing_binary = refl

failing_process :
    exec_duck (codes "duck") (record {
      error = some (record { code = none; message = codes "exit 1" });
      stdout = codes "out";
      stderr = codes " no such course\n";
    })
    ≡ rejected (codes "no such course")
unfolding exec_duck
failing_process = refl

abbrev events : List Event
events =
    run (codes "duck") (codes "/w") (codes "test" ∷ [])
    ∷ run (codes "duck") (codes "/w") (codes "submit" ∷ [])
    ∷ exit 0
    ∷ run (codes "duck") (codes "/w") (codes "test" ∷ [])
    ∷ close 1
    ∷ []

made_two : (session events).made ≡ 2
unfolding handle contains
made_two = refl

session-Accounted_example : ((session events).terminal ≡ some 0) ⊎ Lost events 0
session-Accounted_example = session-Accounted events 0 (rw made_two (omega arith))

run_in_terminal-live_example :
    let w' = run_in_terminal (codes "duck") (codes "/w") [] (session events) in
    (t : ℕ) × Chosen (session events) t w'
    × (w'.terminal ≡ some t)
    × (contains t w'.exited ≡ false)
    × (w'.sent ≡ (t, command_line (codes "duck") (codes "/w") []) ∷ (session events).sent)
run_in_terminal-live_example =
    run_in_terminal-live (codes "duck") (codes "/w") [] (session events) (session-IsValid events)
