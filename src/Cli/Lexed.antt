-- ===== src/Cli/Lexed.antt =====
-- How a shell divides the lines that `shellQuote` and `runInTerminal` build.
use rubber_duck.Prelude.{
  ℕ, ◌<◌, Bool, true, false, not, ◌||◌, Option, none, some, List, [], ◌∷◌, ◌++◌, map, append_assoc,
  append-nil, ◌≡◌, refl, ap, ◌∙◌, ◌≢◌, arith, ◌==◌, ==_iff, Text, codes, foldl, foldl-append,
  holds_below, holds_below-lt, Bool-cases, inl, inr,
}
use rubber_duck.Cli.{is_plain, all_plain, escape_quotes, quote, shell_quote, command_line}
use rubber_duck.Cli.Shell.{
  Word, Lexeme, written, joined, Kind, literal, classify, plain, single, Reader, reading, step,
  lexemes, extend, finish,
}

is_literal : Kind → Bool
is_literal literal = true
is_literal _ = false

is_plain-lt : (c : ℕ) → is_plain c ≡ true → c < 128
unfolding is_plain
is_plain-lt c h = ground arith

plain_table : holds_below (λ c. not (is_plain c) || is_literal (classify c)) 128 ≡ true
unfolding holds_below is_plain classify is_literal
plain_table = refl

is_literal-eq : (k : Kind) → is_literal k ≡ true → k ≡ literal
unfolding is_literal
is_literal-eq k h = ground arith

-- No character that is left unquoted means anything to the shell.
classify_plain : (c : ℕ) → is_plain c ≡ true → classify c ≡ literal
classify_plain c h = is_literal-eq (classify c) (
    ground (
      arith,
      holds_below-lt (λ c. not (is_plain c) || is_literal (classify c)) 128 plain_table c
          (is_plain-lt c h),
    ))

-- `run s r`: the reader `r` after the characters of `s`.
abbrev run : Text → Reader → Reader
run s r = foldl step r s

-- The word of a part: quoted or left as it is.
unfoldable pub marked : Bool → Text → Word
marked q [] = []
marked q (c ∷ s) = (q, c) ∷ marked q s

abbrev pub part_word : Text → Word
part_word p = marked (not (all_plain p)) p

step_plain :
    (c : ℕ) (cur : Option Word) (done : List Lexeme)
    → is_plain c ≡ true
    → step (reading plain cur done) c ≡ reading plain (some (extend cur false c)) done
unfolding step
step_plain c cur done h = rw (classify_plain c h)

run_plain :
    (s : Text) (w : Word) (done : List Lexeme)
    → all_plain s ≡ true
    → run s (reading plain (some w) done) ≡ reading plain (some (w ++ marked false s)) done
unfolding all_plain marked
run_plain [] w done h = rw append-nil
run_plain (c ∷ s) w done h = elim (Bool-cases (is_plain c)) [
  | inl p ↦ rw (step_plain c (some w) done p) (
      run_plain s (w ++ (false, c) ∷ []) done (ground arith)
      ∙ ap (λ v. reading plain (some v) done) (append_assoc w ((false, c) ∷ []) (marked false s)))
  | inr n ↦ absurd (ground arith)
]

step_single :
    (c : ℕ) (w : Word) (done : List Lexeme)
    → (c == 39) ≡ false
    → step (reading single (some w) done) c ≡ reading single (some (w ++ (true, c) ∷ [])) done
unfolding step
step_single c w done h = rw h

step_escape :
    (s : Text) (w : Word) (done : List Lexeme)
    → run (39 ∷ 92 ∷ 39 ∷ 39 ∷ s) (reading single (some w) done)
      ≡ run s (reading single (some (w ++ (true, 39) ∷ [])) done)
unfolding step
step_escape s w done = refl

run_escaped :
    (s : Text) (w : Word) (done : List Lexeme)
    → run (escape_quotes s) (reading single (some w) done)
      ≡ reading single (some (w ++ marked true s)) done
unfolding escape_quotes marked
run_escaped [] w done = rw append-nil
run_escaped (c ∷ s) w done = elim (Bool-cases (c == 39)) [
  | inl e ↦
      rw (e, (==_iff c 39).0 e, step_escape)
        (rw (run_escaped s (w ++ (true, 39) ∷ []) done, append_assoc))
  | inr n ↦
      rw (n, step_single c w done n, foldl)
        (rw (run_escaped s (w ++ (true, c) ∷ []) done, append_assoc))
]

-- A quoted part that stands at the start of a word is read as that word, still open.
run-quote :
    (p : Text) (done : List Lexeme)
    → p ≢ []
    → run (quote p) (reading plain none done) ≡ reading plain (some (part_word p)) done
unfolding quote
run-quote [] done h = absurd (h refl)
run-quote (c ∷ s) done h = elim (Bool-cases (all_plain (c ∷ s))) [
  | inl e ↦ rw e (
      unfold all_plain marked in
      rw (step_plain c none done (ground arith), foldl)
        (run_plain s ((false, c) ∷ []) done (ground arith)))
  | inr n ↦ rw (n, foldl-append) (unfold step in rw (run_escaped (c ∷ s) [] done))
]

shell_quote-one : (p : Text) → shell_quote (p ∷ []) ≡ quote p
unfolding shell_quote
shell_quote-one p = refl

shell_quote-cons :
    (p q : Text) (ps : List Text) → shell_quote (p ∷ q ∷ ps) ≡ quote p ++ 32 ∷ shell_quote (q ∷ ps)
unfolding shell_quote
shell_quote-cons p q ps = refl

run_blank :
    (s : Text) (w : Word) (done : List Lexeme)
    → run (32 ∷ s) (reading plain (some w) done)
      ≡ run s (reading plain none (done ++ written w ∷ []))
unfolding step
run_blank s w done = refl

run_leading :
    (s : Text) (done : List Lexeme)
    → run ([] ++ 32 ∷ s) (reading plain none done) ≡ run s (reading plain none done)
unfolding step
run_leading s done = refl

quote_empty : quote [] ≡ []
unfolding quote
quote_empty = refl

-- The parts that are not empty.
abbrev pub nonempty : List Text → List Text
nonempty [] = []
nonempty ([] ∷ ps) = nonempty ps
nonempty ((c ∷ p) ∷ ps) = (c ∷ p) ∷ nonempty ps

cons_ne_nil : (c : ℕ) (s : Text) → c ∷ s ≢ []
cons_ne_nil c s e = cc

-- The words of the parts.
abbrev pub words : List Text → List Lexeme
words ps = map (λ p. written (part_word p)) ps

finish-shell_quote :
    (ps : List Text) (done : List Lexeme)
    → finish (run (shell_quote ps) (reading plain none done)) ≡ some (done ++ words (nonempty ps))
finish-shell_quote [] done = rw append-nil (unfold shell_quote in refl)
finish-shell_quote ([] ∷ []) done = rw (shell_quote-one, quote_empty, append-nil)
finish-shell_quote ((c ∷ p) ∷ []) done =
    rw (shell_quote-one, run-quote (c ∷ p) done (cons_ne_nil c p))
finish-shell_quote ([] ∷ q ∷ ps) done =
    rw (shell_quote-cons, quote_empty, run_leading) (finish-shell_quote (q ∷ ps) done)
finish-shell_quote ((c ∷ p) ∷ q ∷ ps) done =
    rw (shell_quote-cons, foldl-append, run-quote (c ∷ p) done (cons_ne_nil c p), run_blank)
      (finish-shell_quote (q ∷ ps) (done ++ written (part_word (c ∷ p)) ∷ [])
        ∙ ap some
            (append_assoc done (written (part_word (c ∷ p)) ∷ []) (words (nonempty (q ∷ ps)))))

pub lexemes-shell_quote : (ps : List Text) → lexemes (shell_quote ps) ≡ some (words (nonempty ps))
unfolding lexemes
lexemes-shell_quote ps = finish-shell_quote ps []

run_cd :
    (s : Text)
    → run (codes "cd " ++ s) (reading plain none [])
      ≡ run s (reading plain none (written (marked false (codes "cd")) ∷ []))
unfolding step marked
run_cd s = refl

run_and :
    (s : Text) (w : Word) (done : List Lexeme)
    → run (codes " && " ++ s) (reading plain (some w) done)
      ≡ run s (reading plain none ((done ++ written w ∷ []) ++ joined ∷ []))
unfolding step
run_and s w done = refl

command_line_lem :
    (path cwd : Text) (args : List Text)
    → command_line path cwd args
      ≡ codes "cd " ++ (shell_quote (cwd ∷ []) ++ (codes " && " ++ shell_quote (path ∷ args)))
unfolding command_line
command_line_lem path cwd args = refl

abbrev pub cd_word : Word
cd_word = marked false (codes "cd")

pub lexemes-command_line :
    (path cwd : Text) (args : List Text)
    → cwd ≢ []
    → lexemes (command_line path cwd args)
      ≡ some (written cd_word ∷ written (part_word cwd) ∷ joined ∷ words (nonempty (path ∷ args)))
unfolding lexemes
lexemes-command_line path cwd args h =
    rw
      (
        command_line_lem,
        run_cd,
        foldl-append,
        shell_quote-one,
        run-quote cwd (written cd_word ∷ []) h,
        run_and,
      )
      (finish-shell_quote (path ∷ args) (written cd_word ∷ written (part_word cwd) ∷ joined ∷ []))
