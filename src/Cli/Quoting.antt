-- ===== src/Cli/Quoting.antt =====
-- What a shell reads from the lines that `shellQuote` and `runInTerminal` build.
use rubber_duck.Prelude.{
  Bool, true, false, not, ◌||◌, Option, none, some, List, [], ◌∷◌, ◌++◌, map, append_assoc,
  append-nil, ◌≡◌, refl, sym, ap, same, ◌∙◌, ◌≢◌, ◌↔◌, ◌&&◌, if◌then◌else◌, Text, codes, Bool-cases,
  inl, inr,
}
use rubber_duck.Cli.{all_plain, shell_quote, command_line}
use rubber_duck.Cli.Shell.{
  Word, Lexeme, written, joined, word, tokens, to_tokens, as_tokens, text_of, is_reserved,
  is_assignment, bare_start, is_bare, is_syntax, is_name_char, texts, simple, cons_command,
  commands, all_commands, read,
}
use rubber_duck.Cli.Lexed.{
  marked, part_word, nonempty, words, cd_word, lexemes-shell_quote, lexemes-command_line,
}

text_of-marked : (q : Bool) (p : Text) → text_of (marked q p) ≡ p
unfolding text_of marked
text_of-marked q [] = refl
text_of-marked q (c ∷ p) = ap (c ∷◌) (text_of-marked q p)

to_tokens-words : (ps : List Text) → to_tokens (words ps) ≡ map word ps
unfolding to_tokens
to_tokens-words [] = refl
to_tokens-words (p ∷ ps) =
    rw (text_of-marked (not (all_plain p)) p) (ap (word p ∷◌) (to_tokens-words ps))

-- What `shellQuote` writes is divided into exactly the parts that are not empty, in order.
pub tokens-shell_quote :
    (parts : List Text) → tokens (shell_quote parts) ≡ some (map word (nonempty parts))
unfolding tokens
tokens-shell_quote parts =
    ap as_tokens (lexemes-shell_quote parts) ∙ ap some (to_tokens-words (nonempty parts))

-- A reserved word, or an assignment that is left unquoted since all its characters are plain.
unfoldable pub is_interpreted : Text → Bool
unfolding all_plain is_reserved is_assignment
is_interpreted p = all_plain p && (is_reserved p || is_assignment false p)

bare_start-marked : (p : Text) → bare_start (marked false p) ≡ p
unfolding bare_start marked
bare_start-marked [] = refl
bare_start-marked (c ∷ p) = ap (c ∷◌) (bare_start-marked p)

is_bare-marked : (p : Text) → is_bare (marked false p) ≡ true
unfolding is_bare marked
is_bare-marked [] = refl
is_bare-marked (c ∷ p) = is_bare-marked p

is_syntax-quoted : (p : Text) → p ≢ [] → is_syntax (marked true p) ≡ false
unfolding is_syntax is_bare bare_start marked is_assignment
is_syntax-quoted [] h = absurd (h refl)
is_syntax-quoted (c ∷ p) h = refl

is_syntax-bare : (p : Text) → is_syntax (marked false p) ≡ (is_reserved p || is_assignment false p)
unfolding is_syntax
is_syntax-bare p = rw (is_bare-marked p, text_of-marked false p, bare_start-marked p) refl

is_syntax-part : (p : Text) → p ≢ [] → is_syntax (part_word p) ≡ is_interpreted p
unfolding is_interpreted
is_syntax-part p h = elim (Bool-cases (all_plain p)) [
  | inl e ↦ rw e (is_syntax-bare p)
  | inr n ↦ rw n (is_syntax-quoted p h)
]

commands-words :
    (ps : List Text) (ws : List Word) (rest : List Lexeme)
    → commands ws (words ps ++ rest) ≡ commands (ws ++ map part_word ps) rest
unfolding commands
commands-words [] ws rest = rw append-nil
commands-words (p ∷ ps) ws rest =
    commands-words ps (ws ++ part_word p ∷ []) rest
    ∙ ap (λ vs. commands vs rest) (append_assoc ws (part_word p ∷ []) (map part_word ps))

texts-parts : (ps : List Text) → texts (map part_word ps) ≡ ps
unfolding texts
texts-parts [] = refl
texts-parts (p ∷ ps) = rw (text_of-marked (not (all_plain p)) p) (ap (p ∷◌) (texts-parts ps))

simple-parts :
    (p : Text) (ps : List Text)
    → p ≢ []
    → simple (map part_word (p ∷ ps)) ≡ (if is_interpreted p then none else some (p ∷ ps))
unfolding simple
simple-parts p ps h =
    rw (is_syntax-part p h)
      (ap (λ ts. if is_interpreted p then none else some ts) (texts-parts (p ∷ ps)))

pub nonempty-cons : (p : Text) (ps : List Text) → p ≢ [] → nonempty (p ∷ ps) ≡ p ∷ nonempty ps
nonempty-cons [] ps h = absurd (h refl)
nonempty-cons (c ∷ p) ps h = refl

-- What is read of the words of one command, or nothing if the first of them is interpreted.
abbrev unless_interpreted : Text → List (List Text) → Option (List (List Text))
unless_interpreted name cs = if is_interpreted name then none else some cs

unless_interpreted_iff :
    (name : Text) (cs : List (List Text))
    → (unless_interpreted name cs ≡ some cs) ↔ (is_interpreted name ≡ false)
unless_interpreted_iff name cs = elim (Bool-cases (is_interpreted name)) [
  | inl e ↦ rw e (λ h. absurd (cc), λ h. absurd (cc))
  | inr e ↦ rw e (λ h. refl, λ h. refl)
]

commands-one :
    (name : Text) (ps : List Text)
    → name ≢ []
    → commands (map part_word (name ∷ ps)) [] ≡ unless_interpreted name ((name ∷ ps) ∷ [])
unfolding commands
commands-one name ps h =
    rw (simple-parts name ps h)
      (elim (Bool-cases (is_interpreted name)) [ inl e ↦ rw e refl | inr e ↦ rw e refl ])

commands-parts :
    (name : Text) (args : List Text)
    → name ≢ []
    → commands [] (words (nonempty (name ∷ args)))
      ≡ unless_interpreted name ((name ∷ nonempty args) ∷ [])
commands-parts name args h = rw (nonempty-cons name args h) (
    ap (commands []) (sym (append-nil (words (name ∷ nonempty args))))
    ∙ commands-words (name ∷ nonempty args) [] []
    ∙ commands-one name (nonempty args) h)

shell_quote-unless_interpreted :
    (name : Text) (args : List Text)
    → name ≢ []
    → read (shell_quote (name ∷ args)) ≡ unless_interpreted name ((name ∷ nonempty args) ∷ [])
unfolding read
shell_quote-unless_interpreted name args h =
    ap all_commands (lexemes-shell_quote (name ∷ args)) ∙ commands-parts name args h

-- What `shellQuote` writes is read as one command with exactly the parts that are not empty, in
-- order, if and only if the first part, which must not be empty, is not a reserved word and not an
-- assignment of which all characters are plain: those two are left unquoted.
pub read-shell_quote :
    (name : Text) (args : List Text)
    → name ≢ []
    → (read (shell_quote (name ∷ args)) ≡ some ((name ∷ nonempty args) ∷ []))
      ↔ (is_interpreted name ≡ false)
read-shell_quote name args h =
    rw (shell_quote-unless_interpreted name args h)
      (unless_interpreted_iff name ((name ∷ nonempty args) ∷ []))

simple_cd : (cwd : Text) → simple (cd_word ∷ part_word cwd ∷ []) ≡ some (codes "cd" ∷ cwd ∷ [])
unfolding simple texts is_syntax is_bare bare_start marked is_reserved is_assignment text_of same
    is_name_char
simple_cd cwd = ap (λ t. some (codes "cd" ∷ t ∷ [])) (text_of-marked (not (all_plain cwd)) cwd)

commands_cd :
    (cwd : Text) (ls : List Lexeme)
    → commands [] (written cd_word ∷ written (part_word cwd) ∷ joined ∷ ls)
      ≡ cons_command (some (codes "cd" ∷ cwd ∷ [])) (commands [] ls)
unfolding commands
commands_cd cwd ls = ap (λ c. cons_command c (commands [] ls)) (simple_cd cwd)

command_line-unless_interpreted :
    (path cwd : Text) (args : List Text)
    → cwd ≢ []
    → path ≢ []
    → read (command_line path cwd args)
      ≡ cons_command
          (some (codes "cd" ∷ cwd ∷ []))
          (unless_interpreted path ((path ∷ nonempty args) ∷ []))
unfolding read
command_line-unless_interpreted path cwd args h ne =
    ap all_commands (lexemes-command_line path cwd args h)
    ∙ commands_cd cwd (words (nonempty (path ∷ args)))
    ∙ ap (cons_command (some (codes "cd" ∷ cwd ∷ []))) (commands-parts path args ne)

-- The line that `runInTerminal` sends, for a directory and a binary that are not empty, is read as
-- two commands joined by `&&`, `cd` with the directory and the binary with its arguments, those that
-- are not empty, if and only if the binary is not a reserved word and not an assignment of which all
-- characters are plain.
pub read-command_line :
    (path cwd : Text) (args : List Text)
    → cwd ≢ []
    → path ≢ []
    → (read (command_line path cwd args)
        ≡ some ((codes "cd" ∷ cwd ∷ []) ∷ (path ∷ nonempty args) ∷ []))
      ↔ (is_interpreted path ≡ false)
read-command_line path cwd args h ne =
    rw (command_line-unless_interpreted path cwd args h ne)
      (elim (Bool-cases (is_interpreted path)) [
        | inl e ↦ rw e (λ bad. absurd (cc), λ bad. absurd (cc))
        | inr e ↦ rw e (λ good. refl, λ good. refl)
      ])
