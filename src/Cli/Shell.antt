-- ===== src/Cli/Shell.antt =====
-- How a POSIX shell reads a line of literal characters, blanks, backslashes, single quotes and `&&`:
-- `tokens` divides it into words and control operators, and `read` gives the simple commands, each
-- the list of its words. A character that the shell would interpret in any other way makes both
-- fail; a reserved word or a variable assignment where a command's name should stand makes `read`
-- fail. Aliases are not considered. It is stated from the shell's rules, not from the code.
use rubber_duck.Prelude.{
  ℕ, Bool, true, false, not, ◌&&◌, ◌||◌, Option, none, some, List, [], ◌∷◌, ◌++◌, ◌==◌,
  if◌then◌else◌, Text, codes, same, contains, leb, foldl,
}

pub data Token : Type 0 where
  word : Text → Token
  and_if : Token

pub data Kind : Type 0 where
  single_quote backslash blank ampersand special literal : Kind

-- What an unquoted character is to the shell.
unfoldable pub classify : ℕ → Kind
unfolding contains
classify c =
    if c == 39
    then single_quote
    else if c == 92
    then backslash
    else if contains c (32 ∷ 9 ∷ [])
    then blank
    else if c == b'&'
    then ampersand
    else if contains c (10 ∷ 34 ∷ codes "|;<>()$`*?[]#~!{}^")
    then special
    else literal

pub data Mode : Type 0 where
  plain escaped single amp : Mode

-- A character of a word, and whether it was quoted.
abbrev pub Word : Type 0
Word = List (Bool × ℕ)

pub data Lexeme : Type 0 where
  written : Word → Lexeme
  joined : Lexeme

-- The word under way, if one has begun, and what is before it.
pub data Reader : Type 0 where
  failed : Reader
  reading : Mode → Option Word → List Lexeme → Reader

abbrev pub flush : Option Word → List Lexeme → List Lexeme
flush none done = done
flush (some w) done = done ++ written w ∷ []

abbrev pub extend : Option Word → Bool → ℕ → Word
extend none q c = (q, c) ∷ []
extend (some w) q c = w ++ (q, c) ∷ []

abbrev opened : Option Word → Word
opened none = []
opened (some w) = w

abbrev plain_step : Kind → Option Word → List Lexeme → ℕ → Reader
plain_step single_quote cur done c = reading single (some (opened cur)) done
plain_step backslash cur done c = reading escaped cur done
plain_step blank cur done c = reading plain none (flush cur done)
plain_step ampersand cur done c = reading amp none (flush cur done)
plain_step special cur done c = failed
plain_step literal cur done c = reading plain (some (extend cur false c)) done

unfoldable pub step : Reader → ℕ → Reader
unfolding classify
step failed c = failed
step (reading plain cur done) c = plain_step (classify c) cur done c
step (reading escaped cur done) c = reading plain (some (extend cur true c)) done
step (reading single cur done) c =
    if c == 39 then reading plain cur done else reading single (some (extend cur true c)) done
step (reading amp cur done) c =
    if c == b'&' then reading plain none (done ++ joined ∷ []) else failed

abbrev pub finish : Reader → Option (List Lexeme)
finish (reading plain cur done) = some (flush cur done)
finish _ = none

unfoldable pub lexemes : Text → Option (List Lexeme)
unfolding step
lexemes s = finish (foldl step (reading plain none []) s)

-- The characters of a word, without the quotes.
unfoldable pub text_of : Word → Text
text_of [] = []
text_of ((q, c) ∷ w) = c ∷ text_of w

unfoldable pub to_tokens : List Lexeme → List Token
unfolding text_of
to_tokens [] = []
to_tokens (written w ∷ ls) = word (text_of w) ∷ to_tokens ls
to_tokens (joined ∷ ls) = and_if ∷ to_tokens ls

abbrev pub as_tokens : Option (List Lexeme) → Option (List Token)
as_tokens none = none
as_tokens (some ls) = some (to_tokens ls)

unfoldable pub tokens : Text → Option (List Token)
unfolding lexemes to_tokens
tokens s = as_tokens (lexemes s)

-- The reserved words, also those of common shells beyond the standard; `!`, `{` and `}` fail before.
unfoldable pub is_reserved : Text → Bool
unfolding same
is_reserved t =
    same t (codes "if")
    || same t (codes "then")
    || same t (codes "else")
    || same t (codes "elif")
    || same t (codes "fi")
    || same t (codes "do")
    || same t (codes "done")
    || same t (codes "case")
    || same t (codes "esac")
    || same t (codes "while")
    || same t (codes "until")
    || same t (codes "for")
    || same t (codes "in")
    || same t (codes "function")
    || same t (codes "select")
    || same t (codes "time")
    || same t (codes "coproc")

-- A character of a variable's name, at its start or further on.
unfoldable pub is_name_char : (begun : Bool) → ℕ → Bool
is_name_char begun c =
    (leb b'a' c && leb c b'z')
    || (leb b'A' c && leb c b'Z')
    || c == b'_'
    || (begun && (leb b'0' c && leb c b'9'))

abbrev pub starts_equals : Text → Bool
starts_equals [] = false
starts_equals (c ∷ t) = c == b'='

-- A name and `=`, or `+=`.
unfoldable pub is_assignment : (begun : Bool) → Text → Bool
unfolding is_name_char
is_assignment begun [] = false
is_assignment begun (c ∷ t) =
    let rest = is_assignment true t in
    (begun && (c == b'=' || (c == b'+' && starts_equals t))) || (is_name_char begun c && rest)

-- What stands before the first quoted character.
unfoldable pub bare_start : Word → Text
bare_start [] = []
bare_start ((true, c) ∷ w) = []
bare_start ((false, c) ∷ w) = c ∷ bare_start w

unfoldable pub is_bare : Word → Bool
is_bare [] = true
is_bare ((q, c) ∷ w) = not q && is_bare w

-- Not a command's name, where one should stand.
unfoldable pub is_syntax : Word → Bool
unfolding is_reserved is_assignment bare_start is_bare text_of
is_syntax w = (is_bare w && is_reserved (text_of w)) || is_assignment false (bare_start w)

unfoldable pub texts : List Word → List Text
unfolding text_of
texts [] = []
texts (w ∷ ws) = text_of w ∷ texts ws

unfoldable pub simple : List Word → Option (List Text)
unfolding is_syntax texts
simple [] = none
simple (w ∷ ws) = if is_syntax w then none else some (texts (w ∷ ws))

abbrev pub cons_command : Option (List Text) → Option (List (List Text)) → Option (List (List Text))
cons_command (some c) (some cs) = some (c ∷ cs)
cons_command _ _ = none

-- The commands of the lexemes, for the words of the first of them so far.
unfoldable pub commands : List Word → List Lexeme → Option (List (List Text))
unfolding simple
commands ws [] = cons_command (simple ws) (some [])
commands ws (written w ∷ ls) = commands (ws ++ w ∷ []) ls
commands ws (joined ∷ ls) = cons_command (simple ws) (commands [] ls)

abbrev pub all_commands : Option (List Lexeme) → Option (List (List Text))
all_commands none = none
all_commands (some ls) = commands [] ls

unfoldable pub read : Text → Option (List (List Text))
unfolding lexemes commands
read s = all_commands (lexemes s)
