-- ===== src/Cli.antt =====
-- vscode-extension/src/cli.ts: the settings, the quoting of command lines, the shared terminal and
-- the result of a `duck` process. The values of the settings, the terminals' exit statuses and the
-- process's output are arguments.
pub mod Shell
pub mod Lexed
pub mod Quoting
pub mod BaseUrl
pub mod Terminal
pub mod Process
pub mod Tests
use rubber_duck.Prelude.{
  ℕ, Bool, true, ◌&&◌, ◌||◌, Option, none, some, List, [], ◌∷◌, ◌++◌, map, leb, ◌==◌, if◌then◌else◌,
  Text, codes, same, contains, join, drop_tail,
}

-- What the user has configured; `none` where the setting is absent.
pub record Config : Type 0 where
  pub path : Option Text
  pub base_url : Option Text

abbrev pub setting_or : Text → Option Text → Text
setting_or default none = default
setting_or default (some v) = v

unfoldable pub duck_path : Config → Text
duck_path c = setting_or (codes "duck") c.path

abbrev pub is_slash : ℕ → Bool
is_slash c = c == b'/'

-- `.replace(/\/+$/, "")`
unfoldable pub strip_slashes : Text → Text
unfolding drop_tail
strip_slashes = drop_tail is_slash

abbrev pub default_url : Text
default_url = codes "https://duckgc.com"

unfoldable pub base_url : Config → Text
unfolding strip_slashes
base_url c = strip_slashes (setting_or default_url c.base_url)

unfoldable pub base_args : Config → List Text
unfolding base_url same
base_args c = if same (base_url c) default_url then [] else codes "--base" ∷ base_url c ∷ []

-- `\w`, without the flags that widen it.
unfoldable pub is_word : ℕ → Bool
is_word c =
    (leb b'a' c && leb c b'z')
    || (leb b'A' c && leb c b'Z')
    || (leb b'0' c && leb c b'9')
    || c == b'_'

-- The class that `/[^\w@%+=:,./-]/` negates.
is_plain : ℕ → Bool
unfolding is_word contains
is_plain c = is_word c || contains c (codes "@%+=:,./-")

pub all_plain : Text → Bool
unfolding is_plain
all_plain [] = true
all_plain (c ∷ s) = is_plain c && all_plain s

-- `s.replace(/'/g, `'\''`)`
escape_quotes : Text → Text
escape_quotes [] = []
escape_quotes (c ∷ s) = if c == 39 then 39 ∷ 92 ∷ 39 ∷ 39 ∷ escape_quotes s else c ∷ escape_quotes s

unfoldable pub quote : Text → Text
unfolding all_plain escape_quotes
quote s = if all_plain s then s else 39 ∷ escape_quotes s ++ 39 ∷ []

unfoldable pub shell_quote : List Text → Text
unfolding quote join
shell_quote parts = join (codes " ") (map quote parts)

-- The line that `runInTerminal` sends.
unfoldable pub command_line : Text → Text → List Text → Text
unfolding shell_quote
command_line path cwd args =
    codes "cd " ++ (shell_quote (cwd ∷ []) ++ (codes " && " ++ shell_quote (path ∷ args)))
