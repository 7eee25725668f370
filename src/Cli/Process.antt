-- ===== src/Cli/Process.antt =====
-- vscode-extension/src/cli.ts: `execDuck`, from what `execFile` hands to its callback.
use rubber_duck.Prelude.{
  Bool, false, Option, none, some, [], ◌∷◌, ◌++◌, if◌then◌else◌, Text, codes, same, trim,
}

pub record ExecError : Type 0 where
  pub code : Option Text
  pub message : Text

pub record Exit : Type 0 where
  pub error : Option ExecError
  pub stdout : Text
  pub stderr : Text

pub data Outcome : Type 0 where
  resolved : Text → Outcome
  rejected : Text → Outcome

-- `a || b` of two texts.
abbrev pub or_text : Text → Text → Text
or_text [] b = b
or_text (c ∷ a) b = c ∷ a

is_missing : Option Text → Bool
unfolding same
is_missing none = false
is_missing (some code) = same code (codes "ENOENT")

settle : Text → Exit → Option ExecError → Outcome
unfolding is_missing trim
settle path x none = resolved x.stdout
settle path x (some e) =
    if is_missing e.code
    then rejected (
        codes "duck CLI not found ("
        ++ (path ++ codes ") — install it or set the \"duck.path\" setting"))
    else rejected (trim (or_text x.stderr (or_text x.stdout e.message)))

-- The first argument is `duckPath()`.
unfoldable pub exec_duck : Text → Exit → Outcome
unfolding settle
exec_duck path x = settle path x x.error
