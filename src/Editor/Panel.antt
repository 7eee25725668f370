-- ===== src/Editor/Panel.antt =====
-- editor/src/main.js: the settings panel. Its controls hold what the browser keeps for them: the text
-- of the number input, the value of the chosen option of the select (empty if none is chosen), and
-- whether each box is checked.
pub mod Laws
use rubber_duck.Prelude.{Bool, ◌||◌, List, Text, codes, same, if◌then◌else◌, []}
use rubber_duck.Json.{Json, truthy}
use rubber_duck.Number.{ℤ, pos, or_default, parse_int, show_int}
use rubber_duck.Editor.Settings.{Settings, clamp, defaults}

pub record Panel : Type 0 where
  pub font : Text
  pub tab : Text
  pub wrap : Bool
  pub vim : Bool
  pub rel : Bool

-- The options that `buildPanel` gives the select.
unfoldable pub is_option : Text → Bool
unfolding same
is_option t = same t (codes "2") || same t (codes "4") || same t (codes "8")

-- Assigning the value of a select chooses the option of that value, if there is one.
abbrev pub select_value : Text → Text
select_value t = if is_option t then t else []

-- `syncPanel`
unfoldable pub sync_panel : Settings → Panel
unfolding show_int truthy is_option
sync_panel s = record {
  font = show_int s.font_size;
  tab = select_value (show_int s.tab_size);
  wrap = truthy s.line_wrap;
  vim = truthy s.vim;
  rel = truthy s.relative_lines;
}

-- The settings that `onChange` makes.
unfoldable pub read_panel : Panel → Settings
unfolding clamp or_default parse_int
read_panel p = record {
  font_size = clamp (or_default (parse_int p.font) (pos 14)) (pos 10) (pos 24);
  tab_size = or_default (parse_int p.tab) (pos 4);
  line_wrap = Json.bool p.wrap;
  vim = Json.bool p.vim;
  relative_lines = Json.bool p.rel;
}
