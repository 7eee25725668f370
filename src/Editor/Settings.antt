-- ===== src/Editor/Settings.antt =====
-- editor/src/main.js: the settings, and how they are read from and written to local storage.
-- `JSON.parse` and `JSON.stringify` are arguments. Keys that nothing reads are left out of the model.
pub mod Bounds
pub mod Stored
use rubber_duck.Prelude.{
  ℕ, Bool, true, false, Option, none, some, List, [], ◌∷◌, if◌then◌else◌, Text, codes,
}
use rubber_duck.Json.{Json, Fields, get_field, to_text}
use rubber_duck.Number.{ℤ, pos, negsuc, min, max, or_default, parse_int, show_int}

-- The switches come from JSON and are only ever tested for truth.
pub record Settings : Type 0 where
  pub font_size : ℤ
  pub tab_size : ℤ
  pub line_wrap : Json
  pub vim : Json
  pub relative_lines : Json

-- `clamp(n, lo, hi)`
unfoldable pub clamp : ℤ → ℤ → ℤ → ℤ
unfolding min max
clamp n lo hi = min hi (max lo n)

abbrev pub defaults : Settings
defaults = record {
  font_size = pos 14;
  tab_size = pos 4;
  line_wrap = Json.bool false;
  vim = Json.bool false;
  relative_lines = Json.bool false;
}

abbrev font_key : Text
font_key = codes "fontSize"

abbrev tab_key : Text
tab_key = codes "tabSize"

abbrev wrap_key : Text
wrap_key = codes "lineWrap"

abbrev vim_key : Text
vim_key = codes "vim"

abbrev relative_key : Text
relative_key = codes "relativeLines"

abbrev over : Json → Option Json → Json
over default none = default
over default (some v) = v

-- `{ ...DEFAULTS, ...v }` at one of the keys. Only an object has them as properties of its own.
spread : Text → Json → Json → Json
unfolding get_field
spread key default (Json.obj fs) = over default (get_field key fs)
spread key default _ = default

abbrev pub read_number : Option Text → ℤ → ℤ → ℤ → Option ℤ
read_number none default lo hi = none
read_number (some t) default lo hi = some (clamp (or_default (parse_int t) default) lo hi)

-- `clamp(parseInt(v, 10) || default, lo, hi)`; `none` where the conversion to text throws.
unfoldable pub clamped : Json → ℤ → ℤ → ℤ → Option ℤ
unfolding to_text parse_int or_default clamp
clamped v default lo hi = read_number (to_text v) default lo hi

abbrev pub both : Option ℤ → Option ℤ → Json → Json → Json → Settings
both (some font) (some tab) wrap vim relative = record {
  font_size = font;
  tab_size = tab;
  line_wrap = wrap;
  vim = vim;
  relative_lines = relative;
}
both _ _ wrap vim relative = defaults

-- The settings in a parsed value; the defaults where reading them throws.
unfoldable pub from_json : Json → Settings
unfolding spread clamped
from_json v =
    both (clamped (spread font_key (Json.num (codes "14")) v) (pos 14) (pos 10) (pos 24))
      (clamped (spread tab_key (Json.num (codes "4")) v) (pos 4) (pos 1) (pos 8))
      (spread wrap_key (Json.bool false) v) (spread vim_key (Json.bool false) v)
      (spread relative_key (Json.bool false) v)

-- Local storage: whether access to it throws, and the item under the key.
pub record Storage : Type 0 where
  pub blocked : Bool
  pub item : Option Text

-- `getItem(…) || "{}"`
abbrev pub item_or_empty : Option Text → Text
item_or_empty none = codes "{}"
item_or_empty (some []) = codes "{}"
item_or_empty (some (c ∷ t)) = c ∷ t

abbrev pub parsed : Option Json → Settings
parsed none = defaults
parsed (some v) = from_json v

unfoldable pub load_settings : (Text → Option Json) → Storage → Settings
unfolding from_json
load_settings parse st = if st.blocked then defaults else parsed (parse (item_or_empty st.item))

unfoldable pub to_json : Settings → Json
unfolding show_int
to_json s = Json.obj (
    Fields.field font_key (Json.num (show_int s.font_size)) (
      Fields.field tab_key (Json.num (show_int s.tab_size)) (
        Fields.field wrap_key s.line_wrap
          (Fields.field vim_key s.vim (Fields.field relative_key s.relative_lines Fields.end)))))

-- Where storage cannot be used, nothing is kept.
unfoldable pub save_settings : (Json → Text) → Settings → Storage → Storage
unfolding to_json
save_settings stringify s st =
    if st.blocked then st else record st { item = some (stringify (to_json s)) }
