-- ===== src/Editor/Settings/Stored.antt =====
-- Settings survive the page: what is saved is loaded again.
use rubber_duck.Prelude.{
  false, Option, some, ◌≡◌, ◌≢◌, refl, ℕ, zero, suc, ◌≤◌, arith, Text, [], ◌∷◌, codes,
}
use rubber_duck.Json.{Json}
use rubber_duck.Number.{ℤ, pos, negsuc, or_default, parse_int, show_int}
use rubber_duck.Number.RoundTrip.{parse_int-show_int}
use rubber_duck.Editor.Settings.{
  Settings, clamp, clamped, spread, both, from_json, to_json, Storage, item_or_empty, parsed,
  load_settings, save_settings,
}
use rubber_duck.Editor.Settings.Bounds.{InRange, IsBounded, clamp-InRange_self}

pub or_default-given : (z d : ℤ) (lo hi : ℕ) → 1 ≤ lo → InRange lo hi z → or_default (some z) d ≡ z
unfolding or_default
or_default-given (pos zero) d lo hi p (h, _) = absurd (omega arith)
or_default-given (pos (suc n)) d lo hi p h = refl
or_default-given (negsuc n) d lo hi p h = absurd h

clamped_num :
    (t : Text) (d lo hi : ℤ)
    → clamped (Json.num t) d lo hi ≡ some (clamp (or_default (parse_int t) d) lo hi)
unfolding clamped
clamped_num t d lo hi = refl

clamped-show_int :
    (z d : ℤ) (lo hi : ℕ)
    → 1 ≤ lo
    → InRange lo hi z
    → clamped (Json.num (show_int z)) d (pos lo) (pos hi) ≡ some z
clamped-show_int z d lo hi p h =
    rw
      (
        clamped_num,
        parse_int-show_int z,
        or_default-given z d lo hi p h,
        clamp-InRange_self z lo hi h,
      )
      refl

-- The five keys of a saved object are read back.
spread-to_json :
    (s : Settings) (default : Json)
    → (spread (codes "fontSize") default (to_json s) ≡ Json.num (show_int s.font_size))
      × (spread (codes "tabSize") default (to_json s) ≡ Json.num (show_int s.tab_size))
      × (spread (codes "lineWrap") default (to_json s) ≡ s.line_wrap)
      × (spread (codes "vim") default (to_json s) ≡ s.vim)
      × (spread (codes "relativeLines") default (to_json s) ≡ s.relative_lines)
unfolding spread
spread-to_json s default = unfold to_json in (refl, refl, refl, refl, refl)

from_json_lem :
    (v : Json)
    → from_json v
      ≡ both
          (clamped (spread (codes "fontSize") (Json.num (codes "14")) v) (pos 14) (pos 10) (pos 24))
          (clamped (spread (codes "tabSize") (Json.num (codes "4")) v) (pos 4) (pos 1) (pos 8))
          (spread (codes "lineWrap") (Json.bool false) v)
          (spread (codes "vim") (Json.bool false) v)
          (spread (codes "relativeLines") (Json.bool false) v)
unfolding from_json
from_json_lem v = refl

from_json-to_json : (s : Settings) → IsBounded s → from_json (to_json s) ≡ s
from_json-to_json s b =
    let (font, _, _, _, _) = spread-to_json s (Json.num (codes "14")) in
    let (_, tab, _, _, _) = spread-to_json s (Json.num (codes "4")) in
    let (_, _, wrap, vim, relative) = spread-to_json s (Json.bool false) in
    rw (
      from_json_lem,
      font,
      tab,
      wrap,
      vim,
      relative,
      clamped-show_int s.font_size (pos 14) 10 24 (omega arith) b.font,
      clamped-show_int s.tab_size (pos 4) 1 8 (omega arith) b.tab,
    )

saved :
    (stringify : Json → Text) (s : Settings) (st : Storage)
    → st.blocked ≡ false
    → save_settings stringify s st
      ≡ record { blocked = st.blocked; item = some (stringify (to_json s)) }
unfolding save_settings
saved stringify s st usable = unfold save_settings in rw usable refl

loaded :
    (parse : Text → Option Json) (st : Storage)
    → st.blocked ≡ false
    → load_settings parse st ≡ parsed (parse (item_or_empty st.item))
unfolding load_settings
loaded parse st usable = rw usable refl

item_given : (t : Text) → t ≢ [] → item_or_empty (some t) ≡ t
item_given [] ne = absurd (ne refl)
item_given (c ∷ t) ne = refl

-- Where storage can be used and JSON reads back what it writes of these settings, loading after
-- saving gives the settings that were saved, if their numbers are in range.
pub load_settings-save_settings :
    (parse : Text → Option Json) (stringify : Json → Text) (s : Settings) (st : Storage)
    → st.blocked ≡ false
    → stringify (to_json s) ≢ []
    → parse (stringify (to_json s)) ≡ some (to_json s)
    → IsBounded s
    → load_settings parse (save_settings stringify s st) ≡ s
load_settings-save_settings parse stringify s st usable ne back b =
    rw
      (
        saved stringify s st usable,
        loaded parse (record { blocked = st.blocked; item = some (stringify (to_json s)) }) usable,
        item_given (stringify (to_json s)) ne,
        back,
      )
      (from_json-to_json s b)
