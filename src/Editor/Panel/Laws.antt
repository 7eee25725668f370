-- ===== src/Editor/Panel/Laws.antt =====
-- What the panel does to settings that the user does not touch.
use rubber_duck.Prelude.{
  true, [], ◌≡◌, ◌⊎◌, inl, inr, refl, arith, Text, codes, same_iff, Bool-cases, if◌then◌else◌,
}
use rubber_duck.Json.{Json, truthy}
use rubber_duck.Number.{ℤ, pos, or_default, parse_int, show_int}
use rubber_duck.Number.RoundTrip.{parse_int-show_int}
use rubber_duck.Editor.Settings.{Settings, clamp}
use rubber_duck.Editor.Settings.Bounds.{InRange, IsBounded, clamp-InRange, clamp-InRange_self}
use rubber_duck.Editor.Settings.Stored.{or_default-given}
use rubber_duck.Editor.Panel.{Panel, is_option, select_value, sync_panel, read_panel}

-- What the panel reads back of a tab size: 4 if the select does not offer it.
abbrev pub read_tab : ℤ → ℤ
read_tab z = if is_option (show_int z) then z else pos 4

font_read :
    (z : ℤ)
    → InRange 10 24 z
    → clamp (or_default (parse_int (show_int z)) (pos 14)) (pos 10) (pos 24) ≡ z
font_read z h =
    rw
      (
        parse_int-show_int z,
        or_default-given z (pos 14) 10 24 (omega arith) h,
        clamp-InRange_self z 10 24 h,
      )
      refl

nothing_read : or_default (parse_int []) (pos 4) ≡ pos 4
unfolding or_default parse_int
nothing_read = refl

tab_read :
    (z : ℤ)
    → InRange 1 8 z
    → or_default (parse_int (select_value (show_int z))) (pos 4) ≡ read_tab z
tab_read z h = elim (Bool-cases (is_option (show_int z))) [
  | inl e ↦ rw e (rw (parse_int-show_int z, or_default-given z (pos 4) 1 8 (omega arith) h) refl)
  | inr e ↦ rw e nothing_read
]

read_panel_lem :
    (s : Settings)
    → read_panel (sync_panel s) ≡ record {
      font_size = clamp (or_default (parse_int (show_int s.font_size)) (pos 14)) (pos 10) (pos 24);
      tab_size = or_default (parse_int (select_value (show_int s.tab_size))) (pos 4);
      line_wrap = Json.bool (truthy s.line_wrap);
      vim = Json.bool (truthy s.vim);
      relative_lines = Json.bool (truthy s.relative_lines);
    }
unfolding read_panel sync_panel
read_panel_lem s = refl

-- The panel that shows the settings is read as: the font size as it is, the tab size if the select
-- offers it and 4 if not, and each switch by its truth.
pub read_panel-sync_panel :
    (s : Settings)
    → IsBounded s
    → read_panel (sync_panel s) ≡ record {
      font_size = s.font_size;
      tab_size = read_tab s.tab_size;
      line_wrap = Json.bool (truthy s.line_wrap);
      vim = Json.bool (truthy s.vim);
      relative_lines = Json.bool (truthy s.relative_lines);
    }
read_panel-sync_panel s b =
    rw (read_panel_lem, font_read s.font_size b.font, tab_read s.tab_size b.tab) refl

-- What a browser's select can hold: one of its options, or nothing.
abbrev IsChoice : Text → Type 0
IsChoice t = (is_option t ≡ true) ⊎ (t ≡ [])

abbrev pub IsShown : Panel → Type 0
IsShown p = IsChoice p.tab

is_option-cases :
    (t : Text) → is_option t ≡ true → (t ≡ codes "2") ⊎ (t ≡ codes "4") ⊎ (t ≡ codes "8")
unfolding is_option
is_option-cases t h =
    ground (arith, same_iff t (codes "2"), same_iff t (codes "4"), same_iff t (codes "8"))

offered_tab : (t : Text) → IsChoice t → InRange 1 8 (or_default (parse_int t) (pos 4))
unfolding or_default parse_int
offered_tab t (inr e) = rw e (omega arith)
offered_tab t (inl h) = elim (is_option-cases t h) [
  | inl e ↦ rw e (omega arith)
  | inr (inl e) ↦ rw e (omega arith)
  | inr (inr e) ↦ rw e (omega arith)
]

-- Whatever the user enters, the settings that the panel gives have their numbers in range.
pub read_panel-IsBounded : (p : Panel) → IsShown p → IsBounded (read_panel p)
unfolding read_panel
read_panel-IsBounded p h = record {
  font = clamp-InRange (or_default (parse_int p.font) (pos 14)) 10 24 (omega arith);
  tab = offered_tab p.tab h;
}

select_value-IsChoice : (t : Text) → IsChoice (select_value t)
select_value-IsChoice t = elim (Bool-cases (is_option t)) [
  | inl e ↦ rw e (inl e)
  | inr e ↦ rw e (inr refl)
]

pub sync_panel-IsShown : (s : Settings) → IsShown (sync_panel s)
unfolding sync_panel
sync_panel-IsShown s = select_value-IsChoice (show_int s.tab_size)
