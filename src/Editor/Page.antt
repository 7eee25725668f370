-- ===== src/Editor/Page.antt =====
-- editor/src/main.js: mounting editors on a page's textareas. An area is a textarea with the editor
-- mounted on it, if there is one; the script's list `editors` is the list of those editors. What
-- throws gives `none`.
pub mod Synced
pub mod Visit
pub mod Kept
pub mod Twice
use rubber_duck.Prelude.{
  ℕ, zero, suc, ◌+◌, ◌-◌, Bool, true, false, ◌&&◌, Option, none, some, List, [], ◌∷◌, map, leb,
  ◌==◌, if◌then◌else◌, Text, codes, same, replicate,
}
use rubber_duck.Json.{Json, truthy}
use rubber_duck.Number.{ℤ, pos, negsuc}
use rubber_duck.Editor.Settings.{Settings, Storage, save_settings}
use rubber_duck.Editor.Panel.{Panel, sync_panel, read_panel}
use rubber_duck.Editor.CodeMirror.{
  Slot, keys, nums, font, tab, wrap, Grammar, go, python, cpp, javascript, markdown, Ext, vim,
  indent_with_tab, relative_line_numbers, basic_setup, one_dark, phosphor, line_wrapping, mirror,
  language, font_theme, tab_width, indent_unit, fixed_height, Entry, compartment, plain, CodeMirror,
}

-- `toLowerCase` of a character: the ASCII capitals, and the Kelvin sign, the one other character
-- that becomes an ASCII letter alone.
lower : ℕ → ℕ
lower c = if leb b'A' c && leb c b'Z' then c + 32 else if c == 0x212a then b'k' else c

-- Names that every object inherits and that are in lower case: `LANGUAGES[…]` finds them, and using
-- what it finds as a language throws.
abbrev pub is_inherited : Text → Bool
is_inherited t = if same t (codes "constructor") then true else same t (codes "__proto__")

-- The grammar for a lower-case name; any other name gets none.
grammar : Text → Option (List Ext)
unfolding same
grammar t =
    if same t (codes "go")
    then some (language go ∷ [])
    else if same t (codes "python")
    then some (language python ∷ [])
    else if same t (codes "c")
    then some (language cpp ∷ [])
    else if same t (codes "cpp")
    then some (language cpp ∷ [])
    else if same t (codes "javascript")
    then some (language javascript ∷ [])
    else if same t (codes "js")
    then some (language javascript ∷ [])
    else if same t (codes "markdown")
    then some (language markdown ∷ [])
    else if same t (codes "md")
    then some (language markdown ∷ [])
    else if is_inherited t
    then none
    else some []

abbrev pub or_nothing : Option Text → Text
or_nothing none = []
or_nothing (some t) = t

unfoldable pub lower_name : Option Text → Text
unfolding lower
lower_name t = map lower (or_nothing t)

-- `keymapExt`
abbrev pub keymap_ext : Bool → List Ext
keymap_ext true = vim ∷ indent_with_tab ∷ []
keymap_ext false = indent_with_tab ∷ []

-- `lineNumbersExt`
abbrev pub line_numbers_ext : Bool → List Ext
line_numbers_ext true = relative_line_numbers ∷ []
line_numbers_ext false = []

abbrev pub wrap_ext : Bool → List Ext
wrap_ext true = line_wrapping ∷ []
wrap_ext false = []

-- `" ".repeat(n)`, which throws for a negative number.
abbrev pub spaces : ℤ → Option Text
spaces (pos n) = some (replicate n 32)
spaces (negsuc n) = none

abbrev tab_with : ℤ → Option Text → Option (List Ext)
tab_with columns none = none
tab_with columns (some unit) = some (tab_width columns ∷ indent_unit unit ∷ [])

abbrev pub tab_ext : ℤ → Option (List Ext)
tab_ext columns = tab_with columns (spaces columns)

-- The number that `formatNumber` shows for line `n` when the cursor is on line `cursor`.
pub shown_number : ℕ → ℕ → ℕ
shown_number n cursor = if n == cursor then n else (if leb cursor n then n - cursor else cursor - n)

abbrev pub height_ext : Option Text → List Ext
height_ext none = []
height_ext (some []) = []
height_ext (some (c ∷ h)) = fixed_height (c ∷ h) ∷ []

pub record Textarea : Type 0 where
  pub language : Option Text
  pub height : Option Text
  pub mobile_notice : Bool
  pub in_form : Bool
  pub mounted : Bool
  pub value : Text
  pub shown : Bool
  pub submit_shown : Bool
  pub notices : ℕ
  pub input_events : ℕ

infixl 5 ◌>>=◌
abbrev pub ◌>>=◌ {ℓ κ} : {A : Type ℓ} {B : Type κ} → Option A → (A → Option B) → Option B
none >>= f = none
some a >>= f = f a

-- The extensions of a new editor, in order, for a grammar and the content of the tab compartment.
abbrev pub entry_list : Settings → Textarea → (lang tabs : List Ext) → List Entry
entry_list s t lang tabs =
    compartment keys (keymap_ext (truthy s.vim))
    ∷ compartment nums (line_numbers_ext (truthy s.relative_lines))
    ∷ plain (basic_setup ∷ [])
    ∷ plain lang
    ∷ plain (one_dark ∷ [])
    ∷ plain (phosphor ∷ [])
    ∷ compartment font (font_theme s.font_size ∷ [])
    ∷ compartment tab tabs
    ∷ compartment wrap (wrap_ext (truthy s.line_wrap))
    ∷ plain (height_ext t.height)
    ∷ plain (mirror ∷ [])
    ∷ []

unfoldable pub entries : Settings → Textarea → Option (List Entry)
unfolding grammar lower_name truthy
entries s t = do
  lang ← grammar (lower_name t.language)
  tabs ← tab_ext s.tab_size
  some (entry_list s t lang tabs)

-- The effects of `applySettings`.
unfoldable pub effects : Settings → Option (List (Slot × List Ext))
unfolding truthy
effects s = do
  tabs ← tab_ext s.tab_size
  some (
      (font, font_theme s.font_size ∷ [])
      ∷ (tab, tabs)
      ∷ (wrap, wrap_ext (truthy s.line_wrap))
      ∷ (keys, keymap_ext (truthy s.vim))
      ∷ (nums, line_numbers_ext (truthy s.relative_lines))
      ∷ [])

module _ (cm : CodeMirror) where
  open cm use {View, create, dispatch, edit, doc}

  pub record Editor : Type 0 where
    pub view : View
    pub panel : Panel

  pub record Area : Type 0 where
    pub textarea : Textarea
    pub editor : Option Editor

  -- `mount`: the textarea is hidden and the editor, with its panel, takes its place.
  unfoldable pub mount : Settings → Textarea → Option Area
  unfolding entries sync_panel
  mount s t = do
    es ← entries s t
    some (record {
      textarea = record t { shown = false };
      editor = some (record { view = create t.value es; panel = sync_panel s });
    })

  -- `mobileNotice`; the submit button is the form's.
  pub mobile_notice : Textarea → Textarea
  mobile_notice t = record t {
    shown = false;
    submit_shown = if t.in_form then false else t.submit_shown;
    notices = t.notices + 1;
  }

  -- The body of the loop of `init`.
  unfoldable pub visit : (mobile : Bool) → Settings → Area → Option Area
  unfolding mobile_notice mount
  visit mobile s a =
      if a.textarea.mounted
      then some a
      else (let t : Textarea = record (a.textarea) { mounted = true } in
          if mobile
          then (if t.mobile_notice
              then some (record { textarea = mobile_notice t; editor = a.editor })
              else some (record { textarea = t; editor = a.editor }))
          else mount s t)

  unfoldable pub init : (mobile : Bool) → Settings → List Area → Option (List Area)
  unfolding visit
  init mobile s [] = some []
  init mobile s (a ∷ areas) = do some ((← visit mobile s a) ∷ (← init mobile s areas))

  -- The page: the module's variable `settings`, the storage and the areas.
  pub record Page : Type 0 where
    pub settings : Settings
    pub storage : Storage
    pub areas : List Area

  abbrev reconfigure : List (Slot × List Ext) → Settings → Option Editor → Option Editor
  reconfigure es s none = none
  reconfigure es s (some ed) = some (record { view = dispatch ed.view es; panel = sync_panel s })

  apply_to : List (Slot × List Ext) → Settings → List Area → List Area
  unfolding sync_panel
  apply_to es s [] = []
  apply_to es s (a ∷ areas) = record a { editor = reconfigure es s a.editor } ∷ apply_to es s areas

  -- `applySettings`, with the new settings in place.
  unfoldable pub apply_settings : (Json → Text) → Page → Option Page
  unfolding effects apply_to save_settings
  apply_settings stringify p = do
    es ← effects p.settings
    some (record p {
      storage = save_settings stringify p.settings p.storage;
      areas = apply_to es p.settings p.areas;
    })

  -- `onChange` of a panel that holds these values.
  unfoldable pub on_change : (Json → Text) → Panel → Page → Option Page
  unfolding read_panel apply_settings
  on_change stringify panel p = apply_settings stringify (record p { settings = read_panel panel })

  -- A change of the document in an editor: the listener copies it and fires an input event.
  abbrev edited : Text → Textarea → Option Editor → Area
  edited d t none = record { textarea = t; editor = none }
  edited d t (some ed) =
      let v = edit ed.view d in
      record {
        textarea = record t { value = doc v; input_events = t.input_events + 1 };
        editor = some (record ed { view = v });
      }

  unfoldable pub edit_area : ℕ → Text → List Area → List Area
  edit_area i d [] = []
  edit_area zero d (a ∷ areas) = edited d a.textarea a.editor ∷ areas
  edit_area (suc i) d (a ∷ areas) = a ∷ edit_area i d areas

  -- The submit listener: the document is copied once more.
  abbrev flushed : Textarea → Option Editor → Textarea
  flushed t none = t
  flushed t (some ed) = if t.in_form then record t { value = doc ed.view } else t

  unfoldable pub submit_area : ℕ → List Area → List Area
  submit_area i [] = []
  submit_area zero (a ∷ areas) = record a { textarea = flushed a.textarea a.editor } ∷ areas
  submit_area (suc i) (a ∷ areas) = a ∷ submit_area i areas
