-- ===== src/Editor/Page/Synced.antt =====
-- The editors of a page always show the current settings, and their textareas the documents.
use rubber_duck.Prelude.{
  true, false, Option, none, some, List, [], ◌∷◌, ◌≡◌, refl, sym, ◌∙◌, arith, Text, All,
  Option-cases, inl, inr, replicate,
}
use rubber_duck.Json.{truthy}
use rubber_duck.Number.{ℤ, pos, negsuc}
use rubber_duck.Editor.Settings.{Settings}
use rubber_duck.Editor.Settings.Bounds.{InRange, IsBounded}
use rubber_duck.Editor.Panel.{sync_panel}
use rubber_duck.Editor.CodeMirror.{
  Slot, keys, nums, font, tab, wrap, Ext, font_theme, tab_width, indent_unit, initial, reconfigured,
  CodeMirror, Entry,
}
use rubber_duck.Editor.Page.{
  is_inherited, grammar, lower_name, keymap_ext, line_numbers_ext, wrap_ext, tab_ext, Textarea,
  entries, entry_list, effects, Editor, Area, mount, Page,
}

abbrev pub tab_content : ℤ → List Ext
tab_content (pos n) = tab_width (pos n) ∷ indent_unit (replicate n 32) ∷ []
tab_content (negsuc n) = []

-- What each compartment holds under the settings.
abbrev pub expected : Settings → Slot → List Ext
expected s keys = keymap_ext (truthy s.vim)
expected s nums = line_numbers_ext (truthy s.relative_lines)
expected s font = font_theme s.font_size ∷ []
expected s tab = tab_content s.tab_size
expected s wrap = wrap_ext (truthy s.line_wrap)

tab_ext-eq : (z : ℤ) → InRange 1 8 z → tab_ext z ≡ some (tab_content z)
tab_ext-eq (pos n) h = refl
tab_ext-eq (negsuc n) h = absurd h

-- The effects of `applySettings` where the tab size is in range.
abbrev pub all_effects : Settings → List (Slot × List Ext)
all_effects s =
    (font, font_theme s.font_size ∷ [])
    ∷ (tab, tab_content s.tab_size)
    ∷ (wrap, wrap_ext (truthy s.line_wrap))
    ∷ (keys, keymap_ext (truthy s.vim))
    ∷ (nums, line_numbers_ext (truthy s.relative_lines))
    ∷ []

pub effects-eq : (s : Settings) → IsBounded s → effects s ≡ some (all_effects s)
unfolding effects
effects-eq s b = rw (tab_ext-eq s.tab_size b.tab) refl

pub effects-expected :
    (s : Settings) (slot : Slot) (old : List Ext)
    → reconfigured slot (all_effects s) old ≡ expected s slot
unfolding reconfigured
effects-expected s keys old = refl
effects-expected s nums old = refl
effects-expected s font old = refl
effects-expected s tab old = refl
effects-expected s wrap old = refl

-- A language whose grammar can be looked up.
abbrev pub IsSupported : Textarea → Type 0
IsSupported t = is_inherited (lower_name t.language) ≡ false

grammar-none : (t : Text) → grammar t ≡ none → is_inherited t ≡ true
unfolding grammar
grammar-none t e = ground arith

grammar-total : (t : Text) → is_inherited t ≡ false → (es : List Ext) × (grammar t ≡ some es)
grammar-total t h = elim (Option-cases (grammar t)) [
  | inl e ↦ absurd (ground (arith, grammar-none t e))
  | inr found ↦ found
]

entries-eq :
    (s : Settings) (t : Textarea) (lang : List Ext)
    → IsBounded s
    → grammar (lower_name t.language) ≡ some lang
    → entries s t ≡ some (entry_list s t lang (tab_content s.tab_size))
unfolding entries
entries-eq s t lang b e = rw (e, tab_ext-eq s.tab_size b.tab) refl

entries-expected :
    (s : Settings) (t : Textarea) (lang : List Ext) (slot : Slot)
    → initial slot (entry_list s t lang (tab_content s.tab_size)) ≡ expected s slot
unfolding initial
entries-expected s t lang keys = refl
entries-expected s t lang nums = refl
entries-expected s t lang font = refl
entries-expected s t lang tab = refl
entries-expected s t lang wrap = refl

module _ (cm : CodeMirror) where
  open cm use {doc, content}

  -- An editor that shows the settings, in its view and in its panel.
  pub record IsSynced (s : Settings) (ed : Editor cm) : Type 0 where
    pub view : (slot : Slot) → content ed.view slot ≡ expected s slot
    pub panel : ed.panel ≡ sync_panel s

  -- An area with an editor: the editor shows the settings, the textarea holds the document, is hidden
  -- and counts as mounted.
  pub record IsMounted (s : Settings) (t : Textarea) (ed : Editor cm) : Type 0 where
    pub synced : IsSynced s ed
    pub mirrors : t.value ≡ doc ed.view
    pub hidden : t.shown ≡ false
    pub marked : t.mounted ≡ true

  abbrev pub EditorFits : Settings → Textarea → Option (Editor cm) → Type 0
  EditorFits s t none = Unit
  EditorFits s t (some ed) = IsMounted s t ed

  pub record AreaFits (s : Settings) (a : Area cm) : Type 0 where
    pub editor : EditorFits s a.textarea a.editor
    pub supported : IsSupported a.textarea

  pub record IsConsistent (p : Page cm) : Type 0 where
    pub bounded : IsBounded p.settings
    pub areas : All (AreaFits p.settings) p.areas

  pub mount-fits :
      (s : Settings) (t : Textarea)
      → IsBounded s
      → IsSupported t
      → t.mounted ≡ true
      → (a : Area cm) × (mount cm s t ≡ some a) × AreaFits s a
  mount-fits s t b h m =
      let (lang, e) = grammar-total (lower_name t.language) h in
      let es : List Entry = entry_list s t lang (tab_content s.tab_size) in
      (
        record {
          textarea = record t { shown = false };
          editor = some (record { view = cm.create t.value es; panel = sync_panel s });
        },
        unfold mount in rw (entries-eq s t lang b e) refl,
        record {
          editor = record {
            synced = record {
              view = λ slot. cm.content-create t.value es slot ∙ entries-expected s t lang slot;
              panel = refl;
            };
            mirrors = sym (cm.doc-create t.value es);
            hidden = refl;
            marked = m;
          };
          supported = h;
        },
      )
