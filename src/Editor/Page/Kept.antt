-- ===== src/Editor/Page/Kept.antt =====
-- The script's operations keep the editors in step with the settings, and none of them throws.
use rubber_duck.Prelude.{
  ℕ, zero, suc, Bool, true, false, Option, none, some, List, [], ◌∷◌, ◌≡◌, refl, sym, ap, ◌∙◌,
  arith, Text, All, Bool-cases, inl, inr, if◌then◌else◌,
}
use rubber_duck.Json.{Json}
use rubber_duck.Editor.Settings.{Settings, save_settings}
use rubber_duck.Editor.Settings.Bounds.{IsBounded}
use rubber_duck.Editor.Panel.{Panel, read_panel}
use rubber_duck.Editor.Panel.Laws.{IsShown, read_panel-IsBounded}
use rubber_duck.Editor.CodeMirror.{CodeMirror}
use rubber_duck.Editor.Page.{
  Textarea, Editor, Area, visit, mobile_notice, init, Page, reconfigure, apply_to, apply_settings,
  on_change, edit_area, submit_area, edited, flushed,
}
use rubber_duck.Editor.Page.Synced.{
  all_effects, effects-eq, effects-expected, IsSupported, EditorFits, AreaFits, IsConsistent,
  mount-fits,
}
use rubber_duck.Editor.Page.Visit.{marked, visit_mounted, visit_wide, visit_notice, visit_plain}

if_same : {A : Type 0} (b : Bool) (x y : A) → x ≡ y → (if b then x else y) ≡ y
if_same true x y e = e
if_same false x y e = refl

module _ (cm : CodeMirror) where
  open cm use {doc, content}

  -- An unmounted area has no editor.
  unmounted-fits :
      (s : Settings) (t u : Textarea) (o : Option (Editor cm))
      → EditorFits cm s t o
      → t.mounted ≡ false
      → EditorFits cm s u o
  unmounted-fits s t u none h m = tt
  unmounted-fits s t u (some ed) h m = absurd (ground arith)

  mobile_notice-language : (t : Textarea) → IsSupported t → IsSupported (mobile_notice cm t)
  unfolding mobile_notice
  mobile_notice-language t h = h

  unmounted_visit-fits :
      (mobile : Bool) (s : Settings) (a : Area cm)
      → IsBounded s
      → AreaFits cm s a
      → a.textarea.mounted ≡ false
      → (a' : Area cm) × (visit cm mobile s a ≡ some a') × AreaFits cm s a'
  unmounted_visit-fits false s a b h m =
      let (a', e, fits) = mount-fits cm s (marked a.textarea) b h.supported refl in
      (a', visit_wide cm s a m ∙ e, fits)
  unmounted_visit-fits true s a b h m = elim (Bool-cases a.textarea.mobile_notice) [
    | inl n ↦ (
      record { textarea = mobile_notice cm (marked a.textarea); editor = a.editor },
      visit_notice cm s a m n,
      record {
        editor =
            unmounted-fits s a.textarea (mobile_notice cm (marked a.textarea)) a.editor h.editor m;
        supported = mobile_notice-language (marked a.textarea) h.supported;
      },
    )
    | inr n ↦ (
      record { textarea = marked a.textarea; editor = a.editor },
      visit_plain cm s a m n,
      record {
        editor = unmounted-fits s a.textarea (marked a.textarea) a.editor h.editor m;
        supported = h.supported;
      },
    )
  ]

  visit-fits :
      (mobile : Bool) (s : Settings) (a : Area cm)
      → IsBounded s
      → AreaFits cm s a
      → (a' : Area cm) × (visit cm mobile s a ≡ some a') × AreaFits cm s a'
  visit-fits mobile s a b h = elim (Bool-cases a.textarea.mounted) [
    | inl m ↦ (a, visit_mounted cm s a mobile m, h)
    | inr m ↦ unmounted_visit-fits mobile s a b h m
  ]

  pub init-fits :
      (mobile : Bool) (s : Settings) (areas : List (Area cm))
      → IsBounded s
      → All (AreaFits cm s) areas
      → (areas' : List (Area cm)) × (init cm mobile s areas ≡ some areas')
        × All (AreaFits cm s) areas'
  unfolding init
  init-fits mobile s [] b h = ([], refl, tt)
  init-fits mobile s (a ∷ areas) b (h, hs) =
      let (a', e, fits) = visit-fits mobile s a b h in
      let (areas', es, all_fit) = init-fits mobile s areas b hs in
      (a' ∷ areas', unfold init in rw (e, es) refl, (fits, all_fit))

  -- New settings reach every editor.
  reconfigure-fits :
      (old new : Settings) (t : Textarea) (o : Option (Editor cm))
      → EditorFits cm old t o
      → EditorFits cm new t (reconfigure cm (all_effects new) new o)
  reconfigure-fits old new t none h = tt
  reconfigure-fits old new t (some ed) h = record {
    synced = record {
      view = λ slot.
          cm.content-dispatch ed.view (all_effects new) slot
          ∙ effects-expected new slot (content ed.view slot);
      panel = refl;
    };
    mirrors = h.mirrors ∙ sym (cm.doc-dispatch ed.view (all_effects new));
    hidden = h.hidden;
    marked = h.marked;
  }

  apply_to-fits :
      (old new : Settings) (areas : List (Area cm))
      → All (AreaFits cm old) areas
      → All (AreaFits cm new) (apply_to cm (all_effects new) new areas)
  unfolding apply_to
  apply_to-fits old new [] h = tt
  apply_to-fits old new (a ∷ areas) (h, hs) = (
    record {
      editor = reconfigure-fits old new a.textarea a.editor h.editor;
      supported = h.supported;
    },
    apply_to-fits old new areas hs,
  )

  change_eq :
      (stringify : Json → Text) (panel : Panel) (p : Page cm)
      → IsBounded (read_panel panel)
      → on_change cm stringify panel p
        ≡ some (record {
          settings = read_panel panel;
          storage = save_settings stringify (read_panel panel) p.storage;
          areas = apply_to cm (all_effects (read_panel panel)) (read_panel panel) p.areas;
        })
  unfolding on_change apply_settings
  change_eq stringify panel p b = rw (effects-eq (read_panel panel) b) refl

  -- A change of a control succeeds, makes the settings what the panel says, stores them, and brings
  -- every editor and every panel in step.
  pub on_change-fits :
      (stringify : Json → Text) (panel : Panel) (p : Page cm)
      → IsShown panel
      → IsConsistent cm p
      → (q : Page cm) × (on_change cm stringify panel p ≡ some q)
        × IsConsistent cm q
        × (q.settings ≡ read_panel panel)
        × (q.storage ≡ save_settings stringify (read_panel panel) p.storage)
  on_change-fits stringify panel p shown c =
      let s : Settings = read_panel panel in
      let b = read_panel-IsBounded panel shown in
      (
        record {
          settings = s;
          storage = save_settings stringify s p.storage;
          areas = apply_to cm (all_effects s) s p.areas;
        },
        change_eq stringify panel p b,
        record { bounded = b; areas = apply_to-fits p.settings s p.areas c.areas },
        refl,
        refl,
      )

  edited-fits :
      (s : Settings) (d : Text) (t : Textarea) (o : Option (Editor cm))
      → EditorFits cm s t o
      → IsSupported t
      → AreaFits cm s (edited cm d t o)
  edited-fits s d t none h k = record { editor = tt; supported = k }
  edited-fits s d t (some ed) h k = record {
    editor = record {
      synced = record {
        view = λ slot. cm.content-edit ed.view d slot ∙ h.synced.view slot;
        panel = h.synced.panel;
      };
      mirrors = refl;
      hidden = h.hidden;
      marked = h.marked;
    };
    supported = k;
  }

  pub edit_area-fits :
      (s : Settings) (i : ℕ) (d : Text) (areas : List (Area cm))
      → All (AreaFits cm s) areas
      → All (AreaFits cm s) (edit_area cm i d areas)
  unfolding edit_area
  edit_area-fits s i d [] h = tt
  edit_area-fits s zero d (a ∷ areas) (h, hs) =
      (edited-fits s d a.textarea a.editor h.editor h.supported, hs)
  edit_area-fits s (suc i) d (a ∷ areas) (h, hs) = (h, edit_area-fits s i d areas hs)

  -- Submitting changes nothing: the textarea already holds the document.
  flushed-eq :
      (s : Settings) (t : Textarea) (o : Option (Editor cm))
      → EditorFits cm s t o
      → flushed cm t o ≡ t
  flushed-eq s t none h = refl
  flushed-eq s t (some ed) h =
      if_same t.in_form (record t { value = doc ed.view }) t
        (λ j. record t { value = sym h.mirrors j })

  pub submit_area-eq :
      (s : Settings) (i : ℕ) (areas : List (Area cm))
      → All (AreaFits cm s) areas
      → submit_area cm i areas ≡ areas
  unfolding submit_area
  submit_area-eq s i [] h = refl
  submit_area-eq s zero (a ∷ areas) (h, hs) =
      ap (λ t. record a { textarea = t } ∷ areas) (flushed-eq s a.textarea a.editor h.editor)
  submit_area-eq s (suc i) (a ∷ areas) (h, hs) = ap (a ∷◌) (submit_area-eq s i areas hs)
