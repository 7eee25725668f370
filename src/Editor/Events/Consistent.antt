-- ===== src/Editor/Events/Consistent.antt =====
-- What holds through the whole life of a page.
use rubber_duck.Prelude.{false, Option, none, some, List, [], ◌∷◌, map, ◌≡◌, ◌≢◌, refl, Text, All}
use rubber_duck.Json.{Json}
use rubber_duck.Editor.Settings.{Settings, Storage, load_settings, to_json}
use rubber_duck.Editor.Settings.Bounds.{load_settings-IsBounded}
use rubber_duck.Editor.Settings.Stored.{load_settings-save_settings}
use rubber_duck.Editor.Panel.{Panel, read_panel}
use rubber_duck.Editor.Panel.Laws.{IsShown, read_panel-IsBounded}
use rubber_duck.Editor.CodeMirror.{CodeMirror}
use rubber_duck.Editor.Page.{Textarea, Page, on_change}
use rubber_duck.Editor.Page.Synced.{IsSupported, AreaFits, IsConsistent}
use rubber_duck.Editor.Page.Kept.{init-fits, on_change-fits, edit_area-fits, submit_area-eq}
use rubber_duck.Editor.Events.{
  Event, run_script, change, edit, submit, handle, handle_all, open_page,
}

-- The values of a change are such as a panel can hold.
abbrev pub CanHappen : Event → Type 0
CanHappen (change panel) = IsShown panel
CanHappen _ = Unit

module _ (cm : CodeMirror) (stringify : Json → Text) where
  handle-IsConsistent :
      (p : Page cm) (e : Event)
      → CanHappen e
      → IsConsistent cm p
      → (q : Page cm) × (handle cm stringify p e ≡ some q) × IsConsistent cm q
  unfolding handle
  handle-IsConsistent p (run_script mobile) h c =
      let (areas, e, fits) = init-fits cm mobile p.settings p.areas c.bounded c.areas in
      (record p { areas = areas }, rw e refl, record { bounded = c.bounded; areas = fits })
  handle-IsConsistent p (change panel) h c =
      let (q, e, fits, _, _) = on_change-fits cm stringify panel p h c in (q, e, fits)
  handle-IsConsistent p (edit i d) h c = (
    _,
    refl,
    record { bounded = c.bounded; areas = edit_area-fits cm p.settings i d p.areas c.areas },
  )
  handle-IsConsistent p (submit i) h c = (
    _,
    refl,
    record {
      bounded = c.bounded;
      areas = rw (submit_area-eq cm p.settings i p.areas c.areas) c.areas;
    },
  )

  handle_all-IsConsistent :
      (p : Page cm) (es : List Event)
      → All CanHappen es
      → IsConsistent cm p
      → (q : Page cm) × (handle_all cm stringify p es ≡ some q) × IsConsistent cm q
  unfolding handle_all
  handle_all-IsConsistent p [] h c = (p, refl, c)
  handle_all-IsConsistent p (e ∷ es) (h, hs) c =
      let (q, step, fits) = handle-IsConsistent p e h c in
      let (r, steps, all_fit) = handle_all-IsConsistent q es hs fits in
      (r, unfold handle_all in rw (step, steps) refl, all_fit)

  fresh-fits :
      (s : Settings) (ts : List Textarea)
      → All IsSupported ts
      → All (AreaFits cm s) (map (λ t. record { textarea = t; editor = none }) ts)
  fresh-fits s [] h = tt
  fresh-fits s (t ∷ ts) (h, hs) = (record { editor = tt; supported = h }, fresh-fits s ts hs)

-- Whatever local storage holds, nothing throws on a page whose textareas name no inherited property
-- as their language, however often the script runs, controls change, documents are edited and forms
-- are submitted; and afterwards the settings are in range, every editor shows them in all its
-- compartments and in its panel, and its textarea is hidden and holds the editor's document.
pub session-IsConsistent :
    (cm : CodeMirror) (parse : Text → Option Json) (stringify : Json → Text) (st : Storage)
    (ts : List Textarea) (es : List Event)
    → All IsSupported ts
    → All CanHappen es
    → (p : Page cm) × (handle_all cm stringify (open_page cm stringify parse st ts) es ≡ some p)
      × IsConsistent cm p
unfolding open_page
session-IsConsistent cm parse stringify st ts es h k =
    handle_all-IsConsistent cm stringify (open_page cm stringify parse st ts) es k (record {
      bounded = load_settings-IsBounded parse st;
      areas = fresh-fits cm stringify (load_settings parse st) ts h;
    })

-- After a change of a control the settings are what the panel says, and, where storage can be used
-- and JSON reads back what it writes of them, a page opened later loads exactly these.
pub change_persists :
    (cm : CodeMirror) (parse : Text → Option Json) (stringify : Json → Text) (panel : Panel)
    (p : Page cm)
    → IsShown panel
    → IsConsistent cm p
    → p.storage.blocked ≡ false
    → stringify (to_json (read_panel panel)) ≢ []
    → parse (stringify (to_json (read_panel panel))) ≡ some (to_json (read_panel panel))
    → (q : Page cm) × (on_change cm stringify panel p ≡ some q)
      × (q.settings ≡ read_panel panel)
      × (load_settings parse q.storage ≡ q.settings)
change_persists cm parse stringify panel p shown c usable ne back =
    let (q, e, _, same, stored) = on_change-fits cm stringify panel p shown c in
    (
      q,
      e,
      same,
      rw (stored, same)
          (load_settings-save_settings parse stringify (read_panel panel) p.storage usable ne back
            (read_panel-IsBounded panel shown)),
    )
