-- ===== src/Editor/Events.antt =====
-- A page's life: the script runs, controls of a panel change, documents are edited, forms submitted.
pub mod Consistent
use rubber_duck.Prelude.{ℕ, Bool, Option, none, some, List, [], ◌∷◌, Text, map}
use rubber_duck.Json.{Json}
use rubber_duck.Editor.Settings.{Storage, load_settings}
use rubber_duck.Editor.Panel.{Panel}
use rubber_duck.Editor.CodeMirror.{CodeMirror}
use rubber_duck.Editor.Page.{Textarea, Area, Page, init, on_change, edit_area, submit_area, ◌>>=◌}

pub data Event : Type 0 where
  run_script : (mobile : Bool) → Event
  change : Panel → Event
  edit : ℕ → Text → Event
  submit : ℕ → Event

module _ (cm : CodeMirror) (stringify : Json → Text) where
  pub handle : Page cm → Event → Option (Page cm)
  handle p (run_script mobile) = do
    some (record p { areas = (← init cm mobile p.settings p.areas) })
  handle p (change panel) = on_change cm stringify panel p
  handle p (edit i d) = some (record p { areas = edit_area cm i d p.areas })
  handle p (submit i) = some (record p { areas = submit_area cm i p.areas })

  pub handle_all : Page cm → List Event → Option (Page cm)
  unfolding handle
  handle_all p [] = some p
  handle_all p (e ∷ es) = do q ← handle p e; handle_all q es

  -- The page before the script has mounted anything.
  pub open_page : (Text → Option Json) → Storage → List Textarea → Page cm
  open_page parse st ts = record {
    settings = load_settings parse st;
    storage = st;
    areas = map (λ t. record { textarea = t; editor = none }) ts;
  }
