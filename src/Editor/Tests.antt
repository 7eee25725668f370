-- ===== src/Editor/Tests.antt =====
-- An editor library for tests, and instances.
use rubber_duck.Prelude.{
  true, false, Option, some, none, List, [], ◌∷◌, ◌≡◌, refl, arith, Text, codes, same, All, inl,
}
use rubber_duck.Json.{Json, truthy}
use rubber_duck.Number.{pos}
use rubber_duck.Editor.Settings.{Settings, Storage, defaults, load_settings, save_settings, to_json}
use rubber_duck.Editor.Settings.Bounds.{IsBounded, load_settings-IsBounded}
use rubber_duck.Editor.Settings.Stored.{load_settings-save_settings}
use rubber_duck.Editor.Panel.{Panel, is_option, sync_panel, read_panel}
use rubber_duck.Editor.Panel.Laws.{IsShown, read_tab, read_panel-sync_panel}
use rubber_duck.Editor.CodeMirror.{CodeMirror, Slot, Ext, initial, reconfigured}
use rubber_duck.Editor.Page.{Textarea, Area, Page, lower_name, init, on_change}
use rubber_duck.Editor.Page.Synced.{IsSupported, IsConsistent}
use rubber_duck.Editor.Page.Twice.{init_twice}
use rubber_duck.Editor.Events.{Event, run_script, change, edit, submit, handle_all, open_page}
use rubber_duck.Editor.Events.Consistent.{CanHappen, session-IsConsistent, change_persists}

record State : Type 0 where
  text : Text
  compartments : Slot → List Ext

abbrev simple : CodeMirror
simple = record {
  View = State;
  create = λ d es. record { text = d; compartments = λ s. initial s es };
  dispatch =
      λ v es. record { text = v.text; compartments = λ s. reconfigured s es (v.compartments s) };
  edit = λ v d. record { text = d; compartments = v.compartments };
  doc = λ v. v.text;
  content = λ v. v.compartments;
  doc-create = λ d es. refl;
  content-create = λ d es s. refl;
  doc-dispatch = λ v es. refl;
  content-dispatch = λ v es s. refl;
  doc-edit = λ v d. refl;
  content-edit = λ v d s. refl;
}

abbrev textarea : Textarea
textarea = record {
  language = some (codes "Go");
  height = none;
  mobile_notice = true;
  in_form = true;
  mounted = false;
  value = codes "package main";
  shown = true;
  submit_shown = true;
  notices = 0;
  input_events = 0;
}

abbrev panel : Panel
panel = record { font = codes "99"; tab = codes "8"; wrap = true; vim = true; rel = false }

abbrev chosen : Settings
chosen = record {
  font_size = pos 24;
  tab_size = pos 8;
  line_wrap = Json.bool true;
  vim = Json.bool true;
  relative_lines = Json.bool false;
}

panel_test : read_panel panel ≡ chosen
unfolding read_panel
panel_test = refl

-- One text stands for the settings chosen, and nothing else is parsed.
abbrev stringify : Json → Text
stringify v = codes "chosen"

abbrev parse : Text → Option Json
parse t = some (to_json chosen)

abbrev storage : Storage
storage = record { blocked = false; item = some (codes "chosen") }

abbrev events : List Event
events = run_script false ∷ change panel ∷ edit 0 (codes "x") ∷ run_script true ∷ submit 0 ∷ []

go-IsSupported : All IsSupported (textarea ∷ [])
unfolding lower_name same
go-IsSupported = (refl, tt)

events-CanHappen : All CanHappen events
unfolding is_option
events-CanHappen = (tt, (inl refl, (tt, (tt, (tt, tt)))))

session-IsConsistent_example :
    (p : Page simple) × (handle_all simple stringify
        (open_page simple stringify parse storage (textarea ∷ []))
        events
      ≡ some p)
    × IsConsistent simple p
session-IsConsistent_example =
    session-IsConsistent simple parse stringify storage (textarea ∷ []) events go-IsSupported
      events-CanHappen

load_settings-IsBounded_example : IsBounded (load_settings parse storage)
load_settings-IsBounded_example = load_settings-IsBounded parse storage

abbrev empty_storage : Storage
empty_storage = record { blocked = false; item = none }

chosen-IsBounded : IsBounded chosen
chosen-IsBounded = record { font = omega arith; tab = omega arith }

load_settings-save_settings_example :
    load_settings parse (save_settings stringify chosen empty_storage) ≡ chosen
load_settings-save_settings_example =
    load_settings-save_settings parse stringify chosen empty_storage refl (λ e. cc) refl
      chosen-IsBounded

read_panel-sync_panel_example : read_panel (sync_panel chosen) ≡ record {
  font_size = pos 24;
  tab_size = read_tab (pos 8);
  line_wrap = Json.bool (truthy (Json.bool true));
  vim = Json.bool (truthy (Json.bool true));
  relative_lines = Json.bool (truthy (Json.bool false));
}
read_panel-sync_panel_example = read_panel-sync_panel chosen chosen-IsBounded

abbrev three : Settings
three = record chosen { tab_size = pos 3 }

three-IsBounded : IsBounded three
three-IsBounded = record { font = omega arith; tab = omega arith }

abbrev noticed : Area simple
noticed = record {
  textarea = record textarea { mounted = true; shown = false; submit_shown = false; notices = 1 };
  editor = none;
}

abbrev fresh : Page simple
fresh = record { settings = chosen; storage = storage; areas = noticed ∷ [] }

fresh-IsSupported : IsSupported noticed.textarea
unfolding lower_name same
fresh-IsSupported = refl

fresh-IsConsistent : IsConsistent simple fresh
fresh-IsConsistent = record {
  bounded = chosen-IsBounded;
  areas = (record { editor = tt; supported = fresh-IsSupported }, tt);
}

panel-IsShown : IsShown panel
unfolding is_option
panel-IsShown = inl refl

change_persists_example :
    (q : Page simple) × (on_change simple stringify panel fresh ≡ some q)
    × (q.settings ≡ read_panel panel)
    × (load_settings parse q.storage ≡ q.settings)
change_persists_example =
    change_persists simple parse stringify panel fresh panel-IsShown fresh-IsConsistent refl
      (λ e. cc) (rw panel_test refl)

init_test :
    init simple true chosen (record { textarea = textarea; editor = none } ∷ [])
    ≡ some (noticed ∷ [])
unfolding init
init_test = refl

init_twice_example : init simple false defaults (noticed ∷ []) ≡ some (noticed ∷ [])
init_twice_example =
    init_twice simple true false chosen defaults
      (record { textarea = textarea; editor = none } ∷ []) (noticed ∷ []) init_test
