-- ===== src/Courses/Tests.antt =====
-- A surrounding for tests, and instances.
use rubber_duck.Prelude.{
  ℕ, true, false, Option, some, none, List, [], ◌∷◌, ◌≡◌, ◌↔◌, refl, Text, codes, same,
  if◌then◌else◌,
}
use rubber_duck.Json.{Json, Fields}
use rubber_duck.Cli.{base_url}
use rubber_duck.Local.{FilePath, LocalCourse, meta_file, find_local_courses}
use rubber_duck.Api.{CourseSummary, load_token, list_courses, Request, response, ok}
use rubber_duck.Courses.{Env, Item, course_item, Provider, root_items, get_children}
use rubber_duck.Courses.Root.{last_value, Refused, root_items-signed_in}
use rubber_duck.Courses.Pulled.{Shows, get_children-Shows, get_children_null_marker}

abbrev pub raft : CourseSummary
raft = record {
  slug = codes "raft";
  title = codes "Raft";
  duration_hours = some 8;
  tags = [];
  languages = codes "go" ∷ codes "c" ∷ [];
  updated_at = codes "2026-01-01";
}

abbrev pub root : FilePath
root = codes "raft-go" ∷ codes "w" ∷ []

abbrev pub meta : Json
meta = Json.obj (
    Fields.field (codes "course") (Json.str (codes "raft"))
      (Fields.field (codes "language") (Json.str (codes "go")) Fields.end))

abbrev read_file : FilePath → Option Text
read_file (name ∷ dir ∷ up ∷ []) =
    if same name meta_file
    then (if same dir (codes "raft-go") then some (codes "meta") else none)
    else none
read_file _ = none

-- The token file holds a token, the server answers with one course, which is pulled to /w/raft-go.
abbrev pub env : Env
env = record {
  config = record { path = none; base_url = none };
  duck_token = none;
  token_file = some (codes "tok\n");
  fetch = λ (r : Request). response 200 (codes "body");
  show = λ (n : ℕ). codes "8";
  json_courses = λ (t : Text). ok (some (raft ∷ []));
  json_challenges = λ (t : Text). ok none;
  markers = (meta_file ∷ root) ∷ [];
  read_file = read_file;
  parse = λ (t : Text). some meta;
  exists = λ (f : FilePath). true;
}

abbrev start : Provider
start = record { locals = []; signed_in = [] }

abbrev pulled_course : LocalCourse
pulled_course = record { root = root; meta = meta }

abbrev shown : Provider
shown = record { locals = pulled_course ∷ []; signed_in = true ∷ [] }

root_test : root_items env start ≡ (course_item raft ∷ [], shown)
unfolding root_items load_token list_courses find_local_courses same
root_test = refl

root_items-signed_in_example :
    let (items, p') = root_items env start in
    ((items ≡ []) ↔ Refused env (load_token env.duck_token env.token_file))
    × ((last_value p'.signed_in ≡ some false) ↔ (items ≡ []))
root_items-signed_in_example = root_items-signed_in env start

get_children-Shows_example :
    (items : List Item) × (get_children env (some (course_item raft)) shown ≡ some (items, shown))
    × Shows shown.locals raft.slug raft.languages items
get_children-Shows_example = get_children-Shows env shown raft ((λ e. cc), tt)

-- As `env`, but the marker file holds `null`.
abbrev null_env : Env
null_env = record env { parse = λ (t : Text). some Json.null }

given_token : load_token null_env.duck_token null_env.token_file ≡ some (codes "tok")
unfolding load_token
given_token = refl

given_courses :
    list_courses null_env.show null_env.json_courses null_env.fetch
      (base_url null_env.config)
      (codes "tok")
    ≡ ok (raft ∷ [])
unfolding list_courses
given_courses = refl

given_marker : null_env.read_file (meta_file ∷ root) ≡ some (codes "meta")
unfolding same
given_marker = refl

get_children_null_marker_example :
    (items : List Item) × (p' : Provider) × (get_children null_env none start ≡ some (items, p'))
    × (get_children null_env (some (course_item raft)) p' ≡ none)
get_children_null_marker_example =
    get_children_null_marker null_env (meta_file ∷ root) [] (codes "meta") (codes "tok") (raft ∷ [])
      raft start refl given_marker refl given_token (λ e. cc) given_courses (λ e. cc)
