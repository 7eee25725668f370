-- ===== src/Courses.antt =====
-- vscode-extension/src/courses.ts: the tree of courses, variants and challenges. What the provider
-- asks of its surroundings (the token, the server, the workspace, the file system) is the record
-- `Env`. A promise that rejects, since an expression throws a TypeError, is `none`.
pub mod Root
pub mod Pulled
pub mod Tests
use rubber_duck.Prelude.{
  ℕ, Bool, true, false, ◌&&◌, Option, none, some, List, [], ◌∷◌, ◌++◌, map, ◌==◌, if◌then◌else◌,
  Text, codes, same, join,
}
use mathlib.Core.Option
use rubber_duck.Json.{Json, Fields, get_field}
use rubber_duck.Cli.{Config, base_url}
use rubber_duck.Local.{FilePath, LocalCourse, find_local_courses}
use rubber_duck.Api.{
  CourseSummary, Challenge, LanguageFile, language_files, load_token, is_given, Request, Reply,
  Result, ok, auth_error, error, list_courses, list_challenges,
}

pub record Env : Type 0 where
  pub config : Config
  pub duck_token : Option Text
  pub token_file : Option Text
  pub fetch : Request → Reply
  pub show : ℕ → Text
  pub json_courses : Text → Result (Option (List CourseSummary))
  pub json_challenges : Text → Result (Option (List Challenge))
  pub markers : List FilePath
  pub read_file : FilePath → Option Text
  pub parse : Text → Option Json
  pub exists : FilePath → Bool

pub record ChallengeItem : Type 0 where
  pub course : Text
  pub language : Text
  pub slug : Text
  pub lesson_slug : Text
  pub points : ℕ
  pub local_dir : Option FilePath

pub record VariantItem : Type 0 where
  pub course : Text
  pub language : Text
  pub local : Option LocalCourse

pub data Item : Type 0 where
  course_item : CourseSummary → Item
  variant_item : VariantItem → Item
  challenge_item : ChallengeItem → Item
  message_item : (message icon : Text) → Item

-- What a tree item shows; `opens` is the file that a click opens.
pub record View : Type 0 where
  pub label : Text
  pub collapsible : Bool
  pub context_value : Option Text
  pub description : Option Text
  pub tooltip : Option Text
  pub icon : Text
  pub opens : Option FilePath

-- `.filter(Boolean)`
drop_empty : List Text → List Text
drop_empty [] = []
drop_empty ([] ∷ ts) = drop_empty ts
drop_empty ((c ∷ t) ∷ ts) = (c ∷ t) ∷ drop_empty ts

abbrev tags_line : List Text → Text
tags_line [] = []
tags_line (t ∷ tags) = codes "tags: " ++ join (codes ", ") (t ∷ tags)

abbrev hours_line : (ℕ → Text) → Option ℕ → Text
hours_line show none = []
hours_line show (some h) = if h == 0 then [] else codes "~" ++ (show h ++ codes "h")

abbrev or_final : Text → Text → Text → Text
or_final [] final lesson = final
or_final (c ∷ slug) final lesson = lesson

abbrev solution_in : Option FilePath → Option LanguageFile → Option FilePath
solution_in none file = none
solution_in (some dir) none = none
solution_in (some dir) (some file) = some (file.code ∷ dir)

unfoldable pub course_view : (ℕ → Text) → CourseSummary → View
unfolding drop_empty join
course_view show c = record {
  label = c.title;
  collapsible = true;
  context_value = some (codes "duckCourse");
  description = some (join (codes ", ") c.languages);
  tooltip = some (
      join (codes "\n")
        (drop_empty (c.slug ∷ tags_line c.tags ∷ hours_line show c.duration_hours ∷ [])));
  icon = codes "book";
  opens = none;
}

-- The text of a path.
unfoldable pub path_text : FilePath → Text
path_text [] = codes "/"
path_text (name ∷ []) = codes "/" ++ name
path_text (name ∷ up ∷ dir) = path_text (up ∷ dir) ++ (codes "/" ++ name)

unfoldable pub variant_view : VariantItem → View
unfolding path_text
variant_view v = elim v.local [
  | none ↦ record {
    label = v.language;
    collapsible = true;
    context_value = some (codes "duckVariant");
    description = none;
    tooltip = some (codes "duck pull " ++ (v.course ++ (codes "/" ++ v.language)));
    icon = codes "code";
    opens = none;
  }
  | some local ↦ record {
    label = v.language;
    collapsible = true;
    context_value = some (codes "duckVariantPulled");
    description = some (codes "pulled");
    tooltip = some (codes "pulled to " ++ path_text local.root);
    icon = codes "folder-active";
    opens = none;
  }
]

abbrev is_some {ℓ} : {A : Type ℓ} → Option A → Bool
is_some none = false
is_some (some a) = true

unfoldable pub challenge_view : (ℕ → Text) → ChallengeItem → View
unfolding language_files
challenge_view show c = record {
  label = c.slug;
  collapsible = false;
  context_value =
      some (if is_some c.local_dir then codes "duckChallengePulled" else codes "duckChallenge");
  description =
      some (show c.points ++ (codes " pts" ++ or_final c.lesson_slug (codes " · final") []));
  tooltip =
      some (or_final c.lesson_slug (codes "final challenge") (codes "lesson: " ++ c.lesson_slug));
  icon = if is_some c.local_dir then codes "file-code" else codes "circle-large-outline";
  opens = solution_in c.local_dir (language_files c.language);
}

-- `l.meta.x === text`: reading a property of null throws, and of any other value that is no object
-- gives undefined.
abbrev is_text : Text → Option Json → Bool
is_text t (some (Json.str s)) = same s t
is_text t _ = false

prop_is : Text → Text → Json → Option Bool
unfolding get_field same
prop_is key t Json.null = none
prop_is key t (Json.obj fs) = some (is_text t (get_field key fs))
prop_is key t _ = some false

-- `a && b`, where `b` is evaluated only if `a` holds.
abbrev and_then : Option Bool → Option Bool → Option Bool
and_then none b = none
and_then (some false) b = some false
and_then (some true) b = b

unfoldable pub is_course : (course language : Text) → Json → Option Bool
unfolding prop_is
is_course course language meta =
    and_then (prop_is (codes "course") course meta) (prop_is (codes "language") language meta)

abbrev pick_first :
    LocalCourse → Option Bool → Option (Option LocalCourse) → Option (Option LocalCourse)
pick_first l none rest = none
pick_first l (some true) rest = some (some l)
pick_first l (some false) rest = rest

unfoldable pub local_for : List LocalCourse → (course language : Text) → Option (Option LocalCourse)
unfolding is_course
local_for [] course language = some none
local_for (l ∷ locals) course language =
    pick_first l (is_course course language l.meta) (local_for locals course language)

infixl 5 ◌>>=◌
abbrev ◌>>=◌ {ℓ κ} : {A : Type ℓ} {B : Type κ} → Option A → (A → Option B) → Option B
none >>= f = none
some a >>= f = f a

unfoldable pub variant_items : List LocalCourse → Text → List Text → Option (List Item)
unfolding local_for
variant_items locals course [] = some []
variant_items locals course (lang ∷ languages) = do
  local ← local_for locals course lang
  rest ← variant_items locals course languages
  some (variant_item (record { course = course; language = lang; local = local }) ∷ rest)

-- The provider's `locals`, and the values that the context key `duck.signedIn` was set to, in order.
pub record Provider : Type 0 where
  pub locals : List LocalCourse
  pub signed_in : List Bool

abbrev set_signed_in : Bool → Provider → Provider
set_signed_in b p = record p { signed_in = p.signed_in ++ b ∷ [] }

abbrev course_items : List CourseSummary → List Item
course_items [] = message_item (codes "No courses published yet") (codes "info") ∷ []
course_items (c ∷ courses) = map course_item (c ∷ courses)

abbrev show_courses :
    Result (List CourseSummary) → List LocalCourse → Provider → List Item × Provider
show_courses (ok courses) locals p = (course_items courses, record p { locals = locals })
show_courses auth_error locals p = ([], set_signed_in false p)
show_courses (error m) locals p =
    (message_item (codes "Couldn't load courses: " ++ m) (codes "warning") ∷ [], p)

abbrev with_token : Env → Option Text → Provider → List Item × Provider
with_token env none p = ([], set_signed_in false p)
with_token env (some []) p = ([], set_signed_in false p)
with_token env (some (c ∷ token)) p =
    show_courses
      (list_courses env.show env.json_courses env.fetch (base_url env.config) (c ∷ token))
      (find_local_courses env.read_file env.parse env.markers) (set_signed_in true p)

unfoldable pub root_items : Env → Provider → List Item × Provider
unfolding load_token
root_items env p = with_token env (load_token env.duck_token env.token_file) p

-- A challenge's directory, if the variant is pulled and it exists.
abbrev dir_of : (FilePath → Bool) → Option LocalCourse → Text → Option FilePath
dir_of exists none slug = none
dir_of exists (some local) slug =
    if exists (slug ∷ local.root) then some (slug ∷ local.root) else none

unfoldable pub to_item : (FilePath → Bool) → VariantItem → Challenge → ChallengeItem
to_item exists v c = record {
  course = v.course;
  language = v.language;
  slug = c.slug;
  lesson_slug = c.lesson_slug;
  points = c.points;
  local_dir = dir_of exists v.local c.slug;
}

abbrev show_challenges : (FilePath → Bool) → VariantItem → Result (List Challenge) → List Item
show_challenges exists v (ok challenges) = map (λ c. challenge_item (to_item exists v c)) challenges
show_challenges exists v auth_error =
    message_item
      (codes
        "Couldn't load challenges: unauthorized: token missing or revoked — run duck auth login")
      (codes "warning")
    ∷ []
show_challenges exists v (error m) =
    message_item (codes "Couldn't load challenges: " ++ m) (codes "warning") ∷ []

unfoldable pub challenge_items : Env → VariantItem → List Item
unfolding to_item
challenge_items env v = show_challenges env.exists v (
    list_challenges env.show env.json_challenges env.fetch (base_url env.config) v.course
      v.language)

-- `getChildren`; the argument `none` is the root.
unfoldable pub get_children : Env → Option Item → Provider → Option (List Item × Provider)
unfolding root_items variant_items challenge_items
get_children env none p = some (root_items env p)
get_children env (some (course_item c)) p =
    Option.map (λ items. (items, p)) (variant_items p.locals c.slug c.languages)
get_children env (some (variant_item v)) p = some (challenge_items env v, p)
get_children env (some (challenge_item c)) p = some ([], p)
get_children env (some (message_item m icon)) p = some ([], p)
