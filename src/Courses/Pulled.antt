-- ===== src/Courses/Pulled.antt =====
-- Which variants and challenges are marked as pulled.
use rubber_duck.Prelude.{
  true, false, Option, none, some, List, [], ◌∷◌, ◌++◌, ◌≡◌, ◌≢◌, ◌⊎◌, inl, inr, refl, ap, arith,
  Text, codes, All, same_iff,
}
use rubber_duck.Json.{Json, get_field}
use rubber_duck.Cli.{base_url}
use rubber_duck.Local.{FilePath, LocalCourse, dirname, find_local_courses}
use rubber_duck.Api.{CourseSummary, load_token, list_courses, ok}
use rubber_duck.Courses.{
  Env, Item, course_item, variant_item, Provider, prop_is, is_text, is_course, local_for,
  variant_items, get_children, root_items,
}

-- What a marker says: an object with the two texts.
abbrev pub Says : Text → Text → Json → Type 0
Says key t Json.null = ⊥
Says key t (Json.obj fs) = get_field key fs ≡ some (Json.str t)
Says key t _ = ⊥

abbrev pub IsCourse : (course language : Text) → Json → Type 0
IsCourse course language meta =
    Says (codes "course") course meta × Says (codes "language") language meta

prop_is-some :
    (key t : Text) (meta : Json)
    → meta ≢ Json.null
    → ((prop_is key t meta ≡ some true) × Says key t meta)
      ⊎ ((prop_is key t meta ≡ some false) × (¬ (Says key t meta)))
unfolding prop_is
prop_is-some key t Json.null h = absurd (h refl)
prop_is-some key t (Json.bool b) h = inr (refl, λ e. e)
prop_is-some key t (Json.num n) h = inr (refl, λ e. e)
prop_is-some key t (Json.str s) h = inr (refl, λ e. e)
prop_is-some key t (Json.arr xs) h = inr (refl, λ e. e)
prop_is-some key t (Json.obj fs) h = go (get_field key fs)
  where
    go :
        (o : Option Json)
        → ((some (is_text t o) ≡ some true) × (o ≡ some (Json.str t)))
          ⊎ ((some (is_text t o) ≡ some false) × (¬ (o ≡ some (Json.str t))))
    go none = inr (refl, λ e. cc)
    go (some Json.null) = inr (refl, λ e. cc)
    go (some (Json.bool b)) = inr (refl, λ e. cc)
    go (some (Json.num n)) = inr (refl, λ e. cc)
    go (some (Json.arr xs)) = inr (refl, λ e. cc)
    go (some (Json.obj gs)) = inr (refl, λ e. cc)
    go (some (Json.str s)) = ground (arith, same_iff s t)

is_course-some :
    (course language : Text) (meta : Json)
    → meta ≢ Json.null
    → ((is_course course language meta ≡ some true) × IsCourse course language meta)
      ⊎ ((is_course course language meta ≡ some false) × (¬ (IsCourse course language meta)))
unfolding is_course
is_course-some course language meta h = elim (prop_is-some (codes "course") course meta h) [
  | inr (e, f) ↦ inr (rw e refl, λ s. f s.0)
  | inl (e, says) ↦ elim (prop_is-some (codes "language") language meta h) [
    | inl (e', says') ↦ inl (rw (e, e') refl, (says, says'))
    | inr (e', f) ↦ inr (rw (e, e') refl, λ s. f s.1)
  ]
]

-- The mark of a variant: the first local course whose marker names the course and the language, or
-- none if no marker does.
abbrev pub IsMark : List LocalCourse → (course language : Text) → Option LocalCourse → Type 0
IsMark locals course language none = All (λ l. ¬ (IsCourse course language l.meta)) locals
IsMark locals course language (some l) =
    (before after : List LocalCourse) × (locals ≡ before ++ l ∷ after)
    × All (λ k. ¬ (IsCourse course language k.meta)) before
    × IsCourse course language l.meta

abbrev pub NoNull : List LocalCourse → Type 0
NoNull = All (λ l. l.meta ≢ Json.null)

IsMark-cons :
    (l : LocalCourse) (locals : List LocalCourse) (course language : Text) (o : Option LocalCourse)
    → ¬ (IsCourse course language l.meta)
    → IsMark locals course language o
    → IsMark (l ∷ locals) course language o
IsMark-cons l locals course language none f m = (f, m)
IsMark-cons l locals course language (some k) f (before, after, split, none_before, is) =
    (l ∷ before, after, ap (l ∷◌) split, (f, none_before), is)

local_for-IsMark :
    (locals : List LocalCourse) (course language : Text)
    → NoNull locals
    → (o : Option LocalCourse) × (local_for locals course language ≡ some o)
      × IsMark locals course language o
unfolding local_for
local_for-IsMark [] course language h = (none, refl, tt)
local_for-IsMark (l ∷ locals) course language (p, h) =
    elim (is_course-some course language l.meta p) [
      | inl (e, is) ↦ (some l, rw e, ([], locals, refl, tt, is))
      | inr (e, isnt) ↦
          let (o, found, mark) = local_for-IsMark locals course language h in
          (o, rw e found, IsMark-cons l locals course language o isnt mark)
    ]

-- One variant item for each language, in order, with its mark.
abbrev pub Shows : List LocalCourse → Text → List Text → List Item → Type 0
Shows locals course [] items = items ≡ []
Shows locals course (lang ∷ languages) items =
    (o : Option LocalCourse) × (rest : List Item) × (items
      ≡ variant_item (record { course = course; language = lang; local = o }) ∷ rest)
    × IsMark locals course lang o
    × Shows locals course languages rest

variant_items-Shows :
    (locals : List LocalCourse) (course : Text) (languages : List Text)
    → NoNull locals
    → (items : List Item) × (variant_items locals course languages ≡ some items)
      × Shows locals course languages items
unfolding variant_items
variant_items-Shows locals course [] h = ([], refl, refl)
variant_items-Shows locals course (lang ∷ languages) h =
    let (o, found, mark) = local_for-IsMark locals course lang h in
    let (rest, listed, shows) = variant_items-Shows locals course languages h in
    (
      variant_item (record { course = course; language = lang; local = o }) ∷ rest,
      rw (found, listed),
      (o, rest, refl, mark, shows),
    )

-- Opening a course lists one variant for each of its languages, in order, and marks it as pulled
-- exactly if a local course's marker names the course and the language (by the first such), if no
-- marker file holds JSON `null`. The provider is unchanged.
pub get_children-Shows :
    (env : Env) (p : Provider) (c : CourseSummary)
    → NoNull p.locals
    → (items : List Item) × (get_children env (some (course_item c)) p ≡ some (items, p))
      × Shows p.locals c.slug c.languages items
unfolding get_children
get_children-Shows env p c h =
    let (items, e, shows) = variant_items-Shows p.locals c.slug c.languages h in
    (items, unfold variant_items in rw e, shows)

variant_items_null :
    (root : FilePath) (locals : List LocalCourse) (course : Text) (languages : List Text)
    → languages ≢ []
    → variant_items (record { root = root; meta = Json.null } ∷ locals) course languages ≡ none
unfolding variant_items
variant_items_null root locals course [] ne = absurd (ne refl)
variant_items_null root locals course (lang ∷ languages) ne = refl

module _ (env : Env) (m : FilePath) (ms : List FilePath) (text : Text) where
  find_local_courses_null :
      env.read_file m ≡ some text
      → env.parse text ≡ some Json.null
      → find_local_courses env.read_file env.parse (m ∷ ms)
        ≡ record { root = dirname m; meta = Json.null }
          ∷ find_local_courses env.read_file env.parse ms
  unfolding find_local_courses
  find_local_courses_null reads parses = rw (reads, parses) refl

  root_items_null :
      (token : Text) (courses : List CourseSummary) (p : Provider)
      → env.markers ≡ m ∷ ms
      → env.read_file m ≡ some text
      → env.parse text ≡ some Json.null
      → load_token env.duck_token env.token_file ≡ some token
      → token ≢ []
      → list_courses env.show env.json_courses env.fetch (base_url env.config) token ≡ ok courses
      → (root_items env p).1.locals
        ≡ record { root = dirname m; meta = Json.null }
          ∷ find_local_courses env.read_file env.parse ms
  unfolding root_items
  root_items_null [] courses p first reads parses loaded ne listed = absurd (ne refl)
  root_items_null (c ∷ token) courses p first reads parses loaded ne listed =
      rw (loaded, listed, first) (find_local_courses_null reads parses)

-- If the first marker file found holds JSON `null`, a course with a language that is opened after the
-- root was listed throws, where the root was listed with a token and the server gave the courses.
pub get_children_null_marker :
    (env : Env) (m : FilePath) (ms : List FilePath) (text token : Text)
    (courses : List CourseSummary) (c : CourseSummary) (p : Provider)
    → env.markers ≡ m ∷ ms
    → env.read_file m ≡ some text
    → env.parse text ≡ some Json.null
    → load_token env.duck_token env.token_file ≡ some token
    → token ≢ []
    → list_courses env.show env.json_courses env.fetch (base_url env.config) token ≡ ok courses
    → c.languages ≢ []
    → (items : List Item) × (p' : Provider) × (get_children env none p ≡ some (items, p'))
      × (get_children env (some (course_item c)) p' ≡ none)
unfolding get_children
get_children_null_marker env m ms text token courses c p first reads parses loaded ne listed h = (
  (root_items env p).0,
  (root_items env p).1,
  refl,
  rw
      (
        root_items_null env m ms text token courses p first reads parses loaded ne listed,
        variant_items_null (dirname m) (find_local_courses env.read_file env.parse ms) c.slug
            c.languages h,
      )
      refl,
)
