-- ===== src/Extension/Pull.antt =====
-- What `duck.pullCourse` does.
use rubber_duck.Prelude.{
  Bool, true, false, Option, none, some, List, [], ◌∷◌, ◌++◌, ◌≡◌, ◌⊎◌, inl, inr, refl, sym, ◌∙◌,
  Text, codes, In, trim, append_assoc,
}
use rubber_duck.Cli.{duck_path}
use rubber_duck.Cli.Process.{Outcome, resolved, rejected, exec_duck}
use rubber_duck.Local.{FilePath}
use rubber_duck.Api.{CourseSummary, load_token, Result, ok, auth_error, error}
use rubber_duck.Courses.{Env, Item, course_item, variant_item, challenge_item, message_item}
use rubber_duck.Courses.Root.{answer}
use rubber_duck.Extension.{Effect, exec, show_error, show_information, refresh, reveal}
use rubber_duck.Extension.Pulling.{
  choose_variant, pick_workspace_folder, pull_into, Answers, Run, then_run, language_given,
  choose_language, course_picked, courses_listed, token_loaded, as_run, finished, spec_of,
  pull_args, pull_course, last_line,
}

-- A quick pick gives one of the choices, or nothing.
pub record PicksOffered (a : Answers) : Type 0 where
  pub course : (cs : List CourseSummary) (c : CourseSummary) → a.pick_course cs ≡ some c → In c cs
  pub language : (ls : List Text) (l : Text) → a.pick_language ls ≡ some l → In l ls
  pub folder : (f : FilePath) → a.pick_folder ≡ some f → In f a.folders

-- A language of a course that the server lists for the token.
abbrev OfCatalog : Env → (course language : Text) → Type 0
OfCatalog env course language =
    (token : Text) × (courses : List CourseSummary) × (c : CourseSummary) × (load_token
        env.duck_token env.token_file
      ≡ some token)
    × (answer env token ≡ ok courses)
    × In c courses
    × (course ≡ c.slug)
    × In language c.languages

abbrev FromCatalog : List CourseSummary → Text × Text → Type 0
FromCatalog courses v = (c : CourseSummary) × In c courses × (v.0 ≡ c.slug) × In v.1 c.languages

-- Where the course and the language come from: the item, or the catalog.
abbrev pub Offered : Env → Option Item → (course language : Text) → Type 0
Offered env (some (variant_item v)) course language = (course ≡ v.course) × (language ≡ v.language)
Offered env _ course language = OfCatalog env course language

-- At most an error is shown.
abbrev pub IsQuiet : List Effect → Type 0
IsQuiet es = (es ≡ []) ⊎ ((m : Text) × (es ≡ show_error m ∷ []))

-- A run that stops quietly, or gives a value that has the property and no effect.
abbrev StopsOr : {A : Type 0} → (A → Type 0) → Run A → Type 0
StopsOr {A} P r =
    (IsQuiet r.effects × (r.result ≡ none))
    ⊎ ((r.effects ≡ []) × (a : A) × (r.result ≡ some a) × P a)

module _ (a : Answers) (picks : PicksOffered a) where
  choose_language-In :
      (ls : List Text) (l : Text) → choose_language a.pick_language ls ≡ some l → In l ls
  choose_language-In [] l e = picks.language [] l e
  choose_language-In (l₁ ∷ []) l e = inl (cc)
  choose_language-In (l₁ ∷ l₂ ∷ ls) l e = picks.language (l₁ ∷ l₂ ∷ ls) l e

  language_given-cases :
      (course : Text) (o : Option Text)
      → StopsOr (λ v. (v.0 ≡ course) × (o ≡ some v.1)) (language_given course o)
  language_given-cases course none = inl (inl refl, refl)
  language_given-cases course (some []) = inl (inl refl, refl)
  language_given-cases course (some (c ∷ l)) = inr (refl, (course, c ∷ l), refl, (refl, refl))

  course_picked-cases :
      (courses : List CourseSummary) (o : Option CourseSummary)
      → ((c : CourseSummary) → o ≡ some c → In c courses)
      → StopsOr (FromCatalog courses) (course_picked a o)
  course_picked-cases courses none h = inl (inl refl, refl)
  course_picked-cases courses (some c) h =
      elim (language_given-cases c.slug (choose_language a.pick_language c.languages)) [
        | inl stopped ↦ inl stopped
        | inr (quiet, v, e, (same_course, picked)) ↦
            inr (quiet, v, e, (c, h c refl, same_course, choose_language-In c.languages v.1 picked))
      ]

  courses_listed-cases :
      (r : Result (List CourseSummary))
      → StopsOr
          (λ v. (courses : List CourseSummary) × (r ≡ ok courses) × FromCatalog courses v)
          (courses_listed a r)
  courses_listed-cases auth_error = inl (inr (_, refl), refl)
  courses_listed-cases (error m) = inl (inr (_, refl), refl)
  courses_listed-cases (ok courses) =
      elim (course_picked-cases courses (a.pick_course courses) (picks.course courses)) [
        | inl stopped ↦ inl stopped
        | inr (quiet, v, e, from) ↦ inr (quiet, v, e, (courses, refl, from))
      ]

  token_loaded-cases :
      (env : Env) (o : Option Text)
      → StopsOr
          (λ v.
            (token : Text) × (courses : List CourseSummary) × (o ≡ some token)
            × (answer env token ≡ ok courses)
            × FromCatalog courses v)
          (token_loaded env a o)
  token_loaded-cases env none = inl (inr (_, refl), refl)
  token_loaded-cases env (some []) = inl (inr (_, refl), refl)
  token_loaded-cases env (some (c ∷ token)) = elim (courses_listed-cases (answer env (c ∷ token))) [
    | inl stopped ↦ inl stopped
    | inr (quiet, v, e, (courses, listed, from)) ↦
        inr (quiet, v, e, (c ∷ token, courses, refl, listed, from))
  ]

  palette-cases :
      (env : Env)
      → StopsOr
          (λ v. OfCatalog env v.0 v.1)
          (token_loaded env a (load_token env.duck_token env.token_file))
  palette-cases env = elim (token_loaded-cases env (load_token env.duck_token env.token_file)) [
    | inl stopped ↦ inl stopped
    | inr (quiet, v, e, (token, courses, loaded, listed, (c, listed_c, same_course, language))) ↦
        inr (quiet, v, e, (token, courses, c, loaded, listed, listed_c, same_course, language))
  ]

  choose_variant-cases :
      (env : Env) (item : Option Item)
      → StopsOr (λ v. Offered env item v.0 v.1) (choose_variant env a item)
  unfolding choose_variant
  choose_variant-cases env (some (variant_item v)) =
      inr (refl, (v.course, v.language), refl, (refl, refl))
  choose_variant-cases env (some (course_item c)) = palette-cases env
  choose_variant-cases env (some (challenge_item c)) = palette-cases env
  choose_variant-cases env (some (message_item m icon)) = palette-cases env
  choose_variant-cases env none = palette-cases env

  as_run-cases :
      (o : Option FilePath) → o ≡ a.pick_folder → StopsOr (λ f. In f a.folders) (as_run o)
  as_run-cases none e = inl (inl refl, refl)
  as_run-cases (some f) e = inr (refl, f, refl, picks.folder f (sym e))

  pick_workspace_folder-cases :
      (folders : List FilePath)
      → folders ≡ a.folders
      → StopsOr (λ f. In f a.folders) (pick_workspace_folder a folders)
  unfolding pick_workspace_folder
  pick_workspace_folder-cases [] e = inl (inr (_, refl), refl)
  pick_workspace_folder-cases (f ∷ []) e = inr (refl, f, refl, rw (← e) (inl refl))
  pick_workspace_folder-cases (f ∷ g ∷ fs) e = as_run-cases a.pick_folder refl

-- What follows a process with that outcome: on success the tree is refreshed and the last line of
-- the output shown, and the new directory revealed if the user asks; on failure an error is shown.
abbrev pub Ends : Bool → (dir : FilePath) → Outcome → List Effect → Type 0
Ends true dir (resolved out) tail =
    tail ≡ refresh ∷ show_information (last_line (trim out)) ∷ reveal dir ∷ []
Ends false dir (resolved out) tail = tail ≡ refresh ∷ show_information (last_line (trim out)) ∷ []
Ends reveals dir (rejected m) tail = (text : Text) × (tail ≡ show_error (text ++ m) ∷ [])

finished-Ends :
    (folder : FilePath) (dir spec : Text) (reveals : Bool) (o : Outcome)
    → Ends reveals (dir ∷ folder) o (finished folder dir spec reveals o)
finished-Ends folder dir spec true (resolved out) = refl
finished-Ends folder dir spec false (resolved out) = refl
finished-Ends folder dir spec true (rejected m) =
    (codes "duck pull " ++ (spec ++ codes " failed: "), simp append_assoc)
finished-Ends folder dir spec false (rejected m) =
    (codes "duck pull " ++ (spec ++ codes " failed: "), simp append_assoc)

abbrev pub Follows : Env → Answers → (course language : Text) → FilePath → List Effect → Type 0
Follows env a course language folder tail =
    Ends a.reveals ((course ++ (codes "-" ++ language)) ∷ folder)
      (exec_duck (duck_path env.config) (a.run folder (pull_args env.config course language))) tail

-- One `duck pull` was run.
abbrev pub Pulled : Env → Answers → Option Item → List Effect → Type 0
Pulled env a item es =
    (course language : Text) × (folder : FilePath) × (tail : List Effect) × (es
      ≡ exec folder (pull_args env.config course language) ∷ tail)
    × Offered env item course language
    × In folder a.folders
    × Follows env a course language folder tail

then_run-IsQuiet :
    {A : Type 0} (r : Run A) (k : A → List Effect)
    → IsQuiet r.effects
    → r.result ≡ none
    → IsQuiet (then_run r k)
then_run-IsQuiet r k q e = rw e q

then_run-some :
    {A : Type 0} (r : Run A) (k : A → List Effect) (a : A)
    → r.effects ≡ []
    → r.result ≡ some a
    → then_run r k ≡ k a
then_run-some r k a q e = rw (e, q)

abbrev pull_with : Env → Answers → Text × Text → List Effect
pull_with env a v =
    then_run (pick_workspace_folder a a.folders) (λ folder. pull_into env a v.0 v.1 folder)

pull_course_lem :
    (env : Env) (a : Answers) (item : Option Item)
    → pull_course env a item ≡ then_run (choose_variant env a item) (pull_with env a)
unfolding pull_course
pull_course_lem env a item = refl

pull_into_lem :
    (env : Env) (a : Answers) (course language : Text) (folder : FilePath)
    → (tail : List Effect) × (pull_into env a course language folder
        ≡ exec folder (pull_args env.config course language) ∷ tail)
      × Follows env a course language folder tail
unfolding pull_into
pull_into_lem env a course language folder = (
  finished folder (course ++ (codes "-" ++ language)) (spec_of course language) a.reveals
      (exec_duck (duck_path env.config) (a.run folder (pull_args env.config course language))),
  refl,
  finished-Ends folder _ _ a.reveals _,
)

pull_with-Pulled :
    (env : Env) (a : Answers) (item : Option Item) (v : Text × Text)
    → PicksOffered a
    → Offered env item v.0 v.1
    → IsQuiet (pull_with env a v) ⊎ Pulled env a item (pull_with env a v)
pull_with-Pulled env a item v picks offered =
    let k = λ (f : FilePath). pull_into env a v.0 v.1 f in
    elim (pick_workspace_folder-cases a picks a.folders refl) [
      | inl (q, e) ↦ inl (then_run-IsQuiet (pick_workspace_folder a a.folders) k q e)
      | inr (q, f, e, member) ↦
          let (tail, same, follows) = pull_into_lem env a v.0 v.1 f in
          inr (
            v.0,
            v.1,
            f,
            tail,
            then_run-some (pick_workspace_folder a a.folders) k f q e ∙ same,
            offered,
            member,
            follows,
          )
    ]

-- Pulling a course runs at most one process, if what the user picks is offered. Either nothing is
-- run, and nothing happens but at most one error message; or exactly `duck pull course/language`,
-- with `--base` where it is needed, runs in a folder of the workspace, for the variant that was
-- clicked or else for a language of a course that the server lists for the token, and its outcome
-- decides what follows: a refresh of the tree and the last line of the output, or an error message.
pub pull_course-Pulled :
    (env : Env) (a : Answers) (item : Option Item)
    → PicksOffered a
    → IsQuiet (pull_course env a item) ⊎ Pulled env a item (pull_course env a item)
pull_course-Pulled env a item picks =
    rw pull_course_lem (elim (choose_variant-cases a picks env item) [
      | inl (q, e) ↦ inl (then_run-IsQuiet (choose_variant env a item) (pull_with env a) q e)
      | inr (q, v, e, offered) ↦
          rw (then_run-some (choose_variant env a item) (pull_with env a) v q e)
            (pull_with-Pulled env a item v picks offered)
    ])
