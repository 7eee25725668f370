-- ===== src/Courses/Root.antt =====
-- The root of the tree and the context key that decides whether the sign-in prompt is shown.
use rubber_duck.Prelude.{
  Bool, true, false, Option, none, some, List, [], ◌∷◌, ◌++◌, ◌≡◌, ◌↔◌, refl, ap, ◌∙◌, arith, Text,
}
use rubber_duck.Cli.{base_url}
use rubber_duck.Local.{LocalCourse, find_local_courses}
use rubber_duck.Api.{CourseSummary, load_token, Result, ok, auth_error, error, list_courses}
use rubber_duck.Courses.{Env, Item, Provider, show_courses, with_token, root_items}

-- What the server answers for a token.
abbrev pub answer : Env → Text → Result (List CourseSummary)
answer env token = list_courses env.show env.json_courses env.fetch (base_url env.config) token

abbrev pub pulled : Env → List LocalCourse
pulled env = find_local_courses env.read_file env.parse env.markers

-- The value that the context key has in the end.
abbrev pub last_value : List Bool → Option Bool
last_value [] = none
last_value (b ∷ []) = some b
last_value (b ∷ c ∷ bs) = last_value (c ∷ bs)

last_value-append : (bs : List Bool) (b : Bool) → last_value (bs ++ b ∷ []) ≡ some b
last_value-append [] b = refl
last_value-append (c ∷ []) b = refl
last_value-append (c ∷ d ∷ bs) b = last_value-append (d ∷ bs) b

-- The user counts as signed in if there is a token that the server does not refuse.
abbrev pub Refused : Env → Option Text → Type 0
Refused env none = Unit
Refused env (some []) = Unit
Refused env (some (c ∷ token)) = answer env (c ∷ token) ≡ auth_error

show_courses-empty_iff :
    (r : Result (List CourseSummary)) (locals : List LocalCourse) (p : Provider)
    → ((show_courses r locals p).0 ≡ []) ↔ (r ≡ auth_error)
show_courses-empty_iff (ok []) locals p = (λ e. cc, λ e. cc)
show_courses-empty_iff (ok (c ∷ cs)) locals p = (λ e. cc, λ e. cc)
show_courses-empty_iff auth_error locals p = (λ e. refl, λ e. refl)
show_courses-empty_iff (error m) locals p = (λ e. cc, λ e. cc)

with_token-empty_iff :
    (env : Env) (token : Option Text) (p : Provider)
    → ((with_token env token p).0 ≡ []) ↔ Refused env token
with_token-empty_iff env none p = (λ e. tt, λ h. refl)
with_token-empty_iff env (some []) p = (λ e. tt, λ h. refl)
with_token-empty_iff env (some (c ∷ token)) p = show_courses-empty_iff (answer env (c ∷ token)) _ _

has_items : List Item → Bool
has_items [] = false
has_items (i ∷ items) = true

show_courses-signed_in :
    (r : Result (List CourseSummary)) (locals : List LocalCourse) (p : Provider)
    → last_value p.signed_in ≡ some true
    → let (items, p') = show_courses r locals p in last_value p'.signed_in ≡ some (has_items items)
unfolding has_items
show_courses-signed_in (ok []) locals p h = h
show_courses-signed_in (ok (c ∷ cs)) locals p h = h
show_courses-signed_in auth_error locals p h = last_value-append p.signed_in false
show_courses-signed_in (error m) locals p h = h

with_token-signed_in :
    (env : Env) (token : Option Text) (p : Provider)
    → let (items, p') = with_token env token p in last_value p'.signed_in ≡ some (has_items items)
with_token-signed_in env none p = unfold has_items in last_value-append p.signed_in false
with_token-signed_in env (some []) p = unfold has_items in last_value-append p.signed_in false
with_token-signed_in env (some (c ∷ token)) p =
    show_courses-signed_in (answer env (c ∷ token)) _ _ (last_value-append p.signed_in true)

has_items-eq : (items : List Item) → (has_items items ≡ false) ↔ (items ≡ [])
unfolding has_items
has_items-eq [] = (λ e. refl, λ e. refl)
has_items-eq (i ∷ items) = (λ e. cc, λ e. cc)

-- The root is empty, so that the sign-in prompt can take its place, exactly if there is no token or
-- the server refuses it; and whatever happened, `duck.signedIn` is in the end false exactly then.
pub root_items-signed_in :
    (env : Env) (p : Provider)
    → let (items, p') = root_items env p in
      ((items ≡ []) ↔ Refused env (load_token env.duck_token env.token_file))
      × ((last_value p'.signed_in ≡ some false) ↔ (items ≡ []))
unfolding root_items
root_items-signed_in env p =
    let token = load_token env.duck_token env.token_file in
    let flag = with_token-signed_in env token p in
    (
      with_token-empty_iff env token p,
      (λ e. (has_items-eq _).0 (ground arith), λ e. flag ∙ ap some ((has_items-eq _).1 e)),
    )
