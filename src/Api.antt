-- ===== src/Api.antt =====
-- vscode-extension/src/api.ts: the token, requests to the server and their errors. The environment,
-- the token file, `fetch` and the parsing of a body are arguments.
pub mod Token
pub mod Url
pub mod Replies
pub mod Tests
use rubber_duck.Prelude.{
  ℕ, ◌+◌, ◌*◌, ◌/◌, ◌%◌, Bool, true, false, ◌&&◌, ◌||◌, Option, none, some, List, [], ◌∷◌, ◌++◌,
  leb, ltb, ◌==◌, if◌then◌else◌, Text, codes, same, contains, trim, ◌-◌, ◌/◌,
}
use mathlib.Core.Option
use rubber_duck.Cli.{strip_slashes, is_word}

pub record CourseSummary : Type 0 where
  pub slug : Text
  pub title : Text
  pub duration_hours : Option ℕ
  pub tags : List Text
  pub languages : List Text
  pub updated_at : Text

pub record Challenge : Type 0 where
  pub lesson_slug : Text
  pub slug : Text
  pub title : Text
  pub points : ℕ
  pub starter_code : Text
  pub test_code : Text

pub record LanguageFile : Type 0 where
  pub code : Text
  pub tests : Text

-- `languageFiles[language]`
unfoldable pub language_files : Text → Option LanguageFile
unfolding same
language_files language =
    if same language (codes "go")
    then some (record { code = codes "solution.go"; tests = codes "solution_test.go" })
    else if same language (codes "python")
    then some (record { code = codes "solution.py"; tests = codes "test_solution.py" })
    else if same language (codes "c")
    then some (record { code = codes "solution.c"; tests = codes "test_solution.c" })
    else none

abbrev trimmed : Option Text → Option Text
trimmed none = none
trimmed (some content) = some (trim content)

-- From `DUCK_TOKEN` and what reading the token file gives, `none` where it throws.
unfoldable pub load_token : (duck_token token_file : Option Text) → Option Text
unfolding trim
load_token none token_file = trimmed token_file
load_token (some []) token_file = trimmed token_file
load_token (some (c ∷ token)) token_file = some (c ∷ token)

-- `!token` fails.
abbrev pub is_given : Option Text → Bool
is_given none = false
is_given (some []) = false
is_given (some (c ∷ token)) = true

pub record Request : Type 0 where
  pub url : Text
  pub authorization : Option Text

-- What `fetch` gives: it throws, at the deadline too, or there is a response with a status and a body.
pub data Reply : Type 0 where
  unreachable : Text → Reply
  response : (status : ℕ) (body : Text) → Reply

-- A value, or what is thrown: `AuthError`, or an error with its message.
pub data Result {ℓ} (A : Type ℓ) : Type ℓ where
  ok : A → Result A
  auth_error : Result A
  error : Text → Result A

abbrev pub map_result {ℓ κ} : {A : Type ℓ} {B : Type κ} → (A → B) → Result A → Result B
map_result f (ok a) = ok (f a)
map_result f auth_error = auth_error
map_result f (error m) = error m

-- `resp.ok`
is_ok : ℕ → Bool
is_ok status = leb 200 status && leb status 299

-- `Authorization: Bearer …`, if there is a token.
bearer : Option Text → Option Text
bearer none = none
bearer (some []) = none
bearer (some (c ∷ token)) = some (codes "Bearer " ++ c ∷ token)

-- `text.slice(0, n)`: the first units of UTF-16; of a pair that is cut the first half is left.
unit_count : ℕ → ℕ
unit_count c = if ltb c 65536 then 1 else 2

slice_units : (units : ℕ) → Text → Text
unfolding unit_count
slice_units n [] = []
slice_units n (c ∷ s) =
    let rest = slice_units (n - unit_count c) s in
    if n == 0
    then []
    else if leb (unit_count c) n
    then c ∷ rest
    else (55296 + (c - 65536) / 1024) ∷ []

-- The decimal text of a status is an argument, as is `resp.json()`, which throws with a message.
module _ {ℓ} {A : Type ℓ} (show : ℕ → Text) (json : Text → Result A) where
  unfoldable pub read_reply : Reply → Result A
  unfolding is_ok slice_units
  read_reply (unreachable message) = error message
  read_reply (response status body) =
      if status == 401
      then auth_error
      else if is_ok status
      then json body
      else error (codes "server said " ++ (show status ++ (codes ": " ++ slice_units 200 body)))

  unfoldable pub get_json : (Request → Reply) → Text → Option Text → Result A
  unfolding read_reply bearer
  get_json fetch url token = read_reply (fetch (record { url = url; authorization = bearer token }))

-- `data.x ?? []`
abbrev pub or_empty {ℓ} : {A : Type ℓ} → Option (List A) → List A
or_empty none = []
or_empty (some xs) = xs

module _ (show : ℕ → Text) (json : Text → Result (Option (List CourseSummary))) where
  unfoldable pub list_courses :
      (Request → Reply) → (base_url token : Text) → Result (List CourseSummary)
  unfolding get_json strip_slashes
  list_courses fetch base_url token =
      map_result or_empty
        (get_json show json fetch (strip_slashes base_url ++ codes "/api/v1/courses") (some token))

-- `encodeURIComponent`: the characters that it keeps, and the UTF-8 bytes of any other, each as `%`
-- and two digits. It throws on a lone surrogate, here `none`.
is_kept : ℕ → Bool
unfolding is_word contains
is_kept c = is_word c || contains c (codes "-.!~*'()")

hex_digit : ℕ → ℕ
hex_digit d = if ltb d 10 then b'0' + d else 55 + d

percent : ℕ → Text
unfolding hex_digit
percent b = b'%' ∷ hex_digit (b / 16) ∷ hex_digit (b % 16) ∷ []

unfoldable pub utf8 : ℕ → List ℕ
utf8 c =
    if ltb c 0x80
    then c ∷ []
    else if ltb c 0x800
    then (0xc0 + c / 64) ∷ (0x80 + c % 64) ∷ []
    else if ltb c 0x10000
    then (0xe0 + c / 4096) ∷ (0x80 + c / 64 % 64) ∷ (0x80 + c % 64) ∷ []
    else (0xf0 + c / 262144) ∷ (0x80 + c / 4096 % 64) ∷ (0x80 + c / 64 % 64) ∷ (0x80 + c % 64) ∷ []

percents : List ℕ → Text
unfolding percent
percents [] = []
percents (b ∷ bs) = percent b ++ percents bs

encode_char : ℕ → Option Text
unfolding is_kept percents utf8
encode_char c =
    if is_kept c
    then some (c ∷ [])
    else if leb 0xd800 c && leb c 0xdfff
    then none
    else some (percents (utf8 c))

infixl 5 ◌>>=◌
abbrev ◌>>=◌ {ℓ κ} : {A : Type ℓ} {B : Type κ} → Option A → (A → Option B) → Option B
none >>= f = none
some a >>= f = f a

unfoldable pub encode_component : Text → Option Text
unfolding encode_char
encode_component [] = some []
encode_component (c ∷ s) = do some ((← encode_char c) ++ (← encode_component s))

unfoldable pub challenges_url : (base_url course language : Text) → Option Text
unfolding encode_component strip_slashes
challenges_url base_url course language = do
  c ← encode_component course
  l ← encode_component language
  some (
      strip_slashes base_url
      ++ (codes "/api/v1/courses/" ++ (c ++ (codes "/variants/" ++ (l ++ codes "/challenges")))))

abbrev malformed : Text
malformed = codes "URI malformed"

module _ (show : ℕ → Text) (json : Text → Result (Option (List Challenge))) where
  unfoldable pub list_challenges :
      (Request → Reply) → (base_url course language : Text) → Result (List Challenge)
  unfolding get_json challenges_url
  list_challenges fetch base_url course language = elim (challenges_url base_url course language) [
    | none ↦ error malformed
    | some url ↦ map_result or_empty (get_json show json fetch url none)
  ]
