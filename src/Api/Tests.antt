-- ===== src/Api/Tests.antt =====
-- Tests and instances.
use rubber_duck.Prelude.{
  ℕ, ◌≤◌, Option, some, none, List, [], ◌∷◌, ◌++◌, ◌≡◌, ◌≢◌, ◌↔◌, ◌⊎◌, inl, All, refl, arith, Text,
  codes, true, false,
}
use rubber_duck.Cli.{strip_slashes}
use rubber_duck.Api.{
  CourseSummary, is_given, load_token, Request, Reply, response, Result, ok, auth_error, error,
  or_empty, list_courses, challenges_url,
}
use rubber_duck.Api.Token.{IsTrimmed, load_token_lem}
use rubber_duck.Api.Url.{IsScalar, Encodes, challenges_url_segments}
use rubber_duck.Api.Replies.{catalog_request, list_courses-ok_iff, list_courses-auth_iff}

abbrev token_file : Option Text
token_file = some (codes " tok\n")

load_token_test : load_token none token_file ≡ some (codes "tok")
unfolding load_token
load_token_test = refl

load_token_lem_example :
    ((is_given none ≡ true) × (load_token none token_file ≡ none))
    ⊎ ((is_given none ≡ false) × (token_file ≡ none) × (load_token none token_file ≡ none))
    ⊎ ((is_given none ≡ false)
        × ((content token : Text) × (token_file ≡ some content)
            × (load_token none token_file ≡ some token)
            × IsTrimmed content token))
load_token_lem_example = load_token_lem none token_file

abbrev base : Text
base = codes "http://d/"

url_test :
    challenges_url base (codes "a/b") (codes "c?")
    ≡ some (codes "http://d/api/v1/courses/a%2Fb/variants/c%3F/challenges")
unfolding challenges_url
url_test = refl

course-IsScalar : All IsScalar (codes "a/b")
course-IsScalar = (
  (omega arith, inl (omega arith)),
  ((omega arith, inl (omega arith)), ((omega arith, inl (omega arith)), tt)),
)

language-IsScalar : All IsScalar (codes "c?")
language-IsScalar = ((omega arith, inl (omega arith)), ((omega arith, inl (omega arith)), tt))

challenges_url_segments_example :
    (c l : Text) × Encodes c (codes "a/b")
    × Encodes l (codes "c?")
    × (challenges_url base (codes "a/b") (codes "c?")
        ≡ some (
            strip_slashes base
            ++ (codes "/api/v1/courses/"
                ++ (c ++ (codes "/variants/" ++ (l ++ codes "/challenges"))))))
challenges_url_segments_example =
    challenges_url_segments base (codes "a/b") (codes "c?") course-IsScalar language-IsScalar

abbrev show : ℕ → Text
show n = codes "n"

abbrev json : Text → Result (Option (List CourseSummary))
json [] = error (codes "Unexpected end of JSON input")
json (c ∷ body) = ok (some [])

abbrev fetch_ok : Request → Reply
fetch_ok r = response 204 (codes "{}")

abbrev fetch_refused : Request → Reply
fetch_refused r = response 401 []

list_courses-ok_iff_example : (list_courses show json fetch_ok base (codes "tok") ≡ ok []) ↔ (
    (status : ℕ) × (body : Text) × (d : Option (List CourseSummary)) × (fetch_ok
        (catalog_request base b't' (codes "ok"))
      ≡ response status body)
    × (200 ≤ status)
    × (status ≤ 299)
    × (json body ≡ ok d)
    × ([] ≡ or_empty d))
list_courses-ok_iff_example = list_courses-ok_iff show json fetch_ok base b't' (codes "ok") []

no_auth_error : (body : Text) → json body ≢ auth_error
no_auth_error [] = λ e. cc
no_auth_error (c ∷ body) = λ e. cc

list_courses-auth_iff_example :
    (list_courses show json fetch_refused base (codes "tok") ≡ auth_error)
    ↔ ((body : Text) × (fetch_refused (catalog_request base b't' (codes "ok")) ≡ response 401 body))
list_courses-auth_iff_example =
    list_courses-auth_iff show json fetch_refused base b't' (codes "ok") no_auth_error
