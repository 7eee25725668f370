-- ===== src/Api/Replies.antt =====
-- What a reply of the server becomes.
use rubber_duck.Prelude.{
  ℕ, ◌≤◌, Option, some, List, ◌∷◌, ◌++◌, ◌≡◌, ◌≢◌, ◌↔◌, refl, arith, Text, codes,
}
use rubber_duck.Api.{
  CourseSummary, Request, Reply, unreachable, response, Result, ok, auth_error, error, map_result,
  or_empty, read_reply, get_json, list_courses,
}
use rubber_duck.Cli.{strip_slashes}

-- The request of `listCourses` for a token that is not empty.
abbrev pub catalog_request : (base : Text) (c : ℕ) (token : Text) → Request
catalog_request base c token = record {
  url = strip_slashes base ++ codes "/api/v1/courses";
  authorization = some (codes "Bearer " ++ c ∷ token);
}

module _ (show : ℕ → Text) (json : Text → Result (Option (List CourseSummary))) where
  read_reply-ok :
      (reply : Reply) (d : Option (List CourseSummary))
      → read_reply show json reply ≡ ok d
      → (status : ℕ) × (body : Text) × (reply ≡ response status body)
        × (200 ≤ status)
        × (status ≤ 299)
        × (json body ≡ ok d)
  unfolding read_reply
  read_reply-ok (unreachable m) d e = cc
  read_reply-ok (response status body) d e =
      (status, body, refl, ground arith, ground arith, ground arith)

  read_reply-success :
      (status : ℕ) (body : Text)
      → 200 ≤ status
      → status ≤ 299
      → read_reply show json (response status body) ≡ json body
  unfolding read_reply
  read_reply-success status body lo hi = ground arith

  read_reply-auth :
      (reply : Reply)
      → ((body : Text) → json body ≢ auth_error)
      → (read_reply show json reply ≡ auth_error) ↔ ((body : Text) × (reply ≡ response 401 body))
  unfolding read_reply
  read_reply-auth (unreachable m) fine = (λ e. cc, λ (body, e). cc)
  read_reply-auth (response status body) fine =
      (λ e. (body, ground (arith, fine body)), λ (body', e). ground arith)

  map_result-ok :
      (r : Result (Option (List CourseSummary))) (xs : List CourseSummary)
      → map_result or_empty r ≡ ok xs
      → (d : Option (List CourseSummary)) × (r ≡ ok d) × (xs ≡ or_empty d)
  map_result-ok (ok d) xs e = (d, refl, cc)
  map_result-ok auth_error xs e = cc
  map_result-ok (error m) xs e = cc

  map_result-auth :
      (r : Result (Option (List CourseSummary)))
      → (map_result or_empty r ≡ auth_error) ↔ (r ≡ auth_error)
  map_result-auth (ok d) = (λ e. cc, λ e. cc)
  map_result-auth auth_error = (λ e. refl, λ e. refl)
  map_result-auth (error m) = (λ e. cc, λ e. cc)

  module _ (fetch : Request → Reply) (base : Text) (c : ℕ) (token : Text) where
    list_courses_lem :
        list_courses show json fetch base (c ∷ token)
        ≡ map_result or_empty (read_reply show json (fetch (catalog_request base c token)))
    unfolding list_courses get_json
    list_courses_lem = refl

    -- With a token, a catalog is returned exactly if the server answers the one authorised request
    -- with a status from 200 to 299 and a body that parses; it is the body's list, or empty if the
    -- body has none.
    pub list_courses-ok_iff :
        (xs : List CourseSummary)
        → (list_courses show json fetch base (c ∷ token) ≡ ok xs) ↔ (
            (status : ℕ) × (body : Text) × (d : Option (List CourseSummary)) × (fetch
                (catalog_request base c token)
              ≡ response status body)
            × (200 ≤ status)
            × (status ≤ 299)
            × (json body ≡ ok d)
            × (xs ≡ or_empty d))
    list_courses-ok_iff xs = rw list_courses_lem (
      λ e.
          let (d, e', same) = map_result-ok _ xs e in
          let (status, body, r, lo, hi, parsed) =
            read_reply-ok (fetch (catalog_request base c token)) d e' in
          (status, body, d, r, lo, hi, parsed, same),
      λ (status, body, d, r, lo, hi, parsed, same).
          rw (r, read_reply-success status body lo hi, parsed, same),
    )

    -- With a token, the result is an `AuthError` exactly if the server answers 401, where parsing a
    -- body throws no `AuthError`.
    pub list_courses-auth_iff :
        ((body : Text) → json body ≢ auth_error)
        → (list_courses show json fetch base (c ∷ token) ≡ auth_error)
          ↔ ((body : Text) × (fetch (catalog_request base c token) ≡ response 401 body))
    list_courses-auth_iff fine =
        let (there, back) = read_reply-auth (fetch (catalog_request base c token)) fine in
        let (out, into) =
          map_result-auth (read_reply show json (fetch (catalog_request base c token))) in
        rw list_courses_lem (λ e. there (out e), λ e. into (back e))
