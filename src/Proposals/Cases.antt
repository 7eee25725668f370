-- ===== src/Proposals/Cases.antt =====
-- When `AddReview` comes to its writes.
use rubber_duck.Prelude.{
  ℕ, true, not, ◌&&◌, ◌||◌, Option, none, some, ◌==◌, ==_iff, ◌≡◌, inl, inr, refl, ap, ◌∙◌, arith,
  Bool-cases, Option-cases, Text, same_iff, codes, In,
}
use rubber_duck.Proposals.{
  is_open, is_approve, Verdict, read_verdict, Proposal, Db, Error, Result, err, row_by_id, has_id,
}
use rubber_duck.Proposals.Reviews.{Outcome, is_admin_role, record_review, review_as, add_review}
use rubber_duck.Proposals.Rows.{first_where-some}

module _ (db : Db) (id reviewer : ℕ) (verdict comment : Text) (seen : ℕ) where
  -- What has been checked by then.
  pub record Accepts (p : Proposal) (v : Verdict) (role : Text) : Type 0 where
    pub read : read_verdict verdict ≡ some v
    pub found : In p db.proposals
    pub id_is : p.id ≡ id
    pub was_open : is_open p.status ≡ true
    pub current : seen ≡ p.revision
    pub role_is : db.role reviewer ≡ some role
    pub own :
        reviewer ≡ p.proposer → (is_approve v ≡ true) × (db.role reviewer ≡ some (codes "admin"))

  module _ (P : Db × Result Outcome → Type 0) (refused : (e : Error) → P (db, err e))
      (accepted : (p : Proposal) (v : Verdict) (role : Text)
        → Accepts p v role
        → P (record_review db p reviewer v comment (is_admin_role role))) where
    review_as_cases :
        (p : Proposal) (v : Verdict) (role : Option Text)
        → read_verdict verdict ≡ some v
        → In p db.proposals
        → p.id ≡ id
        → is_open p.status ≡ true
        → seen ≡ p.revision
        → db.role reviewer ≡ role
        → P (review_as db p reviewer v comment role)
    unfolding review_as
    review_as_cases p v none read i is o current e = refused _
    review_as_cases p v (some role) read i is o current e =
        elim (Bool-cases
          (reviewer == p.proposer && (not (is_admin_role role) || not (is_approve v)))) [
            | inl self ↦ rw self (refused _)
            | inr may ↦ rw may (
                accepted p v role (record {
                  read = read;
                  found = i;
                  id_is = is;
                  was_open = o;
                  current = current;
                  role_is = e;
                  own = λ own. (
                    ground arith,
                    e ∙ ap some ((same_iff role (codes "admin")).0 (ground arith)),
                  );
                }))
          ]

    pub add_review_cases : P (add_review db id reviewer verdict comment seen)
    unfolding add_review
    add_review_cases = elim (Option-cases (read_verdict verdict)) [
      | inl bad ↦ rw (add_review, bad) (refused _)
      | inr (v, read) ↦ elim (Option-cases (row_by_id id db.proposals)) [
        | inl lost ↦ rw (add_review, read, lost) (refused _)
        | inr (p, at) ↦
            let (i, is) = first_where-some (has_id id) db.proposals p at in
            elim (Bool-cases (is_open p.status)) [
              | inr closed ↦ rw (add_review, read, at, closed) (refused _)
              | inl o ↦ elim (Bool-cases (seen == p.revision)) [
                | inr stale ↦ rw (add_review, read, at, o, stale) (refused _)
                | inl current ↦
                    rw (add_review, read, at, o, current)
                      (review_as_cases p v (db.role reviewer) read i ((==_iff p.id id).0 is) o
                        ((==_iff seen p.revision).0 current) refl)
              ]
            ]
      ]
    ]
