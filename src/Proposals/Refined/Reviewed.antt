-- ===== src/Proposals/Refined/Reviewed.antt =====
-- `AddReview` and `PublishProposal` are sequences of the steps.
use rubber_duck.Prelude.{
  ℕ, Bool, true, false, not, ◌&&◌, some, ◌==◌, ==_iff, ◌≡◌, inl, inr, refl, sym, ap, ◌∙◌, arith,
  Bool-cases, Option-cases, Text, codes, In,
}
use mathlib.Core.Path.{subst}
use rubber_duck.Proposals.{is_open, is_approve, Verdict, Proposal, Review, Db, row_by_id, has_id}
use rubber_duck.Proposals.Reviews.{
  after_review, finish_review, close_rejected, close_published, is_admin_role, record_review,
  add_review, Document, upsert_variant, publish_row, publish_proposal,
}
use rubber_duck.Proposals.Cases.{add_review_cases}
use rubber_duck.Proposals.Rows.{All-In, first_where-some}
use rubber_duck.Proposals.Steps.{
  Rules, IsReleased, Keeps, Reviews, writes, changes, reviews, Steps, here, next,
}
use rubber_duck.Proposals.Valid.{IsValid, unique_id}
use rubber_duck.Proposals.Refined.{unreleased}

module _ (R : Rules) (db : Db) (v : IsValid db) where
  module _ (p : Proposal) (i : In p db.proposals) (o : is_open p.status ≡ true) where
    -- The rows with a row's identifier are that row.
    only_row : (q : Proposal) → In q db.proposals → has_id p.id q ≡ true → p ≡ q
    only_row q j e = unique_id db.proposals v.apart p q i j (sym ((==_iff q.id p.id).0 e))

    close_rejected-Keeps :
        (q : Proposal) → In q db.proposals → has_id p.id q ≡ true → Keeps R q (close_rejected q)
    close_rejected-Keeps q j e =
        let o' : is_open q.status ≡ true =
          ap (λ (x : Proposal). is_open x.status) (sym (only_row q j e)) ∙ o in
        record {
          id = refl;
          proposer = refl;
          course_slug = refl;
          language = refl;
          was_open = o';
          revision = omega arith;
          content = λ e. refl;
          released =
              inr ((λ e. cc), unreleased q (All-In IsReleased db.proposals q v.released j) o');
          granted = λ e. absurd (cc);
          targets = λ was. was;
        }

    close_published-Keeps :
        (version : ℕ)
        → R.granted p.id p.revision p.proposed_md
        → (q : Proposal) → In q db.proposals
        → has_id p.id q ≡ true
        → Keeps R q (close_published version q)
    close_published-Keeps version g q j e =
        let same = only_row q j e in
        record {
          id = refl;
          proposer = refl;
          course_slug = refl;
          language = refl;
          was_open = ap (λ (x : Proposal). is_open x.status) (sym same) ∙ o;
          revision = omega arith;
          content = λ e. refl;
          released = inl (refl, version, refl);
          granted = λ e. subst (λ (x : Proposal). R.granted x.id x.revision x.proposed_md) same g;
          targets = λ was. was;
        }

    after_review-Steps :
        (r : Review) (closed : Bool)
        → Reviews db.role p r
        → Steps R db (after_review db p.id r closed)
    after_review-Steps r false is = next here (reviews p r i is refl)
    after_review-Steps r true is =
        next (next here (reviews p r i is refl))
          (changes (has_id p.id) close_rejected close_rejected-Keeps refl)

    finish_review-Steps :
        (after : Db) (is_admin closed : Bool)
        → Steps R db after
        → Steps R db (finish_review db after p.id is_admin closed).0
    finish_review-Steps after is_admin closed steps =
        elim (Option-cases (row_by_id p.id after.proposals)) [
          | inl lost ↦ rw (finish_review, lost) here
          | inr (q, at) ↦ rw (finish_review, at) steps
        ]

    record_review-Steps :
        (reviewer : ℕ) (verdict : Verdict) (comment : Text) (is_admin : Bool)
        → (reviewer ≡ p.proposer
            → (is_approve verdict ≡ true) × (db.role reviewer ≡ some (codes "admin")))
        → Steps R db (record_review db p reviewer verdict comment is_admin).0
    unfolding record_review
    record_review-Steps reviewer verdict comment is_admin own =
        let review : Review = record {
          proposal = p.id;
          reviewer = reviewer;
          verdict = verdict;
          comment_md = comment;
          revision = p.revision;
        } in
        let closed = is_admin && not (is_approve verdict) in
        finish_review-Steps (after_review db p.id review closed) is_admin closed (
          after_review-Steps review closed (record { proposal = refl; revision = refl; own = own }))

    publish_row-Steps :
        (doc : Document) (written : Bool)
        → R.granted p.id p.revision p.proposed_md
        → Steps R db (publish_row db p doc written).0
    unfolding publish_row
    publish_row-Steps doc written g =
        elim (Option-cases
          (upsert_variant db.variants doc (some p.proposer) (some p.base_version))) [
            | inl conflict ↦ rw (publish_row, conflict) here
            | inr ((variants, version), done) ↦ elim (Bool-cases written) [
              | inr failed ↦ rw (publish_row, done, failed) here
              | inl ok ↦
                  rw (publish_row, done, ok)
                    (next (next here (writes variants refl)) (
                      changes (has_id p.id) (close_published version)
                        (close_published-Keeps version g) refl))
            ]
          ]

  pub add_review-Steps :
      (id reviewer : ℕ) (verdict comment : Text) (seen : ℕ)
      → Steps R db (add_review db id reviewer verdict comment seen).0
  add_review-Steps id reviewer verdict comment seen =
      add_review_cases db id reviewer verdict comment seen (λ r. Steps R db r.0) (λ e. here)
        λ p v' role a.
          record_review-Steps p a.found a.was_open reviewer v' comment (is_admin_role role) a.own

  pub publish_proposal-Steps :
      (id expected : ℕ) (doc : Document) (written : Bool)
      → ((p : Proposal)
          → In p db.proposals
          → p.id ≡ id
          → p.revision ≡ expected
          → R.granted p.id p.revision p.proposed_md)
      → Steps R db (publish_proposal db id expected doc written).0
  unfolding publish_proposal
  publish_proposal-Steps id expected doc written may =
      elim (Option-cases (row_by_id id db.proposals)) [
        | inl lost ↦ rw (publish_proposal, lost) here
        | inr (p, at) ↦
            let (i, is) = first_where-some (has_id id) db.proposals p at in
            elim (Bool-cases (is_open p.status)) [
              | inr closed ↦ rw (publish_proposal, at, closed) here
              | inl o ↦ elim (Bool-cases (p.revision == expected)) [
                | inr stale ↦ rw (publish_proposal, at, o, stale) here
                | inl current ↦
                    rw (publish_proposal, at, o, current)
                      (publish_row-Steps p i o doc written
                        (may p i ((==_iff p.id id).0 is) ((==_iff p.revision expected).0 current)))
              ]
            ]
      ]
