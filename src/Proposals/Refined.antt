-- ===== src/Proposals/Refined.antt =====
-- Every operation is a sequence of the steps.
pub mod Reviewed
use rubber_duck.Prelude.{
  ℕ, Bool, true, false, not, ◌&&◌, none, some, ◌==◌, ==_iff, ◌≡◌, inl, inr, refl, sym, ap, ◌∙◌,
  arith, Bool-cases, Option-cases, Text, same_iff, codes, All, In,
}
use mathlib.Core.Path.{subst}
use rubber_duck.Proposals.{
  opened, published, withdrawn, is_open, is_approve, Verdict, Proposal, Review, Db, any, row_by_id,
  has_id, is_own_open, clashes, revise, live_version, create_proposal, update_proposal_markdown,
  withdraw_proposal,
}
use rubber_duck.Proposals.Reviews.{
  after_review, finish_review, close_rejected, close_published, is_admin_role, record_review,
  add_review, Document, upsert_variant, publish_row, publish_proposal,
}
use rubber_duck.Proposals.Cases.{add_review_cases}
use rubber_duck.Proposals.Rows.{All-In, All_of, any-false, first_where-some}
use rubber_duck.Proposals.Steps.{
  Rules, IsReleased, BothOpen, Keeps, Reviews, writes, opens, changes, reviews, Steps, here, next,
}
use rubber_duck.Proposals.Valid.{IsValid, unique_id}

pub published-closed : (p : Proposal) → p.status ≡ published → is_open p.status ≡ true → ⊥
published-closed p e o = let closed : is_open p.status ≡ false = ap is_open e in absurd (cc)

pub unreleased :
    (p : Proposal) → IsReleased p → is_open p.status ≡ true → p.published_version ≡ none
unreleased p (inl (is, _, _)) o = absurd (published-closed p is o)
unreleased p (inr (_, e)) o = e

module _ (R : Rules) (db : Db) (v : IsValid db) where
  pub create_proposal-Steps :
      (proposer : ℕ) (slug language title summary markdown : Text)
      → R.targets slug language markdown
      → Steps R db (create_proposal db proposer slug language title summary markdown).0
  unfolding create_proposal
  create_proposal-Steps proposer slug language title summary markdown targets =
      elim (Bool-cases (any (clashes proposer slug language) db.proposals)) [
        | inl clash ↦ rw clash here
        | inr free ↦
            let row : Proposal = record {
              id = db.next_id;
              proposer = proposer;
              course_slug = slug;
              language = language;
              title = title;
              summary_md = summary;
              proposed_md = markdown;
              base_version = live_version db.variants slug language;
              revision = 1;
              status = opened;
              published_version = none;
            } in
            let only : All (λ q. ¬ BothOpen q row) db.proposals =
              All_of _ db.proposals λ q i (o, _, e, f, g).
                let quiet = any-false (clashes proposer slug language) db.proposals q free i in
                let is_same : clashes proposer slug language q ≡ true =
                  ground (
                    arith,
                    (same_iff q.course_slug slug).1 f,
                    (same_iff q.language language).1 g,
                  ) in
                absurd (cc) in
            rw free (
              next here (
                opens row
                  (record {
                    id = refl;
                    status = refl;
                    published_version = refl;
                    targets = targets;
                    only = only;
                  })
                  refl))
      ]

  pub update_proposal_markdown-Steps :
      (id proposer : ℕ) (title summary markdown : Text)
      → ((p : Proposal)
          → In p db.proposals
          → p.id ≡ id
          → R.targets p.course_slug p.language markdown)
      → Steps R db (update_proposal_markdown db id proposer title summary markdown).0
  unfolding update_proposal_markdown
  update_proposal_markdown-Steps id proposer title summary markdown targets =
      elim (Bool-cases (any (is_own_open id proposer) db.proposals)) [
        | inr none_found ↦ rw none_found here
        | inl found ↦ rw found (
            next here (
              changes (is_own_open id proposer) (revise db title summary markdown)
                (λ p i own.
                  let o : is_open p.status ≡ true = ground arith in
                  record {
                    id = refl;
                    proposer = refl;
                    course_slug = refl;
                    language = refl;
                    was_open = o;
                    revision = omega arith;
                    content = λ e. absurd (omega arith);
                    released = All-In IsReleased db.proposals p v.released i;
                    granted = λ e. absurd (published-closed p e o);
                    targets = λ was. targets p i (ground arith);
                  })
                refl))
      ]

  pub withdraw_proposal-Steps : (id proposer : ℕ) → Steps R db (withdraw_proposal db id proposer).0
  unfolding withdraw_proposal
  withdraw_proposal-Steps id proposer =
      elim (Bool-cases (any (is_own_open id proposer) db.proposals)) [
        | inr none_found ↦ rw none_found here
        | inl found ↦ rw found (
            next here (
              changes (is_own_open id proposer) (λ p. record p { status = withdrawn })
                (λ p i own.
                  let o : is_open p.status ≡ true = ground arith in
                  record {
                    id = refl;
                    proposer = refl;
                    course_slug = refl;
                    language = refl;
                    was_open = o;
                    revision = omega arith;
                    content = λ e. refl;
                    released =
                        inr (
                          (λ e. cc),
                          unreleased p (All-In IsReleased db.proposals p v.released i) o,
                        );
                    granted = λ e. absurd (cc);
                    targets = λ was. was;
                  })
                refl))
      ]
