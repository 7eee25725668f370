-- ===== src/Proposals/Server.antt =====
-- internal/web/proposal_handlers.go: a review and what it publishes, and the sequences of calls that
-- the handlers of several requests make. `createReview` runs two transactions, between which those of
-- other requests may come: it is two calls here.
use rubber_duck.Prelude.{
  ℕ, zero, suc, Bool, false, not, ◌&&◌, ◌||◌, Option, none, some, List, [], ◌∷◌, ◌++◌, leb, same,
  if◌then◌else◌, Text,
}
use rubber_duck.Proposals.{
  is_approve, read_verdict, Proposal, Variant, Db, row_by_id, first_where, Result, ok, err,
  create_proposal, update_proposal_markdown, withdraw_proposal,
}
use rubber_duck.Proposals.Reviews.{Outcome, add_review, Document, publish_proposal}

-- The calls. The `at`-th of the handlers that are about to publish goes on by `publish`, and
-- `elsewhere` is any other write to the variants. Of the guards of
-- the handlers that create, update and withdraw, the one on the document is kept; the store repeats
-- those on the user and the status. An update of the handler reads the proposal before its
-- transaction, but only columns that never change.
pub data Call : Type 0 where
  create : (proposer : ℕ) → (slug language title summary markdown : Text) → Call
  update : (id user : ℕ) → (title summary markdown : Text) → Call
  withdraw : (id user : ℕ) → Call
  review : (id user : ℕ) → (verdict comment : Text) → (seen : ℕ) → Call
  publish : (at : ℕ) → (content_written : Bool) → Call
  elsewhere : List Variant → Call

-- `pending` holds the proposals that the handlers about to publish have in their hands.
pub record State : Type 0 where
  pub db : Db
  pub pending : List Proposal

abbrev pub start : (ℕ → Option Text) → State
start role = record {
  db = record { proposals = []; next_id = 1; reviews = []; variants = []; role = role };
  pending = [];
}

abbrev pub is_approval : Text → Bool
is_approval verdict = elim (read_verdict verdict) [ none ↦ false | some v ↦ is_approve v ]

-- The n-th of the handlers about to publish, and the others.
abbrev pub take_out : ℕ → List Proposal → Option (Proposal × List Proposal)
take_out n [] = none
take_out zero (p ∷ ps) = some (p, ps)
take_out (suc n) (p ∷ ps) = elim (take_out n ps) [ none ↦ none | some (q, qs) ↦ some (q, p ∷ qs) ]

-- `threshold` is the server's configuration; `parse` is `ingest.Parse` and `ingest.ToDomain`, as far as
-- the slug and the language that a document names, or none where it does not validate.
module _ (threshold : ℕ) (parse : Text → Option (Text × Text)) where
  abbrev pub should_publish : (verdict : Text) → Outcome → Bool
  should_publish verdict out =
      not out.closed
      && (is_approval verdict && (out.reviewer_is_admin || leb threshold out.proposal.approvals))

  -- What `createReview` makes of the result of `AddReview`, up to the call of `publishProposal`.
  abbrev pub settle : State → (verdict : Text) → Db × Result Outcome → State
  settle s verdict (db, err e) = record s { db = db }
  settle s verdict (db, ok out) =
      if should_publish verdict out
      then record { db = db; pending = s.pending ++ out.proposal.row ∷ [] }
      else record s { db = db }

  abbrev pub create_review : State → (id user : ℕ) → (verdict comment : Text) → (seen : ℕ) → State
  create_review s id user verdict comment seen =
      settle s verdict (add_review s.db id user verdict comment seen)

  -- `publishProposal`, for the proposal that the handler has in its hands.
  abbrev pub publish_pending : Db → Proposal → Bool → Db
  publish_pending db p content_written = elim (parse p.proposed_md) [
    | none ↦ db
    | some (slug, language) ↦
        let doc : Document = record {
          slug = slug;
          language = language;
          source_md = p.proposed_md;
        } in
        (publish_proposal db p.id p.revision doc content_written).0
  ]

  -- The check of the handlers that create and update: the document names the variant.
  abbrev pub is_for : (markdown slug language : Text) → Bool
  is_for markdown slug language = elim (parse markdown) [
    | none ↦ false
    | some (slug', language') ↦ same slug' slug && same language' language
  ]

  abbrev pub update_for :
      State → (id user : ℕ) → (title summary markdown : Text) → Option Proposal → State
  update_for s id user title summary markdown none = s
  update_for s id user title summary markdown (some p) =
      if is_for markdown p.course_slug p.language
      then record s { db = (update_proposal_markdown s.db id user title summary markdown).0 }
      else s

  unfoldable pub handle : Call → State → State
  unfolding create_proposal update_proposal_markdown withdraw_proposal add_review publish_proposal
      read_verdict same first_where
  handle (create proposer slug language title summary markdown) s =
      if is_for markdown slug language
      then record s { db = (create_proposal s.db proposer slug language title summary markdown).0 }
      else s
  handle (update id user title summary markdown) s =
      update_for s id user title summary markdown (row_by_id id s.db.proposals)
  handle (withdraw id user) s = record s { db = (withdraw_proposal s.db id user).0 }
  handle (review id user verdict comment seen) s = create_review s id user verdict comment seen
  handle (publish at content_written) s = elim (take_out at s.pending) [
    | none ↦ s
    | some (p, pending) ↦ record { db = publish_pending s.db p content_written; pending = pending }
  ]
  handle (elsewhere variants) s = record s { db = record s.db { variants = variants } }

  -- The state after some calls, the last one first.
  unfoldable pub run : (ℕ → Option Text) → List Call → State
  unfolding handle
  run role [] = start role
  run role (c ∷ calls) = handle c (run role calls)
