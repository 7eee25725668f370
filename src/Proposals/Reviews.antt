-- ===== src/Proposals/Reviews.antt =====
-- internal/store/proposals.go: `AddReview` and `PublishProposal`, and internal/store/courses.go:
-- `upsertVariantTx`, of which the write to the variant's row is modelled. Whether the rest, the course,
-- its tags and the lessons and challenges, is written without an error, is a parameter.
use rubber_duck.Prelude.{
  ℕ, ◌+◌, Bool, true, false, not, ◌&&◌, ◌||◌, Option, none, some, List, [], ◌∷◌, ◌++◌, ◌==◌,
  if◌then◌else◌, Text, same, codes,
}
use rubber_duck.Proposals.{
  rejected, published, is_open, Verdict, is_approve, read_verdict, Proposal, Review, Variant, Db,
  not_found, proposal_closed, stale_revision, self_review, version_conflict, invalid_verdict,
  no_user, content_failed, Result, ok, err, update_where, first_where, row_by_id, has_id,
  is_variant, Loaded, load,
}

-- `INSERT INTO proposal_reviews … ON CONFLICT (proposal_id, reviewer_id) DO UPDATE`.
unfoldable pub upsert_review : Review → List Review → List Review
upsert_review r [] = r ∷ []
upsert_review r (x ∷ reviews) =
    let rest = upsert_review r reviews in
    if x.proposal == r.proposal && x.reviewer == r.reviewer then r ∷ reviews else x ∷ rest

-- `domain.ReviewOutcome`
pub record Outcome : Type 0 where
  pub proposal : Loaded
  pub reviewer_is_admin : Bool
  pub closed : Bool

abbrev pub close_rejected : Proposal → Proposal
close_rejected p = record p { status = rejected }

-- The database after the writes, the second of which closes the proposal.
abbrev pub after_review : Db → (id : ℕ) → Review → (closed : Bool) → Db
after_review db id review false = record db { reviews = upsert_review review db.reviews }
after_review db id review true = record db {
  reviews = upsert_review review db.reviews;
  proposals = update_where (has_id id) close_rejected db.proposals;
}

-- The proposal is read again before the transaction commits.
abbrev pub finish_review :
    (before after : Db) → (id : ℕ) → (is_admin closed : Bool) → Db × Result Outcome
finish_review before after id is_admin closed = elim (row_by_id id after.proposals) [
  | none ↦ (before, err not_found)
  | some q ↦ (
    after,
    ok (record { proposal = load after q; reviewer_is_admin = is_admin; closed = closed }),
  )
]

-- The writes, for the row `p` that the transaction has locked.
unfoldable pub record_review :
    Db → Proposal → (reviewer : ℕ) → Verdict → Text → Bool → Db × Result Outcome
unfolding upsert_review update_where first_where load
record_review db p reviewer verdict comment is_admin =
    let review : Review = record {
      proposal = p.id;
      reviewer = reviewer;
      verdict = verdict;
      comment_md = comment;
      revision = p.revision;
    } in
    let closed = is_admin && not (is_approve verdict) in
    finish_review db (after_review db p.id review closed) p.id is_admin closed

abbrev pub is_admin_role : Text → Bool
is_admin_role role = same role (codes "admin")

-- The checks on the reviewer, for the row `p` that the transaction has locked.
unfoldable pub review_as :
    Db → Proposal → (reviewer : ℕ) → Verdict → Text → Option Text → Db × Result Outcome
unfolding record_review same
review_as db p reviewer verdict comment none = (db, err no_user)
review_as db p reviewer verdict comment (some role) =
    if reviewer == p.proposer && (not (is_admin_role role) || not (is_approve verdict))
    then (db, err self_review)
    else record_review db p reviewer verdict comment (is_admin_role role)

unfoldable pub add_review :
    Db → (id reviewer : ℕ) → (verdict comment : Text) → (seen_revision : ℕ) → Db × Result Outcome
unfolding review_as read_verdict first_where
add_review db id reviewer verdict comment seen_revision = elim (read_verdict verdict) [
  | none ↦ (db, err invalid_verdict)
  | some v ↦ elim (row_by_id id db.proposals) [
    | none ↦ (db, err not_found)
    | some p ↦
        if not (is_open p.status)
        then (db, err proposal_closed)
        else if not (seen_revision == p.revision)
        then (db, err stale_revision)
        else review_as db p reviewer v comment (db.role reviewer)
  ]
]

-- A document as `ingest.ToDomain` gives it: the course's slug, the language and the source.
pub record Document : Type 0 where
  pub slug : Text
  pub language : Text
  pub source_md : Text

abbrev pub expects : Option ℕ → ℕ → Bool
expects none version = true
expects (some n) version = n == version

abbrev pub rewrite : Document → Option ℕ → Variant → Variant
rewrite doc edited_by v = record v {
  source_md = doc.source_md;
  version = v.version + 1;
  edited_by = edited_by;
}

-- The variants after the write and the version written, or a version conflict. A variant that is
-- missing has version 0 for the check.
unfoldable pub upsert_variant :
    List Variant → Document → (edited_by expected : Option ℕ) → Option (List Variant × ℕ)
unfolding first_where update_where same
upsert_variant variants doc edited_by expected =
    elim (first_where (is_variant doc.slug doc.language) variants) [
      | none ↦
          let row : Variant = record {
            slug = doc.slug;
            language = doc.language;
            source_md = doc.source_md;
            version = 1;
            edited_by = edited_by;
          } in
          if expects expected 0 then some (variants ++ row ∷ [], 1) else none
      | some v ↦
          if expects expected v.version
          then some (
            update_where (is_variant doc.slug doc.language) (rewrite doc edited_by) variants,
            v.version + 1,
          )
          else none
    ]

abbrev pub close_published : ℕ → Proposal → Proposal
close_published version p = record p { status = published; published_version = some version }

-- The writes, for the row `p` that the transaction has locked.
unfoldable pub publish_row : Db → Proposal → Document → (content_written : Bool) → Db × Result ℕ
unfolding upsert_variant update_where
publish_row db p doc content_written =
    elim (upsert_variant db.variants doc (some p.proposer) (some p.base_version)) [
      | none ↦ (db, err version_conflict)
      | some (variants, version) ↦
          let after = record db {
            variants = variants;
            proposals = update_where (has_id p.id) (close_published version) db.proposals;
          } in
          if content_written then (after, ok version) else (db, err content_failed)
    ]

unfoldable pub publish_proposal :
    Db → (id expected_revision : ℕ) → Document → (content_written : Bool) → Db × Result ℕ
unfolding publish_row first_where
publish_proposal db id expected_revision doc content_written = elim (row_by_id id db.proposals) [
  | none ↦ (db, err not_found)
  | some p ↦
      if not (is_open p.status)
      then (db, err proposal_closed)
      else if not (p.revision == expected_revision)
      then (db, err stale_revision)
      else publish_row db p doc content_written
]
