-- ===== src/Proposals/Outcomes.antt =====
-- `PublishProposal` is all or nothing.
use mathlib.Core.Path.{subst}
use rubber_duck.Prelude.{
  ℕ, Bool, true, some, ◌==◌, ==_iff, ◌≡◌, ◌⊎◌, inl, inr, refl, Bool-cases, Option-cases, In,
}
use rubber_duck.Proposals.{Proposal, Db, Result, ok, err, is_open, update_where, row_by_id, has_id}
use rubber_duck.Proposals.Reviews.{
  Document, upsert_variant, close_published, publish_row, publish_proposal,
}
use rubber_duck.Proposals.Rows.{first_where-some, updated, update_where-In}
use rubber_duck.Proposals.Upsert.{Wrote, upsert_variant-Wrote}

-- An open proposal is published: the variant was at its base version, and is at the next one with
-- the document, by the proposer.
pub record Published (before after : Db) (id revision : ℕ) (doc : Document) : Type 0 where
  pub row : Proposal
  pub found : In row before.proposals
  pub id_is : row.id ≡ id
  pub revision_is : row.revision ≡ revision
  pub was_open : is_open row.status ≡ true
  pub version : ℕ
  pub wrote : Wrote before.variants after.variants doc (some row.proposer) row.base_version version
  pub closed : In (close_published version row) after.proposals

-- All or nothing.
abbrev pub Outcomes : Db → (id revision : ℕ) → Document → Db × Result ℕ → Type 0
Outcomes db id revision doc (after, err e) = after ≡ db
Outcomes db id revision doc (after, ok version) = Published db after id revision doc

publish_row-Outcomes :
    (db : Db) (p : Proposal) (doc : Document) (written : Bool)
    → In p db.proposals
    → is_open p.status ≡ true
    → Outcomes db p.id p.revision doc (publish_row db p doc written)
unfolding publish_row
publish_row-Outcomes db p doc written i o =
    elim (Option-cases (upsert_variant db.variants doc (some p.proposer) (some p.base_version))) [
      | inl conflict ↦ rw (publish_row, conflict) refl
      | inr ((variants, version), done) ↦ elim (Bool-cases written) [
        | inr failed ↦ rw (publish_row, done, failed) refl
        | inl complete ↦
            rw (publish_row, done, complete)
              (record {
                row = p;
                found = i;
                id_is = refl;
                revision_is = refl;
                was_open = o;
                version = version;
                wrote =
                    upsert_variant-Wrote db.variants variants doc (some p.proposer) p.base_version
                      version done;
                closed = published_row version;
              })
      ]
    ]
  where
    published_row :
        (version : ℕ)
        → In
            (close_published version p)
            (update_where (has_id p.id) (close_published version) db.proposals)
    published_row version =
        let own : updated (has_id p.id) (close_published version) p ≡ close_published version p =
          rw ((==_iff p.id p.id).1 refl) refl in
        subst (λ q. In q (update_where (has_id p.id) (close_published version) db.proposals)) own
          (update_where-In (has_id p.id) (close_published version) db.proposals p i)

pub publish_proposal-Outcomes :
    (db : Db) (id expected : ℕ) (doc : Document) (written : Bool)
    → Outcomes db id expected doc (publish_proposal db id expected doc written)
unfolding publish_proposal
publish_proposal-Outcomes db id expected doc written =
    elim (Option-cases (row_by_id id db.proposals)) [
      | inl lost ↦ rw (publish_proposal, lost) refl
      | inr (p, at) ↦
          let (i, is) = first_where-some (has_id id) db.proposals p at in
          elim (Bool-cases (is_open p.status)) [
            | inr closed ↦ rw (publish_proposal, at, closed) refl
            | inl o ↦ elim (Bool-cases (p.revision == expected)) [
              | inr stale ↦ rw (publish_proposal, at, o, stale) refl
              | inl current ↦
                  rw (publish_proposal, at, o, current)
                    (rw (← (==_iff p.id id).0 is, ← (==_iff p.revision expected).0 current)
                      (publish_row-Outcomes db p doc written i o))
            ]
          ]
    ]

pub Outcomes-cases :
    (db : Db) (id revision : ℕ) (doc : Document) (r : Db × Result ℕ)
    → Outcomes db id revision doc r
    → (r.0 ≡ db) ⊎ Published db r.0 id revision doc
Outcomes-cases db id revision doc (after, err e) h = inl h
Outcomes-cases db id revision doc (after, ok version) h = inr h
