-- ===== src/Proposals/Steps.antt =====
-- The steps that a database of proposals may take, said without the queries.
use rubber_duck.Prelude.{
  ℕ, ◌+◌, ◌≤◌, Bool, true, Option, none, some, List, [], ◌∷◌, ◌++◌, ◌≡◌, ◌≢◌, ◌⊎◌, Text, codes, All,
  In,
}
use rubber_duck.Proposals.{
  opened, published, is_open, is_approve, Proposal, Review, Variant, Db, update_where,
}
use rubber_duck.Proposals.Reviews.{upsert_review}

-- A version is recorded exactly with a published proposal.
abbrev pub IsReleased : Proposal → Type 0
IsReleased p =
    ((p.status ≡ published) × (v : ℕ) × (p.published_version ≡ some v))
    ⊎ ((p.status ≢ published) × (p.published_version ≡ none))

-- Both are open and from the same user for the same variant.
abbrev pub BothOpen : Proposal → Proposal → Type 0
BothOpen p q =
    (is_open p.status ≡ true)
    × (is_open q.status ≡ true)
    × (p.proposer ≡ q.proposer)
    × (p.course_slug ≡ q.course_slug)
    × (p.language ≡ q.language)

-- What the steps respect: what may be published, by its identifier, revision and document, and which
-- variant a document may be for.
pub record Rules : Type 1 where
  pub granted : (id revision : ℕ) → Text → Type 0
  pub targets : (slug language : Text) → Text → Type 0

-- What may be made of an open proposal.
pub record Keeps (R : Rules) (p q : Proposal) : Type 0 where
  pub id : q.id ≡ p.id
  pub proposer : q.proposer ≡ p.proposer
  pub course_slug : q.course_slug ≡ p.course_slug
  pub language : q.language ≡ p.language
  pub was_open : is_open p.status ≡ true
  pub revision : p.revision ≤ q.revision
  pub content : p.revision ≡ q.revision → p.proposed_md ≡ q.proposed_md
  pub released : IsReleased q
  pub granted : q.status ≡ published → R.granted q.id q.revision q.proposed_md
  pub targets :
      R.targets p.course_slug p.language p.proposed_md
      → R.targets q.course_slug q.language q.proposed_md

-- A review of the current revision by another user, or an approval by an admin.
pub record Reviews (role : ℕ → Option Text) (p : Proposal) (r : Review) : Type 0 where
  pub proposal : r.proposal ≡ p.id
  pub revision : r.revision ≡ p.revision
  pub own :
      r.reviewer ≡ p.proposer
      → (is_approve r.verdict ≡ true) × (role r.reviewer ≡ some (codes "admin"))

pub record IsNew (R : Rules) (db : Db) (p : Proposal) : Type 0 where
  pub id : p.id ≡ db.next_id
  pub status : p.status ≡ opened
  pub published_version : p.published_version ≡ none
  pub targets : R.targets p.course_slug p.language p.proposed_md
  pub only : All (λ q. ¬ BothOpen q p) db.proposals

module _ (R : Rules) where
  pub data Step (d e : Db) : Type 0 where
    writes : (variants : List Variant) → e ≡ record d { variants = variants } → Step d e
    opens :
        (p : Proposal)
        → IsNew R d p
        → e ≡ record d { proposals = d.proposals ++ p ∷ []; next_id = d.next_id + 1 }
        → Step d e
    changes :
        (test : Proposal → Bool) (change : Proposal → Proposal)
        → ((p : Proposal) → In p d.proposals → test p ≡ true → Keeps R p (change p))
        → e ≡ record d { proposals = update_where test change d.proposals }
        → Step d e
    reviews :
        (p : Proposal) (r : Review)
        → In p d.proposals
        → Reviews d.role p r
        → e ≡ record d { reviews = upsert_review r d.reviews }
        → Step d e

  pub data Steps (d : Db) : Db → Type 0 where
    here : Steps d d
    next : {e f : Db} → Steps d e → Step e f → Steps d f
