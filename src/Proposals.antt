-- ===== src/Proposals.antt =====
-- internal/store/proposals.go, and of internal/store/courses.go the write to a variant: the proposals
-- of new course versions and their reviews. A table is the list of its rows, and an operation
-- gives the database after it: the one before it where the transaction is rolled back. Times and
-- a failure of the database itself are left out.
pub mod Reviews
pub mod Rows
pub mod Server
pub mod Steps
pub mod Cases
pub mod Refined
pub mod Calls
pub mod Valid
pub mod Closed
pub mod Approvals
pub mod Approving
pub mod Granted
pub mod Upsert
pub mod Outcomes
pub mod Published
pub mod Tests
use rubber_duck.Prelude.{
  ℕ, ◌+◌, Bool, true, false, not, ◌&&◌, ◌||◌, Option, none, some, List, [], ◌∷◌, ◌++◌, ◌==◌,
  if◌then◌else◌, Text, same, codes,
}

pub data Status : Type 0 where
  opened published rejected withdrawn : Status

abbrev pub is_open : Status → Bool
is_open s = elim s [ opened ↦ true | _ ↦ false ]

pub data Verdict : Type 0 where
  approve reject : Verdict

abbrev pub is_approve : Verdict → Bool
is_approve v = elim v [ approve ↦ true | reject ↦ false ]

-- A verdict that is neither of the two constants is refused.
unfoldable pub read_verdict : Text → Option Verdict
unfolding same
read_verdict t =
    if same t (codes "approve")
    then some approve
    else if same t (codes "reject")
    then some reject
    else none

pub record Proposal : Type 0 where
  pub id : ℕ
  pub proposer : ℕ
  pub course_slug : Text
  pub language : Text
  pub title : Text
  pub summary_md : Text
  pub proposed_md : Text
  pub base_version : ℕ
  pub revision : ℕ
  pub status : Status
  pub published_version : Option ℕ

pub record Review : Type 0 where
  pub proposal : ℕ
  pub reviewer : ℕ
  pub verdict : Verdict
  pub comment_md : Text
  pub revision : ℕ

-- A row of `course_variants`, with its course's slug for the reference to the course.
pub record Variant : Type 0 where
  pub slug : Text
  pub language : Text
  pub source_md : Text
  pub version : ℕ
  pub edited_by : Option ℕ

-- `next_id` is the next value of the identity column of `proposals`; `role` is the table of users,
-- fixed: no operation here changes it, and a promotion of a user between calls is not modelled.
pub record Db : Type 0 where
  pub proposals : List Proposal
  pub next_id : ℕ
  pub reviews : List Review
  pub variants : List Variant
  pub role : ℕ → Option Text

pub data Error : Type 0 where
  not_found duplicate_proposal proposal_closed stale_revision self_review version_conflict
        invalid_verdict no_user content_failed :
      Error

pub data Result (A : Type 0) : Type 0 where
  ok : A → Result A
  err : Error → Result A

-- `UPDATE … SET change WHERE test`.
unfoldable pub update_where : {A : Type 0} → (A → Bool) → (A → A) → List A → List A
update_where test change [] = []
update_where test change (x ∷ xs) = (if test x then change x else x) ∷ update_where test change xs

unfoldable pub any : {A : Type 0} → (A → Bool) → List A → Bool
any test [] = false
any test (x ∷ xs) = test x || any test xs

unfoldable pub first_where : {A : Type 0} → (A → Bool) → List A → Option A
first_where test [] = none
first_where test (x ∷ xs) = let rest = first_where test xs in if test x then some x else rest

unfoldable pub count_where : {A : Type 0} → (A → Bool) → List A → ℕ
count_where test [] = 0
count_where test (x ∷ xs) = let rest = count_where test xs in if test x then 1 + rest else rest

abbrev pub has_id : ℕ → Proposal → Bool
has_id id p = p.id == id

abbrev pub row_by_id : ℕ → List Proposal → Option Proposal
row_by_id id proposals = first_where (has_id id) proposals

abbrev pub is_variant : (slug language : Text) → Variant → Bool
is_variant slug language v = same v.slug slug && same v.language language

unfoldable pub live_version : List Variant → (slug language : Text) → ℕ
unfolding first_where same
live_version variants slug language = elim (first_where (is_variant slug language) variants) [
  | none ↦ 0
  | some v ↦ v.version
]

-- The approvals that count, in `proposalCols`.
abbrev pub counts_for : Proposal → Review → Bool
counts_for p r =
    r.proposal == p.id
    && (is_approve r.verdict && (r.revision == p.revision && not (r.reviewer == p.proposer)))

-- `domain.Proposal`: a row with its two computed fields.
pub record Loaded : Type 0 where
  pub row : Proposal
  pub approvals : ℕ
  pub live : ℕ

unfoldable pub load : Db → Proposal → Loaded
unfolding live_version count_where
load db p = record {
  row = p;
  approvals = count_where (counts_for p) db.reviews;
  live = live_version db.variants p.course_slug p.language;
}

-- `proposalByID`.
unfoldable pub proposal_by_id : Db → ℕ → Result Loaded
unfolding first_where load
proposal_by_id db id = elim (row_by_id id db.proposals) [
  | none ↦ err not_found
  | some p ↦ ok (load db p)
]

-- The index `one_open_proposal_per_user_variant`.
abbrev pub clashes : (proposer : ℕ) (slug language : Text) → Proposal → Bool
clashes proposer slug language p =
    is_open p.status
    && (p.proposer == proposer && (same p.course_slug slug && same p.language language))

unfoldable pub create_proposal :
    Db → (proposer : ℕ) (slug language title summary markdown : Text) → Db × Result Loaded
unfolding any same live_version proposal_by_id
create_proposal db proposer slug language title summary markdown =
    if any (clashes proposer slug language) db.proposals
    then (db, err duplicate_proposal)
    else let row : Proposal = record {
      id = db.next_id;
      proposer = proposer;
      course_slug = slug;
      language = language;
      title = title;
      summary_md = summary;
      proposed_md = markdown;
      base_version = live_version db.variants slug language;
      revision = 1;
      status = opened;
      published_version = none;
    } in
      let after = record db { proposals = db.proposals ++ row ∷ []; next_id = db.next_id + 1 } in
      (after, proposal_by_id after db.next_id)

-- The rows that an update of the proposer's own open proposal finds.
abbrev pub is_own_open : (id user : ℕ) → Proposal → Bool
is_own_open id user p = has_id id p && (p.proposer == user && is_open p.status)

-- Why an update of the proposer found no row.
unfoldable pub refusal : Db → (id user : ℕ) → Error
unfolding first_where
refusal db id user = elim (row_by_id id db.proposals) [
  | none ↦ not_found
  | some p ↦ if p.proposer == user && not (is_open p.status) then proposal_closed else not_found
]

abbrev pub revise : Db → (title summary markdown : Text) → Proposal → Proposal
revise db title summary markdown p = record p {
  title = title;
  summary_md = summary;
  proposed_md = markdown;
  revision = p.revision + 1;
  base_version = live_version db.variants p.course_slug p.language;
}

unfoldable pub update_proposal_markdown :
    Db → (id proposer : ℕ) (title summary markdown : Text) → Db × Result Loaded
unfolding any update_where refusal proposal_by_id
update_proposal_markdown db id proposer title summary markdown =
    let after = record db {
      proposals =
          update_where (is_own_open id proposer) (revise db title summary markdown) db.proposals;
    } in
    if any (is_own_open id proposer) db.proposals
    then (after, proposal_by_id after id)
    else (db, err (refusal db id proposer))

unfoldable pub withdraw_proposal : Db → (id proposer : ℕ) → Db × Result Unit
unfolding any update_where refusal
withdraw_proposal db id proposer =
    let close = λ (p : Proposal). record p { status = withdrawn } in
    let after = record db {
      proposals = update_where (is_own_open id proposer) close db.proposals;
    } in
    if any (is_own_open id proposer) db.proposals
    then (after, ok tt)
    else (db, err (refusal db id proposer))
