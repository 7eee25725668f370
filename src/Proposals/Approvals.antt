-- ===== src/Proposals/Approvals.antt =====
-- Approvals: what a count of approvals means.
use rubber_duck.Prelude.{
  ℕ, ◌≤◌, true, ◌&&◌, some, List, [], ◌∷◌, ◌==◌, if◌then◌else◌, ◌≡◌, ◌≢◌, ◌⊎◌, inl, inr, refl,
  arith, Bool-cases, Text, codes, length, All, In,
}
use rubber_duck.Proposals.{is_approve, Proposal, Review, Db, is_open, load, counts_for, count_where}
use rubber_duck.Proposals.Reviews.{upsert_review}
use rubber_duck.Proposals.Rows.{Pairwise, All-In}
use rubber_duck.Proposals.Valid.{IsValid, OtherKey}

-- The user's review stands as an approval of the proposal as it is.
abbrev pub HasApproved : Db → Proposal → ℕ → Type 0
HasApproved db p user =
    (r : Review) × In r db.reviews
    × (r.proposal ≡ p.id)
    × (r.reviewer ≡ user)
    × (is_approve r.verdict ≡ true)
    × (r.revision ≡ p.revision)

-- Distinct users, none of them the proposer, as many as the threshold, have approved it.
abbrev pub Quorum : ℕ → Db → Proposal → Type 0
Quorum threshold db p =
    (users : List ℕ) × (threshold ≤ length users)
    × Pairwise (λ a b. a ≢ b) users
    × All (λ user. (user ≢ p.proposer) × HasApproved db p user) users

-- An admin has approved it.
abbrev pub AdminApproved : Db → Proposal → Type 0
AdminApproved db p = (user : ℕ) × (db.role user ≡ some (codes "admin")) × HasApproved db p user

-- A proposal of that identifier, revision and document is open, and an admin or enough users have
-- approved it.
abbrev pub Approved : ℕ → Db → (id revision : ℕ) → Text → Type 0
Approved threshold db id revision markdown =
    (p : Proposal) × In p db.proposals
    × (p.id ≡ id)
    × (p.revision ≡ revision)
    × (p.proposed_md ≡ markdown)
    × (is_open p.status ≡ true)
    × (AdminApproved db p ⊎ Quorum threshold db p)

-- The users whose approvals are counted.
approvers : Proposal → List Review → List ℕ
approvers p [] = []
approvers p (r ∷ rs) =
    let rest = approvers p rs in if counts_for p r then r.reviewer ∷ rest else rest

length-approvers :
    (p : Proposal) (rs : List Review) → length (approvers p rs) ≡ count_where (counts_for p) rs
unfolding approvers count_where
length-approvers p [] = refl
length-approvers p (r ∷ rs) = elim (Bool-cases (counts_for p r)) [
  | inl c ↦ rw c (omega (arith, length-approvers p rs))
  | inr n ↦ rw n (length-approvers p rs)
]

approvers-All :
    (P : ℕ → Type 0) (p : Proposal) (rs : List Review)
    → ((r : Review) → In r rs → counts_for p r ≡ true → P r.reviewer)
    → All P (approvers p rs)
unfolding approvers
approvers-All P p [] f = tt
approvers-All P p (r ∷ rs) f =
    let rest = approvers-All P p rs (λ s i. f s (inr i)) in
    elim (Bool-cases (counts_for p r)) [ inl c ↦ rw c (f r (inl refl) c, rest) | inr n ↦ rw n rest ]

approvers_distinct :
    (p : Proposal) (rs : List Review)
    → Pairwise OtherKey rs
    → Pairwise (λ a b. a ≢ b) (approvers p rs)
unfolding approvers
approvers_distinct p [] h = tt
approvers_distinct p (r ∷ rs) (other, h) = elim (Bool-cases (counts_for p r)) [
  | inl c ↦ rw c (
    approvers-All (λ user. r.reviewer ≢ user) p rs
        (λ s i c' e. All-In (OtherKey r) rs s other i (ground arith, e)),
    approvers_distinct p rs h,
  )
  | inr n ↦ rw n (approvers_distinct p rs h)
]

-- Enough approvals are a quorum, since a user has one review.
pub count-Quorum :
    (threshold : ℕ) (db : Db) (p : Proposal)
    → IsValid db
    → threshold ≤ (load db p).approvals
    → Quorum threshold db p
unfolding load
count-Quorum threshold db p v enough = (
  approvers p db.reviews,
  omega (arith, length-approvers p db.reviews),
  approvers_distinct p db.reviews v.one_review,
  approvers-All (λ user. (user ≢ p.proposer) × HasApproved db p user) p db.reviews
      λ r i c. ((λ e. ground arith), (r, i, ground arith, refl, ground arith, ground arith)),
)

pub upsert_review-In : (r : Review) (rs : List Review) → In r (upsert_review r rs)
unfolding upsert_review
upsert_review-In r [] = inl refl
upsert_review-In r (x ∷ rs) =
    elim (Bool-cases (x.proposal == r.proposal && x.reviewer == r.reviewer)) [
      | inl same ↦ rw same (inl refl)
      | inr other ↦ rw other (inr (upsert_review-In r rs))
    ]
