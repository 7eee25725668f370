-- ===== src/Proposals/Valid.antt =====
-- The invariant of the database.
use rubber_duck.Prelude.{
  ℕ, ◌+◌, ◌≤◌, ◌<◌, Bool, true, ◌&&◌, Option, some, List, [], ◌∷◌, ◌==◌, ◌≡◌, ◌≢◌, inl, inr, refl,
  sym, ap, ◌∙◌, arith, Bool-cases, Text, codes, All, All-append, In,
}
use rubber_duck.Proposals.{is_open, is_approve, Proposal, Review, Db, update_where}
use rubber_duck.Proposals.Reviews.{upsert_review}
use rubber_duck.Proposals.Rows.{
  Pairwise, All-In, All_of, All-weaken, Pairwise-append_one, Pairwise-unique, updated,
  update_where-All, update_where-Pairwise,
}
use rubber_duck.Proposals.Steps.{
  Rules, IsReleased, BothOpen, Keeps, Step, writes, opens, changes, reviews, Steps, here, next,
}

-- Two proposals have different identifiers, and are not both open for one user and variant.
abbrev pub Apart : Proposal → Proposal → Type 0
Apart p q = (p.id ≢ q.id) × ¬ BothOpen p q

-- Two reviews are not by one user of one proposal.
abbrev pub OtherKey : Review → Review → Type 0
OtherKey r s = ¬ ((r.proposal ≡ s.proposal) × (r.reviewer ≡ s.reviewer))

-- If the review is one of the proposal: it is not of a later revision, and if it is the proposer's own,
-- it is an admin's approval.
abbrev pub Fits : (ℕ → Option Text) → Review → Proposal → Type 0
Fits role r p =
    r.proposal ≡ p.id
    → (r.revision ≤ p.revision)
      × (r.reviewer ≡ p.proposer
          → (is_approve r.verdict ≡ true) × (role r.reviewer ≡ some (codes "admin")))

abbrev FitsAll : (ℕ → Option Text) → ℕ → List Proposal → Review → Type 0
FitsAll role next_id proposals r = (r.proposal < next_id) × All (Fits role r) proposals

pub record IsValid (db : Db) : Type 0 where
  pub apart : Pairwise Apart db.proposals
  pub below : All (λ p. p.id < db.next_id) db.proposals
  pub released : All IsReleased db.proposals
  pub one_review : Pairwise OtherKey db.reviews
  pub fits : All (FitsAll db.role db.next_id db.proposals) db.reviews

upsert_review-All :
    (P : Review → Type 0) (r : Review) (rs : List Review)
    → P r
    → All P rs
    → All P (upsert_review r rs)
unfolding upsert_review
upsert_review-All P r [] p h = (p, tt)
upsert_review-All P r (x ∷ rs) p (q, h) =
    elim (Bool-cases (x.proposal == r.proposal && x.reviewer == r.reviewer)) [
      | inl same ↦ rw same (p, h)
      | inr other ↦ rw other (q, upsert_review-All P r rs p h)
    ]

upsert_review-OtherKey :
    (r : Review) (rs : List Review) → Pairwise OtherKey rs → Pairwise OtherKey (upsert_review r rs)
unfolding upsert_review
upsert_review-OtherKey r [] h = (tt, tt)
upsert_review-OtherKey r (x ∷ rs) (p, h) =
    elim (Bool-cases (x.proposal == r.proposal && x.reviewer == r.reviewer)) [
      | inl same ↦ rw same (
        All-weaken (OtherKey x) (OtherKey r) rs
            (λ y other (e, f). other (ground arith, ground arith)) p,
        h,
      )
      | inr other ↦ rw other (
        upsert_review-All (OtherKey x) r rs (λ (e, f). ground arith) p,
        upsert_review-OtherKey r rs h,
      )
    ]

-- What no update changes, or only in one direction.
abbrev pub Kept : Proposal → Proposal → Type 0
Kept p q =
    (q.id ≡ p.id)
    × (q.proposer ≡ p.proposer)
    × (q.course_slug ≡ p.course_slug)
    × (q.language ≡ p.language)
    × (is_open q.status ≡ true → is_open p.status ≡ true)
    × (p.revision ≤ q.revision)

Kept-Apart : (p q p' q' : Proposal) → Kept p p' → Kept q q' → Apart p q → Apart p' q'
Kept-Apart p q p' q' (a, b, c, d, opened_p, _) (a', b', c', d', opened_q, _) (ne, apart) = (
  λ e. ne (omega arith),
  λ (o, o', e, f, g).
      apart (opened_p o, opened_q o', sym b ∙ e ∙ b', sym c ∙ f ∙ c', sym d ∙ g ∙ d'),
)

Kept-Fits :
    (role : ℕ → Option Text) (r : Review) (p q : Proposal)
    → Kept p q
    → Fits role r p
    → Fits role r q
Kept-Fits role r p q (a, b, _, _, _, le) fits =
    λ e. let (le', own) = fits (e ∙ a) in (omega arith, λ f. own (f ∙ b))

pub unique_id :
    (ps : List Proposal)
    → Pairwise Apart ps
    → (p q : Proposal) → In p ps
    → In q ps
    → p.id ≡ q.id
    → p ≡ q
unique_id ps h p q i j e = elim (Pairwise-unique Apart ps p q h i j) [
  | inl same ↦ same
  | inr (inl (ne, _)) ↦ absurd (ne e)
  | inr (inr (ne, _)) ↦ absurd (ne (sym e))
]

module _ (R : Rules) where
  module _ (test : Proposal → Bool) (change : Proposal → Proposal) (xs : List Proposal)
      (keeps : (p : Proposal) → In p xs → test p ≡ true → Keeps R p (change p)) where
    -- What holds of the row that an update makes, if it does of a row kept and of one changed.
    pub updated_cases :
        (P : Proposal → Type 0) (p : Proposal)
        → In p xs
        → P p
        → (Keeps R p (change p) → P (change p))
        → P (updated test change p)
    updated_cases P p i same changed = elim (Bool-cases (test p)) [
      | inl t ↦ rw t (changed (keeps p i t))
      | inr f ↦ rw f same
    ]

    updated-Kept : (p : Proposal) → In p xs → Kept p (updated test change p)
    updated-Kept p i =
        updated_cases (Kept p) p i (refl, refl, refl, refl, (λ e. e), omega arith)
          λ k. (k.id, k.proposer, k.course_slug, k.language, (λ e. k.was_open), k.revision)

    changed-Apart : Pairwise Apart xs → Pairwise Apart (update_where test change xs)
    changed-Apart h = update_where-Pairwise Apart test change xs h λ p q i j apart.
        Kept-Apart p q (updated test change p) (updated test change q) (updated-Kept p i)
          (updated-Kept q j) apart

    changed-below :
        (n : ℕ) → All (λ p. p.id < n) xs → All (λ p. p.id < n) (update_where test change xs)
    changed-below n h =
        update_where-All _ (λ p. p.id < n) test change xs h
          λ p i below. rw (updated-Kept p i).0 below

    changed-IsReleased : All IsReleased xs → All IsReleased (update_where test change xs)
    changed-IsReleased h =
        update_where-All IsReleased IsReleased test change xs h
          λ p i r. updated_cases IsReleased p i r (λ k. k.released)

    changed-Fits :
        (role : ℕ → Option Text) (r : Review)
        → All (Fits role r) xs
        → All (Fits role r) (update_where test change xs)
    changed-Fits role r h =
        update_where-All (Fits role r) (Fits role r) test change xs h
          λ p i fits. Kept-Fits role r p (updated test change p) (updated-Kept p i) fits

  Step-IsValid : (d e : Db) → Step R d e → IsValid d → IsValid e
  Step-IsValid d e (writes variants is) v = rw is (record {
    apart = v.apart;
    below = v.below;
    released = v.released;
    one_review = v.one_review;
    fits = v.fits;
  })
  Step-IsValid d e (opens p new is) v = rw is (record {
    apart = Pairwise-append_one Apart d.proposals p v.apart (
        All_of (λ q. Apart q p) d.proposals
          λ q i. (
            (λ same. omega (arith, All-In (λ q. q.id < d.next_id) d.proposals q v.below i, new.id)),
            All-In (λ q. ¬ BothOpen q p) d.proposals q new.only i,
          ));
    below =
        All-append (λ q. q.id < d.next_id + 1) d.proposals (p ∷ [])
          (All-weaken (λ q. q.id < d.next_id) (λ q. q.id < d.next_id + 1) d.proposals
            (λ q h. omega arith) v.below)
          (omega (arith, new.id), tt);
    released =
        All-append IsReleased d.proposals (p ∷ []) v.released
          (inr ((λ e. cc), new.published_version), tt);
    one_review = v.one_review;
    fits =
        All-weaken (FitsAll d.role d.next_id d.proposals) _ d.reviews
          (λ r (below, h). (
            omega arith,
            All-append (Fits d.role r) d.proposals (p ∷ []) h
                ((λ same. absurd (omega (arith, new.id))), tt),
          ))
          v.fits;
  })
  Step-IsValid d e (changes test change keeps is) v = rw is (record {
    apart = changed-Apart test change d.proposals keeps v.apart;
    below = changed-below test change d.proposals keeps d.next_id v.below;
    released = changed-IsReleased test change d.proposals keeps v.released;
    one_review = v.one_review;
    fits =
        All-weaken (FitsAll d.role d.next_id d.proposals) _ d.reviews
          (λ r (below, h). (below, changed-Fits test change d.proposals keeps d.role r h)) v.fits;
  })
  Step-IsValid d e (reviews p r i is_review is) v = rw is (record {
    apart = v.apart;
    below = v.below;
    released = v.released;
    one_review = upsert_review-OtherKey r d.reviews v.one_review;
    fits =
        upsert_review-All (FitsAll d.role d.next_id d.proposals) r d.reviews
          (
            omega
                (arith, All-In (λ q. q.id < d.next_id) d.proposals p v.below i, is_review.proposal),
            All_of (Fits d.role r) d.proposals (λ q j of_q.
                let same : p ≡ q =
                  unique_id d.proposals v.apart p q i j (sym is_review.proposal ∙ of_q) in
                (
                  omega (arith, is_review.revision, ap (λ (x : Proposal). x.revision) same),
                  λ own. is_review.own (own ∙ sym (ap (λ (x : Proposal). x.proposer) same)),
                )),
          )
          v.fits;
  })

  pub Steps-IsValid : {d e : Db} → Steps R d e → IsValid d → IsValid e
  Steps-IsValid here v = v
  Steps-IsValid (next steps step) v = Step-IsValid _ _ step (Steps-IsValid steps v)
