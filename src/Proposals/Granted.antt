-- ===== src/Proposals/Granted.antt =====
-- What is published has been approved.
use mathlib.Core.Path.{subst₃}
use rubber_duck.Prelude.{
  ℕ, ◌≤◌, ◌<◌, Option, List, [], ◌∷◌, ◌≡◌, ◌⊎◌, inl, inr, sym, ap, ◌∙◌, arith, Text, All,
  All-append, In,
}
use rubber_duck.Proposals.{published, Proposal, Db}
use rubber_duck.Proposals.Rows.{All-In, All_of, All-weaken, update_where-All}
use rubber_duck.Proposals.Steps.{Rules, Step, writes, opens, changes, reviews, Steps, here, next}
use rubber_duck.Proposals.Valid.{IsValid, unique_id, updated_cases}
use rubber_duck.Proposals.Approvals.{Approved}
use rubber_duck.Proposals.Approving.{handle-pending}
use rubber_duck.Proposals.Server.{Call, handle, run}
use rubber_duck.Proposals.Calls.{MayPublish, handle-Steps, run-IsValid}

module _ (threshold : ℕ) (parse : Text → Option (Text × Text)) where
  -- A proposal of the database is the one in a handler's hands, or a later revision, or another one.
  abbrev pub Follows : Proposal → Proposal → Type 0
  Follows q p =
      p.id ≡ q.id
      → (q.revision ≤ p.revision) × (q.revision ≡ p.revision → q.proposed_md ≡ p.proposed_md)

  abbrev IsKnown : Db → Proposal → Type 0
  IsKnown db q = (q.id < db.next_id) × All (Follows q) db.proposals

  module _ (R : Rules) where
    abbrev WasGranted : Proposal → Type 0
    WasGranted p = p.status ≡ published → R.granted p.id p.revision p.proposed_md

    Step-WasGranted :
        (d e : Db) → Step R d e → All WasGranted d.proposals → All WasGranted e.proposals
    Step-WasGranted d e (writes variants is) h = rw is h
    Step-WasGranted d e (opens p new is) h = rw is (
        All-append WasGranted d.proposals (p ∷ []) h ((λ e. absurd (let o = new.status in cc)), tt))
    Step-WasGranted d e (changes test change keeps is) h = rw is (
        update_where-All WasGranted WasGranted test change d.proposals h λ p i was.
          updated_cases R test change d.proposals keeps WasGranted p i was (λ k. k.granted))
    Step-WasGranted d e (reviews p r _ _ is) h = rw is h

    Step-IsKnown : (d e : Db) (q : Proposal) → Step R d e → IsKnown d q → IsKnown e q
    Step-IsKnown d e q (writes variants is) h = rw is h
    Step-IsKnown d e q (opens p new is) (below, h) = rw is (
      omega arith,
      All-append (Follows q) d.proposals (p ∷ []) h ((λ e. absurd (omega (arith, new.id))), tt),
    )
    Step-IsKnown d e q (changes test change keeps is) (below, h) = rw is (
      below,
      update_where-All (Follows q) (Follows q) test change d.proposals h λ p i follows.
          updated_cases R test change d.proposals keeps (Follows q) p i follows λ k e.
            let (le, same) = follows (sym k.id ∙ e) in
            (
              omega (arith, k.revision),
              λ f.
                  let first : q.revision ≡ p.revision = omega (arith, k.revision) in
                  same first ∙ k.content (omega arith),
            ),
    )
    Step-IsKnown d e q (reviews p r _ _ is) h = rw is h

    Steps-WasGranted :
        {d e : Db} → Steps R d e → All WasGranted d.proposals → All WasGranted e.proposals
    Steps-WasGranted here h = h
    Steps-WasGranted (next steps step) h = Step-WasGranted _ _ step (Steps-WasGranted steps h)

    Steps-IsKnown : {d e : Db} (q : Proposal) → Steps R d e → IsKnown d q → IsKnown e q
    Steps-IsKnown q here h = h
    Steps-IsKnown q (next steps step) h = Step-IsKnown _ _ q step (Steps-IsKnown q steps h)

  module _ (role : ℕ → Option Text) where
    -- After some of the calls, an open proposal of that identifier, revision and document was
    -- approved by an admin or by enough users.
    abbrev pub Granted : List Call → ℕ → ℕ → Text → Type 0
    Granted [] id revision markdown = ⊥
    Granted (c ∷ calls) id revision markdown =
        Approved threshold (run threshold parse role (c ∷ calls)).db id revision markdown
        ⊎ Granted calls id revision markdown

    abbrev rules : List Call → Rules
    rules calls = record { granted = Granted calls; targets = λ slug language markdown. Unit }

    record Held (calls : List Call) : Type 0 where
      rows : All (WasGranted (rules calls)) (run threshold parse role calls).db.proposals
      pending :
          All
            (λ q.
              Granted calls q.id q.revision q.proposed_md
              × IsKnown (run threshold parse role calls).db q)
            (run threshold parse role calls).pending

    -- A handler ships the document that was approved: the revision is the same, so the document is.
    may_publish :
        (calls : List Call)
        → Held calls
        → All
            (MayPublish (rules calls) (run threshold parse role calls).db)
            (run threshold parse role calls).pending
    may_publish calls h = All_of _ (run threshold parse role calls).pending λ q i p j e f.
        let (granted, (below, follow)) =
          All-In _ (run threshold parse role calls).pending q h.pending i in
        let (_, content) =
          All-In (Follows q) (run threshold parse role calls).db.proposals p follow j e in
        subst₃ (Granted calls) (sym e) (sym f) (content (sym f)) granted

    run-Held : (calls : List Call) → Held calls
    unfolding run
    run-Held [] = record { rows = tt; pending = tt }
    run-Held (c ∷ calls) =
        let s = run threshold parse role calls in
        let s' = handle threshold parse c s in
        let h = run-Held calls in
        let v = run-IsValid threshold parse role calls in
        let w : IsValid s'.db = run-IsValid threshold parse role (c ∷ calls) in
        let steps =
          handle-Steps threshold parse (rules calls) (λ slug language markdown e. tt) s v
            (may_publish calls h) c in
        record {
          rows =
              All-weaken (WasGranted (rules calls)) (WasGranted (rules (c ∷ calls))) s'.db.proposals
                (λ p was e. inr (was e)) (Steps-WasGranted (rules calls) steps h.rows);
          pending = All_of _ s'.pending λ q i. elim (handle-pending threshold parse s c v w q i) [
            | inl old ↦
                let (granted, known) = All-In _ s.pending q h.pending old in
                (inr granted, Steps-IsKnown (rules calls) q steps known)
            | inr (j, approved) ↦ (
              inl approved,
              (
                All-In (λ p. p.id < s'.db.next_id) s'.db.proposals q w.below j,
                All_of (Follows q) s'.db.proposals λ p k e.
                    let same : q ≡ p = unique_id s'.db.proposals w.apart q p j k (sym e) in
                    (
                      omega (arith, ap (λ (x : Proposal). x.revision) same),
                      λ f. ap (λ (x : Proposal). x.proposed_md) same,
                    ),
              ),
            )
          ];
        }

pub run-Follows :
    (threshold : ℕ) (parse : Text → Option (Text × Text)) (role : ℕ → Option Text)
    → (calls : List Call) (q : Proposal) → In q (run threshold parse role calls).pending
    → All (Follows threshold parse q) (run threshold parse role calls).db.proposals
run-Follows threshold parse role calls q i =
    let s = run threshold parse role calls in
    let (_, known) = All-In _ s.pending q (run-Held threshold parse role calls).pending i in known.1

-- If a proposal is published after some calls, in any order, then after some of them a proposal of
-- its identifier, its revision and its document stood open, with the approval of an admin, or of as
-- many distinct users other than the proposer as the threshold says, for that revision.
pub run-Granted :
    (threshold : ℕ) (parse : Text → Option (Text × Text)) (role : ℕ → Option Text)
    → (calls : List Call) (p : Proposal) → In p (run threshold parse role calls).db.proposals
    → p.status ≡ published
    → Granted threshold parse role calls p.id p.revision p.proposed_md
run-Granted threshold parse role calls p i e =
    All-In (WasGranted threshold parse (rules threshold parse role calls))
      (run threshold parse role calls).db.proposals p (run-Held threshold parse role calls).rows i e
