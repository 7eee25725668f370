-- ===== src/Proposals/Calls.antt =====
-- The calls of the handlers as steps, and the invariant after any of them.
use rubber_duck.Prelude.{
  ℕ, zero, suc, Bool, true, false, ◌&&◌, Option, none, some, List, ==_iff, same, same_iff, ◌∙◌, [],
  ◌∷◌, ◌≡◌, inl, inr, refl, sym, ap, arith, Bool-cases, Option-cases, Text, All, In,
}
use mathlib.Core.Option.{some-injective}
use mathlib.Core.Path.{subst}
use rubber_duck.Proposals.{Proposal, Db, row_by_id, has_id, Result, ok, err}
use rubber_duck.Proposals.Reviews.{Outcome, Document, add_review}
use rubber_duck.Proposals.Server.{
  Call, create, update, withdraw, review, publish, elsewhere, State, start, settle, should_publish,
  publish_pending, take_out, is_for, update_for, handle, run,
}
use rubber_duck.Proposals.Rows.{All-In, All_of, first_where-some}
use rubber_duck.Proposals.Steps.{Rules, writes, Steps, here, next}
use rubber_duck.Proposals.Valid.{IsValid, unique_id, Steps-IsValid}
use rubber_duck.Proposals.Refined.{
  create_proposal-Steps, update_proposal_markdown-Steps, withdraw_proposal-Steps,
}
use rubber_duck.Proposals.Refined.Reviewed.{add_review-Steps, publish_proposal-Steps}

-- The proposal in a handler's hands may be published as it then stands in the database.
abbrev pub MayPublish : Rules → Db → Proposal → Type 0
MayPublish R db q =
    (p : Proposal)
    → In p db.proposals
    → p.id ≡ q.id
    → p.revision ≡ q.revision
    → R.granted p.id p.revision p.proposed_md

earlier :
    (x : Proposal) (ps qs : List Proposal) (q : Proposal)
    → (In q qs → In q ps)
    → In q (x ∷ qs)
    → In q (x ∷ ps)
earlier x ps qs q sub (inl is) = inl is
earlier x ps qs q sub (inr i) = inr (sub i)

pub take_out-In :
    (n : ℕ) (ps qs : List Proposal) (p : Proposal)
    → take_out n ps ≡ some (p, qs)
    → In p ps × ((q : Proposal) → In q qs → In q ps)
take_out-In n [] qs p e = absurd (ground arith)
take_out-In zero (x ∷ ps) qs p e =
    let same : (x, ps) ≡ (p, qs) = some-injective _ _ e in
    let head : x ≡ p = ap (λ (z : Proposal × List Proposal). z.0) same in
    let tail : ps ≡ qs = ap (λ (z : Proposal × List Proposal). z.1) same in
    (inl (sym head), λ q i. inr (subst (λ l. In q l) (sym tail) i))
take_out-In (suc n) (x ∷ ps) qs p e = elim (Option-cases (take_out n ps)) [
  | inl lost ↦ absurd (ground arith)
  | inr ((p', qs'), found) ↦
      let same : (p', x ∷ qs') ≡ (p, qs) = some-injective _ _ (rw found at e) in
      let head : p' ≡ p = ap (λ (z : Proposal × List Proposal). z.0) same in
      let tail : x ∷ qs' ≡ qs = ap (λ (z : Proposal × List Proposal). z.1) same in
      let (i, sub) = take_out-In n ps qs' p' found in
      (
        inr (subst (λ z. In z ps) head i),
        λ q j. earlier x ps qs' q (sub q) (subst (λ l. In q l) (sym tail) j),
      )
]

module _ (threshold : ℕ) (parse : Text → Option (Text × Text)) where
  pub settle-db :
      (s : State) (verdict : Text) (r : Db × Result Outcome)
      → (settle threshold parse s verdict r).db ≡ r.0
  settle-db s verdict (db, err e) = refl
  settle-db s verdict (db, ok out) =
      elim (Bool-cases (should_publish threshold parse verdict out)) [
        | inl publishes ↦ rw publishes refl
        | inr waits ↦ rw waits refl
      ]

  -- The check on a document.
  is_for-parse :
      (markdown slug language : Text)
      → is_for threshold parse markdown slug language ≡ true
      → parse markdown ≡ some (slug, language)
  is_for-parse markdown slug language e = elim (Option-cases (parse markdown)) [
    | inl bad ↦ absurd (
        let no : is_for threshold parse markdown slug language ≡ false = rw (is_for, bad) refl in
        cc)
    | inr ((slug', language'), parsed) ↦
        let both : (same slug' slug && same language' language) ≡ true = rw (is_for, parsed) at e in
        rw parsed (ground (arith, same_iff slug' slug, same_iff language' language))
  ]

  module _ (R : Rules)
      (allowed : (slug language markdown : Text)
        → parse markdown ≡ some (slug, language)
        → R.targets slug language markdown) where
    publish_pending-Steps :
        (db : Db) (q : Proposal) (written : Bool)
        → IsValid db
        → MayPublish R db q
        → Steps R db (publish_pending threshold parse db q written)
    publish_pending-Steps db q written v may = elim (Option-cases (parse q.proposed_md)) [
      | inl bad ↦ rw (publish_pending, bad) here
      | inr ((slug, language), parsed) ↦
          let doc : Document = record {
            slug = slug;
            language = language;
            source_md = q.proposed_md;
          } in
          rw (publish_pending, parsed)
            (publish_proposal-Steps R db v q.id q.revision doc written may)
    ]

    update_for-Steps :
        (s : State) (id user : ℕ) (title summary markdown : Text) (found : Option Proposal)
        → row_by_id id s.db.proposals ≡ found
        → IsValid s.db
        → Steps R s.db (update_for threshold parse s id user title summary markdown found).db
    update_for-Steps s id user title summary markdown none e v = here
    update_for-Steps s id user title summary markdown (some p) e v =
        elim (Bool-cases (is_for threshold parse markdown p.course_slug p.language)) [
          | inr other ↦ rw (update_for, other) here
          | inl for_it ↦
              let (i, is) = first_where-some (has_id id) s.db.proposals p e in
              rw (update_for, for_it)
                (update_proposal_markdown-Steps R s.db v id user title summary markdown λ q j of_q.
                  let same : p ≡ q =
                    unique_id s.db.proposals v.apart p q i j ((==_iff p.id id).0 is ∙ sym of_q) in
                  subst (λ (x : Proposal). R.targets x.course_slug x.language markdown) same
                    (allowed p.course_slug p.language markdown
                      (is_for-parse markdown p.course_slug p.language for_it)))
        ]

    pub handle-Steps :
        (s : State)
        → IsValid s.db
        → All (MayPublish R s.db) s.pending
        → (c : Call) → Steps R s.db (handle threshold parse c s).db
    unfolding handle
    handle-Steps s v may (create proposer slug language title summary markdown) =
        elim (Bool-cases (is_for threshold parse markdown slug language)) [
          | inr other ↦ rw (handle, other) here
          | inl for_it ↦
              rw (handle, for_it)
                (create_proposal-Steps R s.db v proposer slug language title summary markdown
                  (allowed slug language markdown (is_for-parse markdown slug language for_it)))
        ]
    handle-Steps s v may (update id user title summary markdown) =
        update_for-Steps s id user title summary markdown (row_by_id id s.db.proposals) refl v
    handle-Steps s v may (withdraw id user) = withdraw_proposal-Steps R s.db v id user
    handle-Steps s v may (review id user verdict comment seen) =
        rw (settle-db s verdict (add_review s.db id user verdict comment seen))
          (add_review-Steps R s.db v id user verdict comment seen)
    handle-Steps s v may (publish at written) = elim (Option-cases (take_out at s.pending)) [
      | inl lost ↦ rw (handle, lost) here
      | inr ((q, pending), found) ↦
          let (i, _) = take_out-In at s.pending pending q found in
          rw (handle, found)
            (publish_pending-Steps s.db q written v (All-In (MayPublish R s.db) s.pending q may i))
    ]
    handle-Steps s v may (elsewhere variants) = next here (writes variants refl)

  -- Any step, where nothing is asked of what is published.
  abbrev pub free : Rules
  free = record { granted = λ id revision markdown. Unit; targets = λ slug language markdown. Unit }

  pub handle-free :
      (s : State) → IsValid s.db → (c : Call) → Steps free s.db (handle threshold parse c s).db
  handle-free s v c =
      handle-Steps free (λ slug language markdown e. tt) s v
        (All_of _ s.pending (λ q i p j e f. tt)) c

  start-IsValid : (role : ℕ → Option Text) → IsValid (start role).db
  start-IsValid role = record { apart = tt; below = tt; released = tt; one_review = tt; fits = tt }

  -- After any calls, in any order: identifiers are distinct, no user has two open proposals for one
  -- variant, a version is recorded exactly with the published proposals, a user has at most one review
  -- of a proposal, no review is of a revision to come, and the proposer's own review is an
  -- admin's approval.
  pub run-IsValid :
      (role : ℕ → Option Text) (calls : List Call) → IsValid (run threshold parse role calls).db
  unfolding run
  run-IsValid role [] = start-IsValid role
  run-IsValid role (c ∷ calls) =
      let s = run threshold parse role calls in
      Steps-IsValid free (handle-free s (run-IsValid role calls) c) (run-IsValid role calls)
