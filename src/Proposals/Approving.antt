-- ===== src/Proposals/Approving.antt =====
-- What a handler has in its hands when it is about to publish has been approved.
use mathlib.Core.Path.{subst}
use rubber_duck.Prelude.{
  ℕ, ◌≤◌, Bool, true, false, ◌&&◌, Option, none, some, ==_iff, ◌≡◌, ◌⊎◌, inl, inr, refl, sym, ap,
  ◌∙◌, arith, Bool-cases, Option-cases, Text, same_iff, codes, In,
}
use rubber_duck.Proposals.{
  Verdict, approve, reject, is_approve, Proposal, Review, Db, Result, ok, err, is_open, has_id,
  row_by_id, Loaded, load,
}
use rubber_duck.Proposals.Reviews.{
  Outcome, add_review, record_review, finish_review, after_review, is_admin_role,
}
use rubber_duck.Proposals.Rows.{In-append_one, first_where-some}
use rubber_duck.Proposals.Cases.{Accepts, add_review_cases}
use rubber_duck.Proposals.Steps.{Reviews}
use rubber_duck.Proposals.Valid.{IsValid, unique_id}
use rubber_duck.Proposals.Approvals.{HasApproved, Approved, count-Quorum, upsert_review-In}
use rubber_duck.Proposals.Server.{
  Call, create, update, withdraw, review, publish, elsewhere, State, is_approval, should_publish,
  settle, take_out, is_for, update_for, handle,
}
use rubber_duck.Proposals.Calls.{settle-db, take_out-In}

-- What `AddReview` gives back for an approval.
record Approving (user : ℕ) (db : Db) (out : Outcome) : Type 0 where
  at : In out.proposal.row db.proposals
  was_open : is_open out.proposal.row.status ≡ true
  approved : HasApproved db out.proposal.row user
  admin : out.reviewer_is_admin ≡ true → db.role user ≡ some (codes "admin")
  counted : out.proposal ≡ load db out.proposal.row

abbrev Sound : ℕ → Text → Db × Result Outcome → Type 0
Sound user verdict (db, err e) = Unit
Sound user verdict (db, ok out) = is_approval verdict ≡ true → Approving user db out

finish_review-Sound :
    (user : ℕ) (verdict : Text) (before after : Db) (id : ℕ) (is_admin closed : Bool)
    → ((q : Proposal)
        → row_by_id id after.proposals ≡ some q
        → is_approval verdict ≡ true
        → Approving user after
            (record { proposal = load after q; reviewer_is_admin = is_admin; closed = closed }))
    → Sound user verdict (finish_review before after id is_admin closed)
finish_review-Sound user verdict before after id is_admin closed f =
    elim (Option-cases (row_by_id id after.proposals)) [
      | inl lost ↦ rw (finish_review, lost) tt
      | inr (q, at) ↦ rw (finish_review, at) (f q at)
    ]

&&-false : (b : Bool) → (b && false) ≡ false
&&-false true = refl
&&-false false = refl

module _ (db : Db) (id user : ℕ) (verdict comment : Text) (seen : ℕ) (v : IsValid db) where
  after_review-Approving :
      (p : Proposal) (role : Text) (r : Review) (closed : Bool)
      → Accepts db id user verdict comment seen p approve role
      → r.reviewer ≡ user
      → Reviews db.role p r
      → is_approve r.verdict ≡ true
      → closed ≡ false
      → (q : Proposal) → row_by_id p.id (after_review db p.id r closed).proposals ≡ some q
      → Approving user (after_review db p.id r closed) (record {
        proposal = load (after_review db p.id r closed) q;
        reviewer_is_admin = is_admin_role role;
        closed = closed;
      })
  unfolding load
  after_review-Approving p role r true a by is approves e q at = absurd (ground arith)
  after_review-Approving p role r false a by is approves e q at =
      let (i, has) = first_where-some (has_id p.id) db.proposals q at in
      let same : p ≡ q =
        unique_id db.proposals v.apart p q a.found i (sym ((==_iff q.id p.id).0 has)) in
      record {
        at = i;
        was_open = ap (λ (x : Proposal). is_open x.status) (sym same) ∙ a.was_open;
        approved = (
          r,
          upsert_review-In r db.reviews,
          is.proposal ∙ ap (λ (x : Proposal). x.id) same,
          by,
          approves,
          is.revision ∙ ap (λ (x : Proposal). x.revision) same,
        );
        admin = λ admin. a.role_is ∙ ap some ((same_iff role (codes "admin")).0 admin);
        counted = refl;
      }

  accepted-Sound :
      (p : Proposal) (v' : Verdict) (role : Text)
      → Accepts db id user verdict comment seen p v' role
      → Sound user verdict (record_review db p user v' comment (is_admin_role role))
  unfolding record_review
  accepted-Sound p reject role a = finish_review-Sound user verdict db _ p.id _ _ λ q at approval.
      let rejection : is_approval verdict ≡ false =
        ap (λ o. elim o [ none ↦ false | some v' ↦ is_approve v' ]) a.read in
      absurd (cc)
  accepted-Sound p approve role a =
      let r : Review = record {
        proposal = p.id;
        reviewer = user;
        verdict = approve;
        comment_md = comment;
        revision = p.revision;
      } in
      finish_review-Sound user verdict db (after_review db p.id r (is_admin_role role && false))
        p.id (is_admin_role role) (is_admin_role role && false)
        λ q at approval.
          after_review-Approving p role r (is_admin_role role && false) a refl
            (record { proposal = refl; revision = refl; own = a.own }) refl
            (&&-false (is_admin_role role)) q at

  add_review-Sound : Sound user verdict (add_review db id user verdict comment seen)
  add_review-Sound =
      add_review_cases db id user verdict comment seen (Sound user verdict) (λ e. tt) accepted-Sound

module _ (threshold : ℕ) (parse : Text → Option (Text × Text)) where
  abbrev pub IsApproved : Db → Proposal → Type 0
  IsApproved db q = In q db.proposals × Approved threshold db q.id q.revision q.proposed_md

  settle-pending :
      (s : State) (user : ℕ) (verdict : Text) (r : Db × Result Outcome)
      → IsValid r.0
      → Sound user verdict r
      → (q : Proposal) → In q (settle threshold parse s verdict r).pending
      → In q s.pending ⊎ IsApproved r.0 q
  settle-pending s user verdict (db, err e) v sound q i = inl i
  settle-pending s user verdict (db, ok out) v sound q i =
      elim (Bool-cases (should_publish threshold parse verdict out)) [
        | inr waits ↦ inl (rw (settle, waits) at i)
        | inl publishes ↦
            elim (In-append_one s.pending out.proposal.row q (rw (settle, publishes) at i)) [
              | inl old ↦ inl old
              | inr same ↦
                  let a = sound (ground arith) in
                  let row = out.proposal.row in
                  let approved : IsApproved db row = (
                    a.at,
                    (
                      row,
                      a.at,
                      refl,
                      refl,
                      refl,
                      a.was_open,
                      elim (Bool-cases out.reviewer_is_admin) [
                        | inl admin ↦ inl (user, a.admin admin, a.approved)
                        | inr other ↦ inr (
                            count-Quorum threshold db row v (
                              let enough : threshold ≤ out.proposal.approvals = ground arith in
                              subst (λ (l : Loaded). threshold ≤ l.approvals) a.counted enough))
                      ],
                    ),
                  ) in
                  inr (subst (IsApproved db) (sym same) approved)
            ]
      ]

  update_for-pending :
      (s : State) (id user : ℕ) (title summary markdown : Text) (found : Option Proposal)
      → (update_for threshold parse s id user title summary markdown found).pending ≡ s.pending
  update_for-pending s id user title summary markdown none = refl
  update_for-pending s id user title summary markdown (some p) =
      elim (Bool-cases (is_for threshold parse markdown p.course_slug p.language)) [
        | inl for_it ↦ rw (update_for, for_it) refl
        | inr other ↦ rw (update_for, other) refl
      ]

  -- The proposals in the handlers' hands after a call were there before, or have just been approved.
  pub handle-pending :
      (s : State) (c : Call)
      → IsValid s.db
      → IsValid (handle threshold parse c s).db
      → (q : Proposal) → In q (handle threshold parse c s).pending
      → In q s.pending ⊎ IsApproved (handle threshold parse c s).db q
  unfolding handle
  handle-pending s (create proposer slug language title summary markdown) v w q i =
      elim (Bool-cases (is_for threshold parse markdown slug language)) [
        | inl for_it ↦ inl (rw (handle, for_it) at i)
        | inr other ↦ inl (rw (handle, other) at i)
      ]
  handle-pending s (update id user title summary markdown) v w q i = inl (
      subst (In q)
        (update_for-pending s id user title summary markdown (row_by_id id s.db.proposals)) i)
  handle-pending s (withdraw id user) v w q i = inl i
  handle-pending s (review id user verdict comment seen) v w q i =
      let r = add_review s.db id user verdict comment seen in
      let same = settle-db threshold parse s verdict r in
      elim (settle-pending s user verdict r (subst IsValid same w)
        (add_review-Sound s.db id user verdict comment seen v) q i) [
          | inl old ↦ inl old
          | inr a ↦ inr (subst (λ d. IsApproved d q) (sym same) a)
        ]
  handle-pending s (publish at written) v w q i = elim (Option-cases (take_out at s.pending)) [
    | inl lost ↦ inl (rw (handle, lost) at i)
    | inr ((p, pending), found) ↦
        let (_, sub) = take_out-In at s.pending pending p found in
        inl (sub q (rw (handle, found) at i))
  ]
  handle-pending s (elsewhere variants) v w q i = inl i
