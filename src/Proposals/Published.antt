-- ===== src/Proposals/Published.antt =====
-- What a publication writes.
use mathlib.Core.Path.{subst}
use mathlib.Core.Option.{some-injective}
use rubber_duck.Prelude.{
  ℕ, Bool, true, Option, some, List, [], ◌∷◌, ◌≡◌, ◌⊎◌, inl, inr, refl, sym, ap, ◌∙◌, Option-cases,
  Text, All, All-append, In,
}
use rubber_duck.Proposals.{Proposal, Db, is_open}
use rubber_duck.Proposals.Reviews.{Document, close_published, publish_proposal}
use rubber_duck.Proposals.Rows.{All-In, All_of, update_where-All}
use rubber_duck.Proposals.Steps.{Rules, Step, writes, opens, changes, reviews, Steps, here, next}
use rubber_duck.Proposals.Valid.{updated_cases}
use rubber_duck.Proposals.Server.{Call, publish, publish_pending, take_out, handle, run}
use rubber_duck.Proposals.Calls.{take_out-In, handle-Steps, run-IsValid}
use rubber_duck.Proposals.Granted.{Follows, run-Follows}
use rubber_duck.Proposals.Upsert.{Wrote}
use rubber_duck.Proposals.Outcomes.{publish_proposal-Outcomes, Outcomes-cases}

module _ (R : Rules) where
  abbrev OnTarget : Proposal → Type 0
  OnTarget p = R.targets p.course_slug p.language p.proposed_md

  Step-OnTarget : (d e : Db) → Step R d e → All OnTarget d.proposals → All OnTarget e.proposals
  Step-OnTarget d e (writes variants is) h = rw is h
  Step-OnTarget d e (opens p new is) h =
      rw is (All-append OnTarget d.proposals (p ∷ []) h (new.targets, tt))
  Step-OnTarget d e (changes test change keeps is) h = rw is (
      update_where-All OnTarget OnTarget test change d.proposals h λ p i was.
        updated_cases R test change d.proposals keeps OnTarget p i was (λ k. k.targets was))
  Step-OnTarget d e (reviews p r _ _ is) h = rw is h

  Steps-OnTarget : {d e : Db} → Steps R d e → All OnTarget d.proposals → All OnTarget e.proposals
  Steps-OnTarget here h = h
  Steps-OnTarget (next steps step) h = Step-OnTarget _ _ step (Steps-OnTarget steps h)

-- The document of a proposal, for the proposal's variant.
abbrev pub document : Proposal → Document
document p = record { slug = p.course_slug; language = p.language; source_md = p.proposed_md }

-- An open proposal is published in its own variant.
pub record Ships (before after : Db) : Type 0 where
  pub row : Proposal
  pub found : In row before.proposals
  pub was_open : is_open row.status ≡ true
  pub version : ℕ
  pub wrote :
      Wrote before.variants after.variants
        (document row)
        (some row.proposer)
        row.base_version
        version
  pub closed : In (close_published version row) after.proposals

module _ (threshold : ℕ) (parse : Text → Option (Text × Text)) (role : ℕ → Option Text) where
  abbrev on_target : Rules
  on_target = record {
    granted = λ id revision markdown. Unit;
    targets = λ slug language markdown. parse markdown ≡ some (slug, language);
  }

  run-OnTarget :
      (calls : List Call) → All (OnTarget on_target) (run threshold parse role calls).db.proposals
  unfolding run
  run-OnTarget [] = tt
  run-OnTarget (c ∷ calls) =
      let s = run threshold parse role calls in
      let steps =
        handle-Steps threshold parse on_target (λ slug language markdown e. e) s
          (run-IsValid threshold parse role calls) (All_of _ s.pending (λ q i p j e f. tt)) c in
      Steps-OnTarget on_target steps (run-OnTarget calls)

  publish_pending-Ships :
      (calls : List Call) (q : Proposal) (written : Bool)
      → In q (run threshold parse role calls).pending
      → (publish_pending threshold parse (run threshold parse role calls).db q written
          ≡ (run threshold parse role calls).db)
        ⊎ Ships
            (run threshold parse role calls).db
            (publish_pending threshold parse (run threshold parse role calls).db q written)
  publish_pending-Ships calls q written i =
      let db = (run threshold parse role calls).db in
      elim (Option-cases (parse q.proposed_md)) [
        | inl bad ↦ inl (rw (publish_pending, bad) refl)
        | inr ((slug, language), parsed) ↦
            let doc : Document = record {
              slug = slug;
              language = language;
              source_md = q.proposed_md;
            } in
            let r = publish_proposal db q.id q.revision doc written in
            rw (publish_pending, parsed)
              (elim (Outcomes-cases db q.id q.revision doc r
                (publish_proposal-Outcomes db q.id q.revision doc written)) [
                  | inl same_db ↦ inl same_db
                  | inr x ↦
                      let p = x.row in
                      let (_, follows) =
                        All-In (Follows threshold parse q) db.proposals p
                          (run-Follows threshold parse role calls q i) x.found x.id_is in
                      let text : q.proposed_md ≡ p.proposed_md = follows (sym x.revision_is) in
                      let target : parse p.proposed_md ≡ some (p.course_slug, p.language) =
                        All-In (OnTarget on_target) db.proposals p (run-OnTarget calls) x.found in
                      let same_target : (slug, language) ≡ (p.course_slug, p.language) =
                        some-injective _ _ (sym parsed ∙ ap parse text ∙ target) in
                      let slugs : slug ≡ p.course_slug =
                        ap (λ (z : Text × Text). z.0) same_target in
                      let languages : language ≡ p.language =
                        ap (λ (z : Text × Text). z.1) same_target in
                      let same_doc : doc ≡ document p = λ k. record {
                        slug = slugs k;
                        language = languages k;
                        source_md = text k;
                      } in
                      inr (record {
                        row = p;
                        found = x.found;
                        was_open = x.was_open;
                        version = x.version;
                        wrote =
                            subst
                              (λ y.
                                Wrote db.variants r.0.variants y (some p.proposer) p.base_version
                                  x.version)
                              same_doc x.wrote;
                        closed = x.closed;
                      })
                ])
      ]

-- When a handler goes on to publish, after any calls and in whatever state the others have left the
-- database, it is left as it is, or an open proposal is published: its variant was at the proposal's
-- base version, or missing where that is 0, and is at the next version with the proposal's
-- document, by the proposer; no other variant changes; and the proposal is closed with that version.
pub handle-Ships :
    (threshold : ℕ) (parse : Text → Option (Text × Text)) (role : ℕ → Option Text)
    → (calls : List Call) (at : ℕ) (written : Bool)
    → ((run threshold parse role (publish at written ∷ calls)).db
        ≡ (run threshold parse role calls).db)
      ⊎ Ships
          (run threshold parse role calls).db
          (run threshold parse role (publish at written ∷ calls)).db
unfolding run
handle-Ships threshold parse role calls at written =
    let s = run threshold parse role calls in
    elim (Option-cases (take_out at s.pending)) [
      | inl lost ↦ inl (rw (handle, lost) refl)
      | inr ((q, pending), found) ↦
          let (i, _) = take_out-In at s.pending pending q found in
          rw (handle, found) (publish_pending-Ships threshold parse role calls q written i)
    ]
