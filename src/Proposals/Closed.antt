-- ===== src/Proposals/Closed.antt =====
-- A closed proposal is history.
use rubber_duck.Prelude.{
  ℕ, false, Option, List, [], ◌∷◌, ◌++◌, ◌≡◌, inl, inr, refl, Bool-cases, Text, In,
}
use mathlib.Core.Path.{subst}
use rubber_duck.Proposals.{Proposal, Db, is_open, update_where}
use rubber_duck.Proposals.Server.{Call, run}
use rubber_duck.Proposals.Rows.{In-append, updated, update_where-In}
use rubber_duck.Proposals.Steps.{Rules, Step, writes, opens, changes, reviews, Steps, here, next}
use rubber_duck.Proposals.Calls.{free, handle-free, run-IsValid}

module _ (R : Rules) (p : Proposal) (closed : is_open p.status ≡ false) where
  Step-closed : (d e : Db) → Step R d e → In p d.proposals → In p e.proposals
  Step-closed d e (writes variants is) i = rw is i
  Step-closed d e (opens q new is) i = rw is (In-append d.proposals (q ∷ []) p i)
  Step-closed d e (changes test change keeps is) i = elim (Bool-cases (test p)) [
    | inl t ↦ let o = (keeps p i t).was_open in absurd (cc)
    | inr f ↦
        let same : updated test change p ≡ p = rw f refl in
        rw is (
          subst (λ q. In q (update_where test change d.proposals)) same
            (update_where-In test change d.proposals p i))
  ]
  Step-closed d e (reviews q r _ _ is) i = rw is i

  Steps-closed : {d e : Db} → Steps R d e → In p d.proposals → In p e.proposals
  Steps-closed here i = i
  Steps-closed (next steps step) i = Step-closed _ _ step (Steps-closed steps i)

-- A proposal that is not open stays as it is, in every field, whatever calls come later.
pub run-closed :
    (threshold : ℕ) (parse : Text → Option (Text × Text)) (role : ℕ → Option Text)
    → (calls later : List Call) (p : Proposal) → In p (run threshold parse role calls).db.proposals
    → is_open p.status ≡ false
    → In p (run threshold parse role (later ++ calls)).db.proposals
unfolding run
run-closed threshold parse role calls [] p i closed = i
run-closed threshold parse role calls (c ∷ later) p i closed =
    Steps-closed (free threshold parse) p closed
      (handle-free threshold parse (run threshold parse role (later ++ calls))
        (run-IsValid threshold parse role (later ++ calls)) c)
      (run-closed threshold parse role calls later p i closed)
