-- ===== src/Proposals/Tests.antt =====
-- Tests and instances.
use rubber_duck.Prelude.{
  ℕ, true, Option, none, some, List, [], ◌∷◌, ◌++◌, ◌==◌, if◌then◌else◌, ◌≡◌, ◌⊎◌, inl, refl, Text,
  codes, In,
}
use rubber_duck.Proposals.{Status, opened, published, withdrawn, Proposal}
use rubber_duck.Proposals.Server.{Call, create, update, withdraw, review, publish, elsewhere, run}
use rubber_duck.Proposals.Valid.{IsValid}
use rubber_duck.Proposals.Calls.{run-IsValid}
use rubber_duck.Proposals.Closed.{run-closed}
use rubber_duck.Proposals.Granted.{Granted, run-Granted}
use rubber_duck.Proposals.Published.{Ships, handle-Ships}

-- User 9 is an admin.
abbrev role : ℕ → Option Text
role user = if user == 9 then some (codes "admin") else some (codes "student")

abbrev parse : Text → Option (Text × Text)
parse markdown = some (codes "raft", codes "go")

abbrev by_one : Status → Option ℕ → Proposal
by_one status version = record {
  id = 1;
  proposer = 1;
  course_slug = codes "raft";
  language = codes "go";
  title = codes "t";
  summary_md = codes "s";
  proposed_md = codes "new";
  base_version = 0;
  revision = 1;
  status = status;
  published_version = version;
}

abbrev proposed : List Call
proposed = create 1 (codes "raft") (codes "go") (codes "t") (codes "s") (codes "new") ∷ []

abbrev approval : ℕ → Call
approval user = review 1 user (codes "approve") [] 1

-- Users 2 and 3 approve, and the second handler publishes.
abbrev quorum : List Call
quorum = publish 0 true ∷ approval 3 ∷ approval 2 ∷ proposed

quorum_test : (run 2 parse role quorum).db.proposals ≡ by_one published (some 1) ∷ []
unfolding run
quorum_test = refl

-- The own approval is refused, so one more does not publish.
own_test : (run 2 parse role (approval 3 ∷ approval 1 ∷ proposed)).pending ≡ []
unfolding run
own_test = refl

-- The variant has got a version meanwhile: the base is stale.
conflict_test :
    (run 2 parse role (
      publish 0 true
      ∷ elsewhere (
          record {
            slug = codes "raft";
            language = codes "go";
            source_md = [];
            version = 4;
            edited_by = none;
          }
          ∷ [])
      ∷ approval 9
      ∷ proposed)).db.proposals
    ≡ by_one opened none ∷ []
unfolding run
conflict_test = refl

run-Granted_example : Granted 2 parse role quorum 1 1 (codes "new")
unfolding run
run-Granted_example = run-Granted 2 parse role quorum (by_one published (some 1)) (inl refl) refl

run-IsValid_example : IsValid (run 2 parse role quorum).db
run-IsValid_example = run-IsValid 2 parse role quorum

run-closed_example :
    In
      (by_one withdrawn none)
      (run 2 parse role
        ((update 1 1 [] [] [] ∷ approval 9 ∷ []) ++ (withdraw 1 1 ∷ proposed))).db.proposals
unfolding run
run-closed_example =
    run-closed 2 parse role (withdraw 1 1 ∷ proposed) (update 1 1 [] [] [] ∷ approval 9 ∷ [])
      (by_one withdrawn none) (inl refl) refl

handle-Ships_example :
    ((run 2 parse role quorum).db ≡ (run 2 parse role (approval 3 ∷ approval 2 ∷ proposed)).db)
    ⊎ Ships (run 2 parse role (approval 3 ∷ approval 2 ∷ proposed)).db (run 2 parse role quorum).db
handle-Ships_example = handle-Ships 2 parse role (approval 3 ∷ approval 2 ∷ proposed) 0 true

-- A document for another variant is not taken.
other_test :
    (run 2 parse role (create 1 (codes "raft") (codes "c") [] [] [] ∷ [])).db.proposals ≡ []
unfolding run
other_test = refl
