-- ===== src/Poll/Tests.antt =====
-- Instances of the theorems about polling.
use rubber_duck.Prelude.{
  Bool, true, false, [], ◌∷◌, ◌++◌, ◌≡◌, refl, codes, Text, same, List, length,
}
use rubber_duck.Poll.{Reply, unreachable, response, set, off, step, run}
use rubber_duck.Poll.Stopping.{delay, shown, shown_after, run_goes_on, run_ends}

abbrev graded : Text → Bool
graded body = same body (codes "passed")

abbrev queued : List Reply
queued = response true (codes "queued") ∷ response true (codes "running") ∷ []

run_goes_on_example : run graded (codes "…") queued ≡ record {
  html = shown graded (codes "…") queued;
  timer = set (delay graded 1500 queued);
  fetches = length queued;
}
unfolding same
run_goes_on_example = run_goes_on graded (codes "…") queued (refl, (refl, tt))

run_ends_example :
    run graded (codes "…") (queued ++ response true (codes "passed") ∷ unreachable ∷ []) ≡ record {
      html = shown_after graded (shown graded (codes "…") queued) (response true (codes "passed"));
      timer = off;
      fetches = 3;
    }
unfolding same
run_ends_example =
    run_ends graded (codes "…") queued (unreachable ∷ []) (response true (codes "passed"))
      (refl, (refl, tt)) refl

-- One failed request ends the polling, and the element keeps the fragment before it.
gives_up :
    run graded (codes "…") (
      response true (codes "queued")
      ∷ response false (codes "502")
      ∷ response true (codes "passed")
      ∷ [])
    ≡ record { html = codes "queued"; timer = off; fetches = 2 }
unfolding step same
gives_up = refl
