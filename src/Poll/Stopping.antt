-- ===== src/Poll/Stopping.antt =====
-- When polling goes on and when it ends.
use rubber_duck.Prelude.{
  ℕ, ◌+◌, Bool, true, false, List, [], ◌∷◌, ◌++◌, ◌≡◌, refl, arith, Text, foldl, foldl-append, All,
  length, ◌∙◌, ap,
}
use rubber_duck.Poll.{Reply, unreachable, response, set, off, Poll, start, on_timer, step, run}

module _ (is_final : Text → Bool) where
  -- A reply after which there is nothing more to wait for, or that is no fragment.
  abbrev pub ends : Reply → Bool
  ends unreachable = true
  ends (response false body) = true
  ends (response true body) = is_final body

  -- What the element shows behind a reply.
  abbrev pub shown_after : Text → Reply → Text
  shown_after html (response true body) = body
  shown_after html _ = html

  -- The fragment shown after replies that all are fragments.
  abbrev pub shown : Text → List Reply → Text
  shown html [] = html
  shown html (r ∷ rs) = shown (shown_after html r) rs

  polling : Text → ℕ → ℕ → Poll
  polling html ms n = record { html = html; timer = set ms; fetches = n }

  step_goes_on :
      (html : Text) (ms n : ℕ) (r : Reply)
      → ends r ≡ false
      → step is_final (polling html ms n) r ≡ polling (shown_after html r) 2000 (n + 1)
  unfolding step polling
  step_goes_on html ms n unreachable h = cc
  step_goes_on html ms n (response false body) h = cc
  step_goes_on html ms n (response true body) h = rw h refl

  step_ends :
      (html : Text) (ms n : ℕ) (r : Reply)
      → ends r ≡ true
      → step is_final (polling html ms n) r
        ≡ record { html = shown_after html r; timer = off; fetches = n + 1 }
  unfolding step polling
  step_ends html ms n unreachable h = refl
  step_ends html ms n (response false body) h = refl
  step_ends html ms n (response true body) h = rw h refl

  -- The delay before the next request: 1.5 s before the first, then 2 s.
  abbrev pub delay : ℕ → List Reply → ℕ
  delay ms [] = ms
  delay ms (r ∷ rs) = 2000

  goes_on :
      (html : Text) (ms n : ℕ) (rs : List Reply)
      → All (λ r. ends r ≡ false) rs
      → foldl (step is_final) (polling html ms n) rs
        ≡ polling (shown html rs) (delay ms rs) (n + length rs)
  goes_on html ms n [] h = ap (polling html ms) (omega arith)
  goes_on html ms n (r ∷ []) (h, hs) = step_goes_on html ms n r h
  goes_on html ms n (r ∷ q ∷ rs) (h, hs) =
      rw (step_goes_on html ms n r h)
        (goes_on (shown_after html r) 2000 (n + 1) (q ∷ rs) hs ∙ ap (polling _ 2000) (omega arith))

  step_off : (p : Poll) (r : Reply) → p.timer ≡ off → step is_final p r ≡ p
  unfolding step
  step_off p r h = ap (λ t. on_timer is_final t p r) h

  stays_off : (p : Poll) (rs : List Reply) → p.timer ≡ off → foldl (step is_final) p rs ≡ p
  stays_off p [] h = refl
  stays_off p (r ∷ rs) h = rw (step_off p r h) (stays_off p rs h)

  -- While no reply ends it, polling goes on: the element shows the last fragment, one request was
  -- made for each reply, and the next is due.
  pub run_goes_on :
      (html : Text) (rs : List Reply)
      → All (λ r. ends r ≡ false) rs
      → run is_final html rs
        ≡ record { html = shown html rs; timer = set (delay 1500 rs); fetches = length rs }
  unfolding polling
  run_goes_on html rs h =
      goes_on html 1500 0 rs h ∙ ap (polling (shown html rs) (delay 1500 rs)) (omega arith)

  step_ends_at :
      (html : Text) (ms n : ℕ) (r : Reply)
      → ends r ≡ true
      → step is_final (record { html = html; timer = set ms; fetches = n }) r
        ≡ record { html = shown_after html r; timer = off; fetches = n + 1 }
  step_ends_at html ms n r h = unfold polling in step_ends html ms n r h

  -- The first reply that ends it is the last one asked for: no request follows, whatever the server
  -- would answer, and the element keeps that reply's fragment, or the one before if it has none.
  pub run_ends :
      (html : Text) (before after : List Reply) (r : Reply)
      → All (λ q. ends q ≡ false) before
      → ends r ≡ true
      → run is_final html (before ++ r ∷ after) ≡ record {
        html = shown_after (shown html before) r;
        timer = off;
        fetches = length before + 1;
      }
  run_ends html before after r h e =
      foldl-append (step is_final) (start html) before (r ∷ after)
      ∙ rw
          (
            run_goes_on html before h,
            step_ends_at (shown html before) (delay 1500 before) (length before) r e,
          )
          (stays_off _ after refl)
