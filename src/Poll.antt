-- ===== src/Poll.antt =====
-- internal/web/static/poll.js: an element of the page is filled from the server until the fragment
-- says that it is final. The replies are those that the server would give, in order; whether a
-- fragment holds a `[data-final]` element is an argument.
pub mod Stopping
pub mod Tests
use rubber_duck.Prelude.{ℕ, ◌+◌, Bool, true, false, List, [], ◌∷◌, if◌then◌else◌, Text, foldl}

-- What a `fetch` and the reading of the body give: one of them throws, or a response.
pub data Reply : Type 0 where
  unreachable : Reply
  response : (ok : Bool) (body : Text) → Reply

-- The timer that is set, with its delay in milliseconds, if one is.
pub data Timer : Type 0 where
  set : ℕ → Timer
  off : Timer

pub record Poll : Type 0 where
  pub html : Text
  pub timer : Timer
  pub fetches : ℕ

-- The timer that is set when the script runs.
abbrev pub start : Text → Poll
start html = record { html = html; timer = set 1500; fetches = 0 }

module _ (is_final : Text → Bool) where
  -- The function `tick`, which the timer calls.
  unfoldable pub tick : Reply → Poll → Poll
  tick unreachable p = record p { timer = off; fetches = p.fetches + 1 }
  tick (response false body) p = record p { timer = off; fetches = p.fetches + 1 }
  tick (response true body) p = record {
    html = body;
    timer = if is_final body then off else set 2000;
    fetches = p.fetches + 1;
  }

  abbrev pub on_timer : Timer → Poll → Reply → Poll
  on_timer off p r = p
  on_timer (set ms) p r = tick r p

  unfoldable pub step : Poll → Reply → Poll
  unfolding tick
  step p r = on_timer p.timer p r

  abbrev pub run : Text → List Reply → Poll
  run html = foldl step (start html)
