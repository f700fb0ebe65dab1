-- ===== src/Csync/Timeout.antt =====
-- v1/csync/src/timeout.rs: a stream that fails with `Timeout` when a whole interval passes without an
-- item. The stream and the interval are outside: what they answer to the polls of one `poll` is in its
-- arguments.
pub mod Silence
mod Tests
use das_protokoll.Base.{ℕ, Bool, true, false, Option, none, some, List, [], ◌∷◌, ◌>>=◌}
use das_protokoll.Csync.Async.{Poll, ready, not_ready, failed}

-- One answer of the interval.
pub data Tick : Type 0 where
  fired pending broken ended : Tick

pub data Error : Type 0 where
  timeout timer other : Error

-- What `poll` returns: an item or the end of the stream, `NotReady`, or an error.
pub data Answer {ℓ} (A : Type ℓ) : Type ℓ where
  item : Option A → Answer A
  not_yet : Answer A
  error : Error → Answer A

-- The inner `loop`, which polls until `NotReady`. `none` is a loop that has not ended.
unfoldable pub drain : List Tick → Option (Option Error)
drain [] = none
drain (pending ∷ ticks) = some none
drain (fired ∷ ticks) = drain ticks
drain (ended ∷ ticks) = drain ticks
drain (broken ∷ ticks) = some (some timer)

module _ {ℓ} {A : Type ℓ} where
  abbrev pub drained : Option Error → Answer A
  drained none = not_yet
  drained (some e) = error e

  -- The interval's part. `none` is also the panic of an interval that has ended.
  unfoldable pub poll_interval : Bool → List Tick → Option (Bool × Answer A)
  poll_interval got_something [] = none
  poll_interval true (fired ∷ ticks) = do r ← drain ticks; some (false, drained r)
  poll_interval false (fired ∷ ticks) = some (false, error timeout)
  poll_interval got_something (ended ∷ ticks) = none
  poll_interval got_something (pending ∷ ticks) = some (got_something, not_yet)
  poll_interval got_something (broken ∷ ticks) = some (got_something, error timer)

  -- `got_something` is the state.
  unfoldable pub poll : Poll (Option A) → List Tick → Bool → Option (Bool × Answer A)
  poll (ready t) ticks got_something = some (true, item t)
  poll failed ticks got_something = some (got_something, error other)
  poll not_ready ticks got_something = poll_interval got_something ticks
