-- ===== src/Csync/Timeout/Tests.antt =====
-- A stream that gives one item and then nothing for two intervals.
use das_protokoll.Base.{ℕ, ◌≡◌, refl, false, some, List, [], ◌∷◌, ◌↔◌}
use das_protokoll.Csync.Async.{ready, not_ready}
use das_protokoll.Csync.Timeout.{fired, pending, Answer, error, timeout, poll, drain, poll_interval}
use das_protokoll.Csync.Timeout.Silence.{Event, first, heard, run, times_out}

abbrev spoke : Event ℕ
spoke = record { stream = ready (some 7); ticks = [] }

abbrev interval : Event ℕ
interval = record { stream = not_ready; ticks = fired ∷ pending ∷ [] }

abbrev history : List (Event ℕ)
history = interval ∷ spoke ∷ []

abbrev timed_out : Answer ℕ
timed_out = error timeout

one_interval : run history ≡ some false
unfolding run poll drain poll_interval
one_interval = refl

two_intervals : poll interval.stream interval.ticks false ≡ some (false, timed_out)
unfolding poll poll_interval
two_intervals = refl

times_out_example : (timed_out ≡ error timeout) ↔ (
    (interval.stream ≡ not_ready) × (first interval.ticks ≡ some fired) × (heard history ≡ false))
times_out_example = times_out history interval false false timed_out one_interval two_intervals
