-- ===== src/Csync/Congestion/Tests.antt =====
-- The congestion control at work.
use das_protokoll.Base.{ℕ, ◌≡◌, none, [], ◌∷◌, arith}
use das_protokoll.Csync.Congestion.{new}
use das_protokoll.Csync.Congestion.Burst.{packets, burst_panics}

abbrev four : ℕ → ℕ
four ipt = 4

-- A millisecond after the first packet.
abbrev later : ℕ
later = 1000100

burst_panics_example :
    packets four
      (100 ∷ later ∷ later ∷ later ∷ later ∷ later ∷ later ∷ later ∷ later ∷ later ∷ later ∷ later
        ∷ [])
      (new 0)
    ≡ none
burst_panics_example = burst_panics four 0 100 100000 (λ e. omega (arith, e))
