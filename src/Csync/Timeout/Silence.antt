-- ===== src/Csync/Timeout/Silence.antt =====
-- v1/csync/src/timeout.rs: when the stream times out.
use das_protokoll.Base.{
  ◌≡◌, refl, ap, ◌∙◌, Bool, true, false, Option, none, some, List, [], ◌∷◌, ◌>>=◌, ◌↔◌, arith,
  OnSome, OnSome-bind, OnSome-apply, ◌⊎◌, inl, inr,
}
use das_protokoll.Csync.Async.{Poll, ready, not_ready, failed}
use das_protokoll.Csync.Timeout.{
  Tick, fired, pending, broken, ended, Error, timeout, timer, other, Answer, error, drain,
  poll_interval, poll, drained,
}

-- What one poll meets.
pub record Event {ℓ} (A : Type ℓ) : Type ℓ where
  pub stream : Poll (Option A)
  pub ticks : List Tick

abbrev pub first : List Tick → Option Tick
first [] = none
first (tick ∷ ticks) = some tick

drain_lem : (ticks : List Tick) → OnSome (λ r. (r ≡ none) ⊎ (r ≡ some timer)) (drain ticks)
unfolding drain
drain_lem [] = tt
drain_lem (pending ∷ ticks) = inl refl
drain_lem (fired ∷ ticks) = drain_lem ticks
drain_lem (ended ∷ ticks) = drain_lem ticks
drain_lem (broken ∷ ticks) = inr refl

module _ {ℓ} {A : Type ℓ} where
  -- Whether there has been an item since the interval last fired; the newest event is the first.
  abbrev since : Poll (Option A) → List Tick → Bool → Bool
  since (ready t) ticks before = true
  since not_ready (fired ∷ ticks) before = false
  since not_ready (pending ∷ ticks) before = before
  since not_ready (broken ∷ ticks) before = before
  since not_ready (ended ∷ ticks) before = before
  since not_ready [] before = before
  since failed ticks before = before

  unfoldable pub heard : List (Event A) → Bool
  heard [] = false
  heard (ev ∷ older) = since ev.stream ev.ticks (heard older)

  -- The state after the polls, from the one that `new` makes.
  unfoldable pub run : List (Event A) → Option Bool
  run [] = some false
  run (ev ∷ older) = do
    got_something ← run older
    (got', _) ← poll ev.stream ev.ticks got_something
    some got'

  abbrev Follows : Poll (Option A) → List Tick → Bool → Bool × Answer A → Type ℓ
  Follows stream ticks before (after, answer) =
      (after ≡ since stream ticks before)
      × ((answer ≡ error timeout)
          ↔ ((stream ≡ not_ready) × (first ticks ≡ some fired) × (before ≡ false)))

  poll-Follows :
      (stream : Poll (Option A)) (ticks : List Tick) (before : Bool)
      → OnSome (Follows stream ticks before) (poll stream ticks before)
  unfolding poll poll_interval
  poll-Follows (ready t) ticks before = (refl, (λ e. cc, λ h. cc (h.0)))
  poll-Follows failed ticks before = (refl, (λ e. cc, λ h. cc (h.0)))
  poll-Follows not_ready [] before = tt
  poll-Follows not_ready (ended ∷ ticks) true = tt
  poll-Follows not_ready (ended ∷ ticks) false = tt
  poll-Follows not_ready (pending ∷ ticks) true = (refl, (λ e. cc, λ h. cc (h.2)))
  poll-Follows not_ready (pending ∷ ticks) false = (refl, (λ e. cc, λ h. cc (h.1)))
  poll-Follows not_ready (broken ∷ ticks) true = (refl, (λ e. cc, λ h. cc (h.2)))
  poll-Follows not_ready (broken ∷ ticks) false = (refl, (λ e. cc, λ h. cc (h.1)))
  poll-Follows not_ready (fired ∷ ticks) false = (refl, (λ e. (refl, refl, refl), λ h. refl))
  poll-Follows not_ready (fired ∷ ticks) true =
      OnSome-bind (Follows not_ready (fired ∷ ticks) true) (drain ticks) _
        λ r er. drained_lem r (OnSome-apply _ _ r (drain_lem ticks) er)
    where
      drained_lem :
          (r : Option Error)
          → (r ≡ none) ⊎ (r ≡ some timer)
          → Follows not_ready (fired ∷ ticks) true (false, drained r)
      drained_lem none h = (refl, (λ e. cc, λ h. cc (h.2)))
      drained_lem (some timer) h = (refl, (λ e. cc, λ h. cc (h.2)))
      drained_lem (some timeout) h = (refl, (λ e. ground (arith, h), λ h. cc (h.2)))
      drained_lem (some other) h = (refl, (λ e. cc, λ h. cc (h.2)))

  run-heard : (older : List (Event A)) → OnSome (λ b. b ≡ heard older) (run older)
  unfolding run heard
  run-heard [] = refl
  run-heard (ev ∷ older) = OnSome-bind _ (run older) _ λ before eb.
      let same = OnSome-apply (λ (b : Bool). b ≡ heard older) _ before (run-heard older) eb in
      OnSome-bind _ (poll ev.stream ev.ticks before) _ λ (after, answer) ea.
        (OnSome-apply _ _ (after, answer) (poll-Follows ev.stream ev.ticks before) ea).0
        ∙ ap (since ev.stream ev.ticks) same

  -- After any history of polls without a panic, a poll fails with `Timeout` exactly if the stream has
  -- no item now, the interval has fired, and the stream has given no item since the interval last
  -- fired before.
  pub times_out :
      (older : List (Event A)) (ev : Event A) (got_something after : Bool) (answer : Answer A)
      → run older ≡ some got_something
      → poll ev.stream ev.ticks got_something ≡ some (after, answer)
      → (answer ≡ error timeout)
        ↔ ((ev.stream ≡ not_ready) × (first ev.ticks ≡ some fired) × (heard older ≡ false))
  times_out older ev got_something after answer er ep =
      let same =
        OnSome-apply (λ (b : Bool). b ≡ heard older) _ got_something (run-heard older) er in
      rw (← same)
        ((OnSome-apply _ _ (after, answer) (poll-Follows ev.stream ev.ticks got_something) ep).1)
