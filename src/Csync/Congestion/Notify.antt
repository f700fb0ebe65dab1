-- ===== src/Csync/Congestion/Notify.antt =====
-- v1/csync/src/server/congestion.rs: when a status update is due.
use das_protokoll.Base.{
  ℕ, ◌+◌, ◌*◌, ◌≤◌, ◌≡◌, refl, Bool, true, false, Option, some, arith, Bool-cases, >>=-eq-some, ap,
  sym, ◌∙◌, leb, leb→le, List, [], ◌∷◌, ◌>>=◌, ◌⊎◌, ◌≢◌, inl, inr,
}
use das_protokoll.Csync.Async.{Poll, ready, not_ready, failed}
use das_protokoll.Csync.Congestion.{CongestionInfo, is_some, ipt_packet, poll, shutdown}

-- The calls that the server makes once packets come in.
pub data Op : Type 0 where
  packet : ℕ → Op
  polls : ℕ → Poll (Unit {0}) → Op

module _ (packets_for : ℕ → ℕ) where
  -- What makes an update due: the timer has run out, or enough packets have come.
  abbrev pub Due : Poll (Unit {0}) → CongestionInfo → Type 0
  Due timer c =
      (c.done ≡ false)
      × (is_some c.delay ≡ true)
      × ((timer ≡ ready tt)
          ⊎ ((timer ≡ not_ready) × (packets_for c.ipt ≤ c.packets_since_last_notify)))

  -- The state after an update: counting starts again, and the timer is set for the expected packets
  -- and one round trip from now.
  abbrev pub restarted : ℕ → CongestionInfo → CongestionInfo
  restarted now c = record c {
    packets_since_last_notify = 0;
    last_notify = now;
    delay = some (now + (c.ipt * packets_for c.ipt + c.rtt));
  }

  Answer : ℕ → Poll (Unit {0}) → CongestionInfo → CongestionInfo × Poll (Unit {0}) → Type 0
  Answer now timer c r =
      (Due timer c × (r ≡ (restarted now c, ready tt)))
      ⊎ ((¬ Due timer c) × (r.0 ≡ c) × (r.1 ≢ ready tt))

  idle :
      (now : ℕ) (timer : Poll (Unit {0})) (c : CongestionInfo)
      → (c.done ≡ true) ⊎ (is_some c.delay ≡ false)
      → Answer now timer c (poll packets_for now timer c)
  unfolding poll Answer
  idle now timer c (inl h) = inr (λ d. cc (d.0), ground (arith, h), λ e. ground (arith, h, e))
  idle now timer c (inr h) = inr (λ d. cc (d.1), ground (arith, h), λ e. ground (arith, h, e))

  running :
      (now : ℕ) (timer : Poll (Unit {0})) (c : CongestionInfo)
      → c.done ≡ false
      → is_some c.delay ≡ true
      → Answer now timer c (poll packets_for now timer c)
  unfolding poll Answer
  running now (ready _) c h k = inl ((h, k, inl refl), ground (arith, h, k))
  running now failed c h k =
      inr (λ d. ground (arith, d.2), ground (arith, h, k), λ e. ground (arith, h, k, e))
  running now not_ready c h k =
      elim (Bool-cases (leb (packets_for c.ipt) c.packets_since_last_notify)) [
        | inl many ↦ inl ((h, k, inr (refl, leb→le _ _ many)), ground (arith, h, k, many))
        | inr few ↦ inr (
          λ d. ground (arith, d.2, few),
          ground (arith, h, k, few),
          λ e. ground (arith, h, k, few, e),
        )
      ]

  -- `poll` reports an update exactly when one is due. It then starts counting again and sets the timer
  -- for the expected packets and one round trip from now; otherwise it changes nothing.
  pub poll_lem :
      (now : ℕ) (timer : Poll (Unit {0})) (c : CongestionInfo)
      → (Due timer c × (poll packets_for now timer c ≡ (restarted now c, ready tt)))
        ⊎ ((¬ Due timer c)
            × ((poll packets_for now timer c).0 ≡ c)
            × ((poll packets_for now timer c).1 ≢ ready tt))
  unfolding Answer
  poll_lem now timer c = elim (Bool-cases c.done) [
    | inl h ↦ idle now timer c (inl h)
    | inr h ↦ elim (Bool-cases (is_some c.delay)) [
      | inl k ↦ running now timer c h k
      | inr k ↦ idle now timer c (inr k)
    ]
  ]

  -- A run of calls: the state and the number of updates that were reported, `none` after a panic.
  unfoldable pub run : List Op → CongestionInfo → Option (CongestionInfo × ℕ)
  run [] c = some (c, 0)
  run (packet now ∷ ops) c = do (c', _) ← ipt_packet packets_for now c; run ops c'
  run (polls now timer ∷ ops) c = do
    let r = poll packets_for now timer c
    (c', n) ← run ops r.0
    some (c', elim r.1 [ ready _ ↦ n + 1 | not_ready ↦ n | failed ↦ n ])

  ipt_packet-done :
      (now : ℕ) (c c' : CongestionInfo) (b : Bool)
      → ipt_packet packets_for now c ≡ some (c', b)
      → c'.done ≡ c.done
  unfolding ipt_packet
  ipt_packet-done now c c' b e = ground arith

  pub poll_done :
      (now : ℕ) (timer : Poll (Unit {0})) (c : CongestionInfo)
      → c.done ≡ true
      → poll packets_for now timer c ≡ (c, not_ready)
  unfolding poll
  poll_done now timer c h = ground (arith, h)

  silent :
      (ops : List Op) (d c' : CongestionInfo) (n : ℕ)
      → d.done ≡ true
      → run ops d ≡ some (c', n)
      → (n ≡ 0) × (c'.done ≡ true)
  unfolding run
  silent [] d c' n h e = ground (arith, h, e)
  silent (packet now ∷ ops) d c' n h e =
      let ((d', b), ep, er) = >>=-eq-some (ipt_packet packets_for now d) _ e in
      silent ops d' c' n (ipt_packet-done now d d' b ep ∙ h) er
  silent (polls now timer ∷ ops) d c' n h e =
      let quiet = poll_done now timer d h in
      let ((d', k), er, en) = >>=-eq-some (run ops (poll packets_for now timer d).0) _ e in
      let (none_yet, still) =
        silent ops d d' k h
          (ap (run ops) (ap (λ (r : CongestionInfo × Poll (Unit {0})). r.0) (sym quiet)) ∙ er) in
      ground (arith, none_yet, still, en, quiet)

  -- After the shutdown no call reports an update any more, in any run of calls without a panic.
  pub run-shutdown :
      (ops : List Op) (c c' : CongestionInfo) (n : ℕ)
      → run ops (shutdown c) ≡ some (c', n)
      → (n ≡ 0) × (c'.done ≡ true)
  unfolding shutdown
  run-shutdown ops c c' n e = silent ops (record c { done = true }) c' n refl e
