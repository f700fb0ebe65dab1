-- ===== src/Csync/Congestion.antt =====
-- v1/csync/src/server/congestion.rs: when the server sends its next status update. Times and durations
-- are nanoseconds, the time of a call is its argument, `none` is a panic. `num_packets` computes with
-- floats and a logarithm: it is the parameter `packets_for`, of the inter-packet time.
pub mod Notify
pub mod Average
pub mod Burst
mod Tests
use das_protokoll.Base.{
  ℕ, zero, suc, ◌+◌, ◌-◌, ◌*◌, ◌/◌, ◌%◌, ◌^◌, Bool, true, false, Option, none, some, List, [], ◌∷◌,
  ◌++◌, ltb, leb, ◌==◌, if◌then◌else◌, ◌>>=◌, ◌>>◌, assert, length, not,
}
use das_protokoll.Csync.Async.{Poll, ready, not_ready, failed}

pub record CongestionInfo : Type 0 where
  pub rtt_start : Option ℕ
  pub rtts : List ℕ
  pub rtt : ℕ
  pub last_ipt : Option ℕ
  pub ipts : List ℕ
  pub ipt : ℕ
  pub last_notify : ℕ
  pub packets_since_last_notify : ℕ
  pub delay : Option ℕ
  pub done : Bool

abbrev pub is_some {ℓ} : {A : Type ℓ} → Option A → Bool
is_some none = false
is_some (some a) = true

unfoldable pub new : ℕ → CongestionInfo
new now = record {
  rtt_start = none;
  rtts = [];
  rtt = 0;
  last_ipt = none;
  ipts = [];
  ipt = 0;
  last_notify = now;
  packets_since_last_notify = 0;
  delay = none;
  done = false;
}

unfoldable pub start_rtt : ℕ → CongestionInfo → Option CongestionInfo
start_rtt now c = if is_some c.rtt_start then none else some (record c { rtt_start = some now })

unfoldable pub stop_rtt : ℕ → CongestionInfo → Option CongestionInfo
stop_rtt now c = elim c.rtt_start [
  | some start ↦
      some (record c { rtt_start = none; rtt = now - start; rtts = c.rtts ++ (now - start) ∷ [] })
  | none ↦ none
]

unfoldable pub is_rtt_running : CongestionInfo → Bool
is_rtt_running c = is_some c.rtt_start

unfoldable pub get_rtt : CongestionInfo → Option ℕ
get_rtt c = elim c.rtts [ [] ↦ none | _ ∷ _ ↦ some c.rtt ]

unfoldable pub shutdown : CongestionInfo → CongestionInfo
shutdown c = record c { done = true }

-- The window of the last ten gaps, and the average after the oldest gap has left it or after it has
-- been scaled to one gap more. A duration that would be negative panics.
unfoldable pub make_room : List ℕ → ℕ → Option (List ℕ × ℕ)
make_room ipts ipt =
    if length ipts == 10
    then elim ipts [
      | [] ↦ none
      | oldest ∷ rest ↦ (do assert (leb (oldest / 10) ipt); some (rest, ipt - oldest / 10))
    ]
    else some (ipts, ipt * length ipts / (length ipts + 1))

module _ (packets_for : ℕ → ℕ) where
  unfoldable pub num_packets : CongestionInfo → ℕ
  num_packets c = packets_for c.ipt

  -- Sets the timer, or resets the one that is there.
  unfoldable pub update_delay : CongestionInfo → CongestionInfo
  unfolding num_packets
  update_delay c = record c { delay = some (c.last_notify + (c.ipt * num_packets c + c.rtt)) }

  -- The gap since the last packet enters the average.
  unfoldable pub add_gap : ℕ → CongestionInfo → Option CongestionInfo
  unfolding make_room
  add_gap diff c = do
    (ipts, ipt) ← make_room c.ipts c.ipt
    let ipts' = ipts ++ diff ∷ []
    some (record c { ipts = ipts'; ipt = ipt + diff / length ipts' })

  -- `packets_since_last_notify` is a `u32`. The answer is whether the task is notified.
  unfoldable pub count_packet : CongestionInfo → CongestionInfo × Bool
  unfolding num_packets
  count_packet c =
      let packets = (c.packets_since_last_notify + 1) % 2 ^ 32 in
      (record c { packets_since_last_notify = packets }, ltb (num_packets c) packets)

  unfoldable pub ipt_packet : ℕ → CongestionInfo → Option (CongestionInfo × Bool)
  unfolding add_gap update_delay count_packet
  ipt_packet now c = elim c.last_ipt [
    | none ↦ some (record c { last_ipt = some now }, false)
    | some old ↦ (do
      assert (leb old now)
      c' ← add_gap (now - old) (record c { last_ipt = some now })
      some (count_packet (update_delay c')))
  ]

  abbrev notified : ℕ → CongestionInfo → CongestionInfo
  notified now c = update_delay (record c { packets_since_last_notify = 0; last_notify = now })

  -- `timer` is what polling the delay gives; it is polled only if there is one.
  unfoldable pub poll : ℕ → Poll (Unit {0}) → CongestionInfo → CongestionInfo × Poll (Unit {0})
  unfolding update_delay num_packets
  poll now timer c =
      if c.done
      then (c, not_ready)
      else if not (is_some c.delay)
      then (c, not_ready)
      else elim timer [
        | ready _ ↦ (notified now c, ready tt)
        | not_ready ↦
            if leb (num_packets c) c.packets_since_last_notify
            then (notified now c, ready tt)
            else (c, not_ready)
        | failed ↦ (c, failed)
      ]
