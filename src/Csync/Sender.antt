-- ===== src/Csync/Sender.antt =====
-- v1/csync/src/server/sender.rs: the half of the server that sends the status updates. The map is
-- shared with the receiver: an operation gets its present state as an argument, and the sender holds
-- whether it has been given it. `none` is a panic.
pub mod Sending
use das_protokoll.Base.{
  ℕ, ◌+◌, ◌-◌, Bool, true, false, Option, none, some, List, [], ◌++◌, ◌>>=◌, ◌>>◌, assert, length,
  take, drop, not, if◌then◌else◌, ◌==◌,
}
use das_protokoll.BitMap.{BitMap}
use das_protokoll.Crates.{Varmint}
use das_protokoll.Csync.Async.{
  Poll, ready, not_ready, failed, ChannelMessage, upload_start, upload_status,
}
use das_protokoll.Csync.Chunks.{mtu, resize}
use das_protokoll.Csync.Status.{write_runlength_encoded}

pub data State : Type 0 where
  sending waiting : State

pub record Sender : Type 0 where
  pub vec : List ℕ
  pub bitmap : Bool
  pub state : State

pub data AsyncSink : Type 0 where
  accepted : AsyncSink
  refused : ChannelMessage → AsyncSink

unfoldable pub new : Sender
new = record { vec = resize [] mtu 0; bitmap = false; state = waiting }

-- `sent` is what `poll_send` gives for the datagram, which is asked only in the state `sending`.
unfoldable pub poll_complete : Poll ℕ → Sender → Sender × Poll (Unit {0})
poll_complete sent s = elim s.state [
  | waiting ↦ (s, ready tt)
  | sending ↦ elim sent [
    | not_ready ↦ (s, not_ready)
    | failed ↦ (s, failed)
    | ready written ↦
        if written == length s.vec then (record s { state = waiting }, ready tt) else (s, failed)
  ]
]

unfoldable pub close : Poll ℕ → Sender → Sender × Poll (Unit {0})
unfolding poll_complete
close sent s = poll_complete sent s

module _ (V : Varmint) where
  -- The update is written into a buffer of one datagram, which is then cut to what was written.
  unfoldable pub accept : BitMap → ChannelMessage → Sender → Option Sender
  accept m upload_start s = do assert (not s.bitmap); some (record s { bitmap = true })
  accept m upload_status s = do
    assert s.bitmap
    (size, bytes) ← write_runlength_encoded V m mtu
    some (record s {
      vec = take size (bytes ++ drop (length bytes) (resize s.vec mtu 0));
      state = sending;
    })

  unfoldable pub start_send :
      Poll ℕ → BitMap → ChannelMessage → Sender → Option (Sender × Poll AsyncSink)
  unfolding poll_complete accept
  start_send sent m item s =
      let r = poll_complete sent s in
      elim r.1 [
        | failed ↦ some (r.0, failed)
        | not_ready ↦ some (r.0, ready (refused item))
        | ready _ ↦ (do s' ← accept m item r.0; some (s', ready accepted))
      ]
