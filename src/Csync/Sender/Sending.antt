-- ===== src/Csync/Sender/Sending.antt =====
-- v1/csync/src/server/sender.rs: the sender's datagrams.
use das_protokoll.Base.{
  ℕ, ◌≤◌, ◌≡◌, refl, Bool, true, some, length, ◌==◌, arith, Bool-cases, ◌⊎◌, inl, inr, take-append,
  drop,
}
use das_protokoll.BitMap.{BitMap}
use das_protokoll.BitMap.View.{IsValid}
use das_protokoll.Crates.{Varmint, Itertools}
use das_protokoll.Csync.Async.{Poll, ready, not_ready, failed, ChannelMessage, upload_status}
use das_protokoll.Csync.Chunks.{mtu, resize}
use das_protokoll.Csync.Status.{MissingRanges, parse_status_update}
use das_protokoll.Csync.Status.Decode.{Update, status_update_lem}
use das_protokoll.Csync.Sender.{Sender, sending, waiting, accepted, refused, start_send}

module _ (V : Varmint) (I : Itertools) where
  -- Once a well-formed map has been handed over and no datagram is under way, a request for a status
  -- update is accepted, whatever the socket does: the sender then holds a datagram of at most `mtu`
  -- bytes, which the client reads as an update of the map as it is now.
  pub start_send-upload_status :
      (sent : Poll ℕ) (m : BitMap) (s : Sender) (self : MissingRanges)
      → IsValid m
      → s.bitmap ≡ true
      → s.state ≡ waiting
      → (s' : Sender) × (start_send V sent m upload_status s ≡ some (s', ready accepted))
        × (s'.state ≡ sending)
        × (length s'.vec ≤ mtu)
        × (self' : MissingRanges) × (done : Bool) × (parse_status_update V I self s'.vec
            ≡ some (self', done))
        × Update m self' done
  unfolding start_send
  start_send-upload_status sent m s self v hb hs =
      let (bytes, self', done, ew, le, ep, up) = status_update_lem V I m mtu self v (omega arith) in
      (
        record s { vec = bytes; state = sending },
        ground (arith, hb, hs, ew, take-append bytes (drop (length bytes) (resize s.vec mtu 0))),
        refl,
        le,
        self',
        done,
        ep,
        up,
      )

  -- While a datagram is under way, `start_send` does one of three things: it gives the message back or
  -- fails, with the datagram kept as it is, or the socket has taken the whole datagram.
  pub start_send_busy :
      (sent : Poll ℕ) (m : BitMap) (item : ChannelMessage) (s : Sender)
      → s.state ≡ sending
      → (start_send V sent m item s ≡ some (s, ready (refused item)))
        ⊎ ((start_send V sent m item s ≡ some (s, failed))
            ⊎ ((sent ≡ ready (length s.vec))
                × (start_send V sent m item s
                    ≡ start_send V sent m item (record s { state = waiting }))))
  unfolding start_send
  start_send_busy not_ready m item s h = inl (ground (arith, h))
  start_send_busy failed m item s h = inr (inl (ground (arith, h)))
  start_send_busy (ready n) m item s h = elim (Bool-cases (n == length s.vec)) [
    | inl whole ↦ inr (inr (ground (arith, whole), ground (arith, h, whole)))
    | inr part ↦ inr (inl (ground (arith, h, part)))
  ]
