-- ===== src/Csync/Receiver/Invariant.antt =====
-- v1/csync/src/server/receiver.rs: when the receiver and the shared map are well formed.
use das_protokoll.Base.{
  ℕ, ◌*◌, ◌≤◌, ◌<◌, ◌≡◌, refl, ◌∙◌, Bool, true, false, Option, none, some, List, ◌==◌,
  if◌then◌else◌, ◌≢◌, arith, OnSome, OnSome-bind, OnSome-apply, inl, inr, Bool-cases, take,
}
use das_protokoll.Base.Word.{sub64, sub64_self}
use das_protokoll.BitMap.{BitMap}
use das_protokoll.BitMap
use das_protokoll.BitMap.View.{IsValid}
use das_protokoll.BitMap.Access.{set-view}
use das_protokoll.Crates.{Byteorder}
use das_protokoll.Csync.Async.{Poll, ready, not_ready, failed, upload_status}
use das_protokoll.Csync.Chunks.{mtu, ChunkInfo, Chunk, decode, into_vec}
use das_protokoll.Csync.Congestion.{CongestionInfo}
use das_protokoll.Csync.Congestion
use das_protokoll.Csync.Receiver.{
  World, Receiver, State, WaitForChunk, WritingChunk, Event, invalid, wait_for_ack, wait_for_chunk,
  writing_chunk, shut_down, send, recv_into, continue, after_timer, write_all, receive_chunk,
  finish, ack, on_datagram, receive, chunk_written, finish_write, poll,
}

-- The state fits the map `m`: a chunk that is being written is one of the file's, and `seek` has been called
-- with its place.
abbrev pub StateFits : BitMap → State → Type 0
StateFits m invalid = ⊥
StateFits m (wait_for_ack s) = m.num_bits ≡ s.chunk_info.num_chunks
StateFits m (wait_for_chunk s) = m.num_bits ≡ s.chunk_info.num_chunks
StateFits m (writing_chunk s) =
    (m.num_bits ≡ s.chunk_info.num_chunks)
    × (s.chunk.index < s.chunk_info.num_chunks)
    × (s.position ≡ s.chunk.index * s.chunk_info.chunk_size)
StateFits m (shut_down buf) = Unit {0}

pub record Inv (w : World) (r : Receiver) : Type 0 where
  pub valid : IsValid w.bitmap
  pub fits : StateFits w.bitmap r.state

pub get_in_range : (m : BitMap) (i : ℕ) (b : Bool) → BitMap.get m i ≡ some b → i ≤ m.num_bits
unfolding BitMap.get
get_in_range m i b e = ground arith

abbrev Keeps : World × Receiver → Type 0
Keeps (w, r) = Inv w r

abbrev KeepsPoll : World × Receiver × Poll (Unit {0}) → Type 0
KeepsPoll (w, r, _) = Inv w r

finish-Inv :
    (chunk : Chunk) (w : World) (r : Receiver) → IsValid w.bitmap → Keeps (finish chunk w r)
unfolding finish
finish-Inv chunk w r v = record { valid = v; fits = tt }

ack_fits :
    (now : ℕ) (s : WaitForChunk) (r r' : Receiver) (m : BitMap)
    → m.num_bits ≡ s.chunk_info.num_chunks
    → ack now s r ≡ some r'
    → StateFits m r'.state
unfolding ack
ack_fits now s r r' m h =
    OnSome-apply (λ (q : Receiver). StateFits m q.state) _ r'
      (OnSome-bind _ (Congestion.stop_rtt now r.congestion) _
        λ c _. OnSome-bind _ (Congestion.get_rtt c) _ λ rtt _. h)

reported_Inv :
    (report : Bool) (w : World) (r : Receiver)
    → Inv w r
    → Inv (if report then send upload_status w else w) r
reported_Inv true w r i = record { valid = i.valid; fits = i.fits }
reported_Inv false w r i = i

chunk_written-Inv :
    (s : WritingChunk) (w : World) (r : Receiver)
    → IsValid w.bitmap
    → StateFits w.bitmap (writing_chunk s)
    → OnSome Keeps (chunk_written s w r)
unfolding chunk_written write_all
chunk_written-Inv s w r v h =
    let (m, old, e, wr) = set-view w.bitmap s.chunk.index true v (omega arith) in
    rw e (reported_Inv _ _ _ (record { valid = wr.valid; fits = wr.same_size ∙ h.0 }))

module _ (packets_for : ℕ → ℕ) where
  receive_chunk-Inv :
      (now : ℕ) (chunk : Chunk) (info : ChunkInfo) (w : World) (r : Receiver)
      → IsValid w.bitmap
      → w.bitmap.num_bits ≡ info.num_chunks
      → chunk.index ≢ info.num_chunks
      → OnSome Keeps (receive_chunk packets_for now chunk info w r)
  unfolding receive_chunk
  receive_chunk-Inv now chunk info w r v n ne =
      OnSome-bind Keeps (Congestion.ipt_packet packets_for now r.congestion) _ λ (c, _) _.
        OnSome-bind Keeps (BitMap.get w.bitmap chunk.index) _
          λ old eo. next_state old c (get_in_range w.bitmap chunk.index old eo)
    where
      next_state :
          (old : Bool) (c : CongestionInfo)
          → chunk.index ≤ w.bitmap.num_bits
          → Inv w (record {
            state =
                if old
                then wait_for_chunk (record { buf = into_vec chunk; chunk_info = info })
                else writing_chunk (record {
                  chunk_info = info;
                  chunk = chunk;
                  position = chunk.index * info.chunk_size;
                });
            congestion = c;
          })
      next_state true c le = record { valid = v; fits = n }
      next_state false c le = record { valid = v; fits = (n, omega arith, refl) }

  module _ (B : Byteorder) where
    on_datagram-Inv :
        (now : ℕ) (datagram : List ℕ) (info : ChunkInfo) (w : World) (r : Receiver)
        → IsValid w.bitmap
        → w.bitmap.num_bits ≡ info.num_chunks
        → OnSome Keeps (on_datagram packets_for B now datagram info w r)
    unfolding on_datagram
    on_datagram-Inv now datagram info w r v n =
        OnSome-bind Keeps (decode B (take mtu datagram) info.index_field_size) _ λ chunk _.
          elim (Bool-cases (sub64 chunk.index info.num_chunks == 0)) [
            | inl last ↦ rw last (finish-Inv chunk w r v)
            | inr other ↦ rw other (receive_chunk-Inv now chunk info w r v n (not_last chunk other))
          ]
      where
        not_last :
            (chunk : Chunk)
            → (sub64 chunk.index info.num_chunks == 0) ≡ false
            → chunk.index ≢ info.num_chunks
        not_last chunk h e = ground (arith, h, sub64_self info.num_chunks)

    continue-Inv :
        (o : Option (World × Receiver))
        → OnSome Keeps o
        → OnSome KeepsPoll (continue packets_for B o)
    continue-Inv none h = tt
    continue-Inv (some (w, r)) h = h

    receive-Inv :
        (now : ℕ) (s : State) (received : Poll (List ℕ)) (w : World) (r : Receiver)
        → IsValid w.bitmap
        → StateFits w.bitmap s
        → r.state ≡ s
        → OnSome KeepsPoll (receive packets_for B now s received w r)
    unfolding receive
    receive-Inv now invalid received w r v h e = absurd h
    receive-Inv now (writing_chunk s) received w r v h e = tt
    receive-Inv now (wait_for_ack s) (ready d) w r v h e =
        OnSome-bind KeepsPoll (ack now (record s { buf = recv_into s.buf d }) r) _
          λ r' er. record { valid = v; fits = ack_fits now _ r r' w.bitmap h er }
    receive-Inv now (wait_for_ack s) not_ready w r v h e = record { valid = v; fits = rw e h }
    receive-Inv now (wait_for_ack s) failed w r v h e = record { valid = v; fits = rw e h }
    receive-Inv now (wait_for_chunk s) (ready d) w r v h e =
        continue-Inv _ (on_datagram-Inv now d s.chunk_info w r v h)
    receive-Inv now (wait_for_chunk s) not_ready w r v h e = record { valid = v; fits = h }
    receive-Inv now (wait_for_chunk s) failed w r v h e = record { valid = v; fits = h }
    receive-Inv now (shut_down buf) (ready d) w r v h e = record { valid = v; fits = tt }
    receive-Inv now (shut_down buf) not_ready w r v h e = record { valid = v; fits = tt }
    receive-Inv now (shut_down buf) failed w r v h e = record { valid = v; fits = tt }

    finish_write-Inv :
        (ev : Event) (s : State) (written : Poll (Unit {0})) (w : World) (r : Receiver)
        → IsValid w.bitmap
        → StateFits w.bitmap s
        → r.state ≡ s
        → OnSome KeepsPoll (finish_write packets_for B ev s written w r)
    unfolding finish_write
    finish_write-Inv ev (writing_chunk s) not_ready w r v h e = record { valid = v; fits = rw e h }
    finish_write-Inv ev (writing_chunk s) failed w r v h e = record { valid = v; fits = rw e h }
    finish_write-Inv ev (writing_chunk s) (ready _) w r v h e =
        OnSome-bind KeepsPoll (chunk_written s w r) _ λ (w', r') ew.
          let i = OnSome-apply Keeps _ (w', r') (chunk_written-Inv s w r v h) ew in
          receive-Inv ev.now r'.state ev.received w' r' i.valid i.fits refl
    finish_write-Inv ev invalid written w r v h e = absurd h
    finish_write-Inv ev (wait_for_ack s) written w r v h e =
        receive-Inv ev.now (wait_for_ack s) ev.received w r v h e
    finish_write-Inv ev (wait_for_chunk s) written w r v h e =
        receive-Inv ev.now (wait_for_chunk s) ev.received w r v h e
    finish_write-Inv ev (shut_down buf) written w r v h e =
        receive-Inv ev.now (shut_down buf) ev.received w r v h e

    after_timer-Inv :
        (ev : Event) (tick : Poll (Unit {0})) (w : World) (r : Receiver)
        → Inv w r
        → OnSome KeepsPoll (after_timer packets_for B ev tick w r)
    unfolding after_timer
    after_timer-Inv ev failed w r i = i
    after_timer-Inv ev not_ready w r i =
        finish_write-Inv ev r.state ev.written w r i.valid i.fits refl
    after_timer-Inv ev (ready _) w r i =
        finish_write-Inv ev r.state ev.written (send upload_status w) r i.valid i.fits refl

    -- Every poll without a panic, whatever the socket, the file and the timer answer, keeps the map well
    -- formed and leaves a state that fits it: never `Invalid`, the number of chunks is the map's number of
    -- bits, and while a chunk is being written, it is one of the file's and `seek` has been called with its
    -- place. In append mode the write does not go there.
    pub poll-Inv :
        (ev : Event) (w w' : World) (r r' : Receiver) (answer : Poll (Unit {0}))
        → Inv w r
        → poll packets_for B ev w r ≡ some (w', r', answer)
        → Inv w' r'
    unfolding poll
    poll-Inv ev w w' r r' answer i e =
        OnSome-apply KeepsPoll _ (w', r', answer)
          (after_timer-Inv ev _ w (record r { congestion = _ })
            (record { valid = i.valid; fits = i.fits }))
          e
