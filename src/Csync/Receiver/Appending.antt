-- ===== src/Csync/Receiver/Appending.antt =====
-- v1/csync/src/server/receiver.rs: the polls of an upload whose file is open for appending.
use das_protokoll.Base.{
  ℕ, ◌*◌, ◌<◌, ◌≡◌, refl, Bool, true, false, Option, none, some, List, [], ◌∷◌, ◌++◌, ◌==◌,
  if◌then◌else◌, arith, Bool-cases, All, ◌⊎◌, inl, inr, append_assoc, take, length, length-append,
  OnSome, OnSome-bind, OnSome-apply,
}
use das_protokoll.Base.Word.{sub64}
use das_protokoll.BitMap.{BitMap}
use das_protokoll.BitMap
use das_protokoll.Crates.{Byteorder}
use das_protokoll.Csync.Async.{Poll, ready, not_ready, failed, upload_status}
use das_protokoll.Csync.Chunks.{mtu, ChunkInfo, Chunk, into_vec, decode, payload}
use das_protokoll.Csync.Congestion
use das_protokoll.Csync.Receiver.{
  World, Receiver, State, WaitForChunk, WritingChunk, Event, invalid, wait_for_ack, wait_for_chunk,
  writing_chunk, shut_down, send, recv_into, write_all, receive_chunk, finish, ack, on_datagram,
  continue, receive, chunk_written, finish_write, after_timer, poll, run,
}

-- A chunk that waits to be written has bytes, and the file is still cut the same way.
abbrev pub StateHasBytes : ChunkInfo → State → Type 0
StateHasBytes info invalid = Unit {0}
StateHasBytes info (wait_for_ack s) = s.chunk_info ≡ info
StateHasBytes info (wait_for_chunk s) = s.chunk_info ≡ info
StateHasBytes info (writing_chunk s) = (s.chunk_info ≡ info) × (0 < length (payload s.chunk))
StateHasBytes info (shut_down buf) = Unit {0}

ack-StateHasBytes :
    (info : ChunkInfo) (now : ℕ) (s : WaitForChunk) (r : Receiver)
    → s.chunk_info ≡ info
    → OnSome (λ (r' : Receiver). StateHasBytes info r'.state) (ack now s r)
unfolding ack
ack-StateHasBytes info now s r h =
    let P : Receiver → Type 0 = λ r'. StateHasBytes info r'.state in
    OnSome-bind P (Congestion.stop_rtt now r.congestion) _
      λ c _. OnSome-bind P (Congestion.get_rtt c) _ λ rtt _. h

-- The chunk in a datagram, unless it is the last message, has at least one byte.
module _ (B : Byteorder) (info : ChunkInfo) where
  abbrev pub HasBytes : List ℕ → Type 0
  HasBytes datagram =
      (c : Chunk)
      → decode B (take mtu datagram) info.index_field_size ≡ some c
      → (sub64 c.index info.num_chunks == 0) ≡ false
      → 0 < length (payload c)

  abbrev pub ReceivedBytes : Poll (List ℕ) → Type 0
  ReceivedBytes (ready datagram) = HasBytes datagram
  ReceivedBytes not_ready = Unit {0}
  ReceivedBytes failed = Unit {0}

module _ (base : List ℕ) (stored_map : BitMap) (info : ChunkInfo) where
  -- The file is open for appending, and starts with `base`; a map that is not the stored one any more
  -- has cost bytes behind that.
  abbrev pub Starts : World → Type 0
  Starts w =
      (w.append ≡ true)
      × (more : List ℕ) × (w.file ≡ base ++ more)
      × ((w.bitmap ≡ stored_map) ⊎ (0 < length more))

  abbrev pub Keeps : World × Receiver → Type 0
  Keeps (w, r) = Starts w × StateHasBytes info r.state

  abbrev KeepsPoll : World × Receiver × Poll (Unit {0}) → Type 0
  KeepsPoll (w, r, _) = Starts w × StateHasBytes info r.state

  told_Starts :
      (report : Bool) (w : World) → Starts w → Starts (if report then send upload_status w else w)
  told_Starts true w h = h
  told_Starts false w h = h

  chunk_written-Starts :
      (s : WritingChunk) (w : World) (r : Receiver)
      → Starts w
      → StateHasBytes info (writing_chunk s)
      → OnSome Keeps (chunk_written s w r)
  unfolding chunk_written write_all
  chunk_written-Starts s w r (a, more, e, _) (same, bytes) =
      OnSome-bind Keeps (BitMap.set w.bitmap s.chunk.index true) _ λ (m, old) _.
        let grows : 0 < length (more ++ payload s.chunk) =
          omega (arith, bytes, length-append more (payload s.chunk)) in
        (
          told_Starts _ _ (
            a,
            more ++ payload s.chunk,
            rw (a, e) (append_assoc base more (payload s.chunk)),
            inr grows,
          ),
          same,
        )

  module _ (packets_for : ℕ → ℕ) (B : Byteorder) where
    receive_chunk-Starts :
        (now : ℕ) (c : Chunk) (w : World) (r : Receiver)
        → Starts w
        → 0 < length (payload c)
        → OnSome Keeps (receive_chunk packets_for now c info w r)
    unfolding receive_chunk
    receive_chunk-Starts now c w r h bytes =
        OnSome-bind Keeps (Congestion.ipt_packet packets_for now r.congestion) _
          λ _ _. OnSome-bind Keeps (BitMap.get w.bitmap c.index) _ λ old _. (h, next old)
      where
        next :
            (old : Bool)
            → StateHasBytes info (
                if old
                then wait_for_chunk (record { buf = into_vec c; chunk_info = info })
                else writing_chunk
                    (record { chunk_info = info; chunk = c; position = c.index * info.chunk_size }))
        next true = refl
        next false = (refl, bytes)

    on_datagram-Starts :
        (now : ℕ) (datagram : List ℕ) (w : World) (r : Receiver)
        → Starts w
        → HasBytes B info datagram
        → OnSome Keeps (on_datagram packets_for B now datagram info w r)
    unfolding on_datagram finish
    on_datagram-Starts now datagram w r h bytes =
        OnSome-bind Keeps (decode B (take mtu datagram) info.index_field_size) _ λ chunk ec.
          elim (Bool-cases (sub64 chunk.index info.num_chunks == 0)) [
            | inl last ↦ rw last (h, tt)
            | inr other ↦ rw other (receive_chunk-Starts now chunk w r h (bytes chunk ec other))
          ]

    continue-Starts :
        (o : Option (World × Receiver))
        → OnSome Keeps o
        → OnSome KeepsPoll (continue packets_for B o)
    continue-Starts none h = tt
    continue-Starts (some (w, r)) h = h

    receive-Starts :
        (now : ℕ) (s : State) (received : Poll (List ℕ)) (w : World) (r : Receiver)
        → Starts w
        → StateHasBytes info r.state
        → StateHasBytes info s
        → ReceivedBytes B info received
        → OnSome KeepsPoll (receive packets_for B now s received w r)
    unfolding receive
    receive-Starts now invalid received w r h hr hs d = tt
    receive-Starts now (writing_chunk s) received w r h hr hs d = tt
    receive-Starts now (wait_for_ack s) (ready x) w r h hr hs d =
        let buf = recv_into s.buf x in
        OnSome-bind KeepsPoll (ack now (record s { buf = buf }) r) _ λ r' er. (
          h,
          OnSome-apply (λ (r' : Receiver). StateHasBytes info r'.state) _ r'
              (ack-StateHasBytes info now (record s { buf = buf }) r hs) er,
        )
    receive-Starts now (wait_for_ack s) not_ready w r h hr hs d = (h, hr)
    receive-Starts now (wait_for_ack s) failed w r h hr hs d = (h, hr)
    receive-Starts now (wait_for_chunk s) (ready x) w r h hr hs d =
        rw hs (continue-Starts _ (on_datagram-Starts now x w r h d))
    receive-Starts now (wait_for_chunk s) not_ready w r h hr hs d = (h, hs)
    receive-Starts now (wait_for_chunk s) failed w r h hr hs d = (h, hs)
    receive-Starts now (shut_down buf) (ready x) w r h hr hs d = (h, tt)
    receive-Starts now (shut_down buf) not_ready w r h hr hs d = (h, tt)
    receive-Starts now (shut_down buf) failed w r h hr hs d = (h, tt)

    finish_write-Starts :
        (ev : Event) (s : State) (written : Poll (Unit {0})) (w : World) (r : Receiver)
        → Starts w
        → StateHasBytes info r.state
        → StateHasBytes info s
        → ReceivedBytes B info ev.received
        → OnSome KeepsPoll (finish_write packets_for B ev s written w r)
    unfolding finish_write
    finish_write-Starts ev (writing_chunk s) not_ready w r h hr hs d = (h, hr)
    finish_write-Starts ev (writing_chunk s) failed w r h hr hs d = (h, hr)
    finish_write-Starts ev (writing_chunk s) (ready _) w r h hr hs d =
        OnSome-bind KeepsPoll (chunk_written s w r) _ λ (w', r') ew.
          let (h', hr') = OnSome-apply Keeps _ (w', r') (chunk_written-Starts s w r h hs) ew in
          receive-Starts ev.now r'.state ev.received w' r' h' hr' hr' d
    finish_write-Starts ev invalid written w r h hr hs d =
        receive-Starts ev.now invalid ev.received w r h hr hs d
    finish_write-Starts ev (wait_for_ack s) written w r h hr hs d =
        receive-Starts ev.now (wait_for_ack s) ev.received w r h hr hs d
    finish_write-Starts ev (wait_for_chunk s) written w r h hr hs d =
        receive-Starts ev.now (wait_for_chunk s) ev.received w r h hr hs d
    finish_write-Starts ev (shut_down buf) written w r h hr hs d =
        receive-Starts ev.now (shut_down buf) ev.received w r h hr hs d

    after_timer-Starts :
        (ev : Event) (tick : Poll (Unit {0})) (w : World) (r : Receiver)
        → Starts w
        → StateHasBytes info r.state
        → ReceivedBytes B info ev.received
        → OnSome KeepsPoll (after_timer packets_for B ev tick w r)
    unfolding after_timer
    after_timer-Starts ev failed w r h hr d = (h, hr)
    after_timer-Starts ev not_ready w r h hr d =
        finish_write-Starts ev r.state ev.written w r h hr hr d
    after_timer-Starts ev (ready _) w r h hr d =
        finish_write-Starts ev r.state ev.written (send upload_status w) r h hr hr d

    pub run-Starts :
        (evs : List Event) (w : World) (r : Receiver)
        → Keeps (w, r)
        → All (λ ev. ReceivedBytes B info ev.received) evs
        → OnSome Keeps (run packets_for B evs w r)
    unfolding run poll
    run-Starts [] w r h d = h
    run-Starts (ev ∷ evs) w r h d =
        OnSome-bind Keeps (poll packets_for B ev w r) _ λ (w', r', answer) e.
          let h' = polled w' r' answer e in stop answer w' r' h' (run-Starts evs w' r' h' d.1)
      where
        polled :
            (w' : World) (r' : Receiver) (answer : Poll (Unit {0}))
            → poll packets_for B ev w r ≡ some (w', r', answer)
            → Keeps (w', r')
        polled w' r' answer e =
            OnSome-apply KeepsPoll _ (w', r', answer)
              (after_timer-Starts ev _ w (record r { congestion = _ }) h.0 h.1 d.0) e

        stop :
            (answer : Poll (Unit {0})) (w' : World) (r' : Receiver)
            → Keeps (w', r')
            → OnSome Keeps (run packets_for B evs w' r')
            → OnSome Keeps (elim answer [
              | failed ↦ some (w', r')
              | not_ready ↦ run packets_for B evs w' r'
              | ready _ ↦ run packets_for B evs w' r'
            ])
        stop failed w' r' h' o = h'
        stop not_ready w' r' h' o = o
        stop (ready _) w' r' h' o = o
