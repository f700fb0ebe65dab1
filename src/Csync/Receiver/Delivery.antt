-- ===== src/Csync/Receiver/Delivery.antt =====
-- v1/csync/src/server/receiver.rs: an upload as a whole, through any polls, with datagrams of this file in
-- any order, lost and repeated at will.
use das_protokoll.Base.{
  ℕ, ◌<◌, ◌≡◌, ◌∙◌, true, false, Option, none, some, List, [], ◌∷◌, ◌==◌, ◌≢◌, arith, inl, inr,
  Bool-cases, take, length, All, OnSome, OnSome-bind, OnSome-apply,
}
use das_protokoll.Base.Word.{sub64, sub64_self}
use das_protokoll.BitMap.View.{view, length-view}
use das_protokoll.Crates.{Byteorder}
use das_protokoll.Csync.Async.{Poll, ready, not_ready, failed, upload_status}
use das_protokoll.Csync.Chunks.{mtu, ChunkInfo, Chunk, decode, payload}
use das_protokoll.Csync.Chunks.Sizes.{CutsInto}
use das_protokoll.Csync.Receiver.{
  World, Receiver, State, Event, invalid, wait_for_ack, wait_for_chunk, writing_chunk, shut_down,
  send, recv_into, continue, ack, on_datagram, receive, chunk_written, finish_write, after_timer,
  poll, run,
}
use das_protokoll.Csync.Receiver.Integrity.{agreed, slice}
use das_protokoll.Csync.Receiver.Uploading.{
  StateHonest, Uploading, Keeps, KeepsPoll, moved, told, finish-Uploading, chunk_written-Uploading,
  ack_honest, receive_chunk-Uploading,
}

module _ (source : List ℕ) (info : ChunkInfo) where
  module _ (packets_for : ℕ → ℕ) where
    module _ (B : Byteorder) where
      -- A datagram of this file: the chunk that it decodes to, unless it is the last message, has the
      -- file's bytes.
      abbrev pub DatagramHonest : List ℕ → Type 0
      DatagramHonest datagram =
          (c : Chunk)
          → decode B (take mtu datagram) info.index_field_size ≡ some c
          → c.index < info.num_chunks
          → payload c ≡ slice source info.chunk_size c.index

      abbrev pub ReceivedHonest : Poll (List ℕ) → Type 0
      ReceivedHonest (ready datagram) = DatagramHonest datagram
      ReceivedHonest not_ready = Unit {0}
      ReceivedHonest failed = Unit {0}

      on_datagram-Uploading :
          (now : ℕ) (datagram : List ℕ) (w : World) (r : Receiver)
          → Uploading source info w r
          → DatagramHonest datagram
          → OnSome (Keeps source info) (on_datagram packets_for B now datagram info w r)
      unfolding on_datagram
      on_datagram-Uploading now datagram w r u honest =
          OnSome-bind (Keeps source info) (decode B (take mtu datagram) info.index_field_size) _
            λ chunk ec. elim (Bool-cases (sub64 chunk.index info.num_chunks == 0)) [
              | inl last ↦ rw last (finish-Uploading source info chunk w r u)
              | inr other ↦ rw other (
                  receive_chunk-Uploading source info packets_for now chunk w r u
                    (not_last chunk other) (honest chunk ec))
            ]
        where
          not_last :
              (chunk : Chunk)
              → (sub64 chunk.index info.num_chunks == 0) ≡ false
              → chunk.index ≢ info.num_chunks
          not_last chunk h e = ground (arith, h, sub64_self info.num_chunks)

      continue-Uploading :
          (o : Option (World × Receiver))
          → OnSome (Keeps source info) o
          → OnSome (KeepsPoll source info) (continue packets_for B o)
      continue-Uploading none h = tt
      continue-Uploading (some (w, r)) h = h

      receive-Uploading :
          (now : ℕ) (s : State) (received : Poll (List ℕ)) (w : World) (r : Receiver)
          → Uploading source info w r
          → StateHonest source info s
          → ReceivedHonest received
          → OnSome (KeepsPoll source info) (receive packets_for B now s received w r)
      unfolding receive
      receive-Uploading now invalid received w r u h d = absurd h
      receive-Uploading now (writing_chunk s) received w r u h d = tt
      receive-Uploading now (wait_for_ack s) (ready x) w r u h d =
          OnSome-bind (KeepsPoll source info) (ack now (record s { buf = recv_into s.buf x }) r) _
            λ r' er. moved source info w r r' u (ack_honest source info now _ r r' h er)
      receive-Uploading now (wait_for_ack s) not_ready w r u h d = u
      receive-Uploading now (wait_for_ack s) failed w r u h d = u
      receive-Uploading now (wait_for_chunk s) (ready x) w r u h d =
          rw h (continue-Uploading _ (on_datagram-Uploading now x w r u d))
      receive-Uploading now (wait_for_chunk s) not_ready w r u h d = moved source info w r _ u h
      receive-Uploading now (wait_for_chunk s) failed w r u h d = moved source info w r _ u h
      receive-Uploading now (shut_down buf) (ready x) w r u h d = moved source info w r _ u tt
      receive-Uploading now (shut_down buf) not_ready w r u h d = moved source info w r _ u tt
      receive-Uploading now (shut_down buf) failed w r u h d = moved source info w r _ u tt

      finish_write-Uploading :
          (ev : Event) (s : State) (written : Poll (Unit {0})) (w : World) (r : Receiver)
          → CutsInto (length source) info.chunk_size info.num_chunks
          → Uploading source info w r
          → StateHonest source info s
          → ReceivedHonest ev.received
          → OnSome (KeepsPoll source info) (finish_write packets_for B ev s written w r)
      unfolding finish_write
      finish_write-Uploading ev (writing_chunk s) not_ready w r cuts u h d = u
      finish_write-Uploading ev (writing_chunk s) failed w r cuts u h d = u
      finish_write-Uploading ev (writing_chunk s) (ready _) w r cuts u h d =
          OnSome-bind (KeepsPoll source info) (chunk_written s w r) _ λ (w', r') ew.
            let u' =
              OnSome-apply (Keeps source info) _ (w', r')
                (chunk_written-Uploading source info s w r cuts u h) ew in
            receive-Uploading ev.now r'.state ev.received w' r' u' u'.honest d
      finish_write-Uploading ev invalid written w r cuts u h d = absurd h
      finish_write-Uploading ev (wait_for_ack s) written w r cuts u h d =
          receive-Uploading ev.now (wait_for_ack s) ev.received w r u h d
      finish_write-Uploading ev (wait_for_chunk s) written w r cuts u h d =
          receive-Uploading ev.now (wait_for_chunk s) ev.received w r u h d
      finish_write-Uploading ev (shut_down buf) written w r cuts u h d =
          receive-Uploading ev.now (shut_down buf) ev.received w r u h d

      after_timer-Uploading :
          (ev : Event) (tick : Poll (Unit {0})) (w : World) (r : Receiver)
          → CutsInto (length source) info.chunk_size info.num_chunks
          → Uploading source info w r
          → ReceivedHonest ev.received
          → OnSome (KeepsPoll source info) (after_timer packets_for B ev tick w r)
      unfolding after_timer
      after_timer-Uploading ev failed w r cuts u d = u
      after_timer-Uploading ev not_ready w r cuts u d =
          finish_write-Uploading ev r.state ev.written w r cuts u u.honest d
      after_timer-Uploading ev (ready _) w r cuts u d =
          finish_write-Uploading ev r.state ev.written (send upload_status w) r cuts
            (told source info w r true u) u.honest d

      poll-Uploading :
          (ev : Event) (w : World) (r : Receiver)
          → CutsInto (length source) info.chunk_size info.num_chunks
          → Uploading source info w r
          → ReceivedHonest ev.received
          → OnSome (KeepsPoll source info) (poll packets_for B ev w r)
      unfolding poll
      poll-Uploading ev w r cuts u d =
          after_timer-Uploading ev _ w (record r { congestion = _ }) cuts
            (moved source info w r _ u u.honest) d

      run-Uploading :
          (evs : List Event) (w : World) (r : Receiver)
          → CutsInto (length source) info.chunk_size info.num_chunks
          → Uploading source info w r
          → All (λ ev. ReceivedHonest ev.received) evs
          → OnSome (Keeps source info) (run packets_for B evs w r)
      unfolding run
      run-Uploading [] w r cuts u d = u
      run-Uploading (ev ∷ evs) w r cuts u d =
          OnSome-bind (Keeps source info) (poll packets_for B ev w r) _ λ (w', r', answer) e.
            let u' =
              OnSome-apply (KeepsPoll source info) _ (w', r', answer)
                (poll-Uploading ev w r cuts u d.0) e in
            stop answer w' r' u' (run-Uploading evs w' r' cuts u' d.1)
        where
          stop :
              (answer : Poll (Unit {0})) (w' : World) (r' : Receiver)
              → Uploading source info w' r'
              → OnSome (Keeps source info) (run packets_for B evs w' r')
              → OnSome (Keeps source info) (elim answer [
                | failed ↦ some (w', r')
                | not_ready ↦ run packets_for B evs w' r'
                | ready _ ↦ run packets_for B evs w' r'
              ])
          stop failed w' r' u' o = u'
          stop not_ready w' r' u' o = o
          stop (ready _) w' r' u' o = o

      -- In any run of polls without a panic, from any state of an upload of this file that is not a
      -- resumed one: the file is not open for appending, the map is well formed, and the chunks that it
      -- has a 1 for are in the file. Each datagram that decodes to a chunk of the file has that chunk's
      -- bytes, while datagrams come in any order, repeated, or not at all. Once the server has removed
      -- its map from the disk, its file is the client's, byte for byte. The chunks have to cover the
      -- file with none to spare.
      pub upload_complete :
          (evs : List Event) (w w' : World) (r r' : Receiver)
          → CutsInto (length source) info.chunk_size info.num_chunks
          → Uploading source info w r
          → All (λ ev. ReceivedHonest ev.received) evs
          → run packets_for B evs w r ≡ some (w', r')
          → w'.bitmap_exists ≡ false
          → w'.file ≡ source
      upload_complete evs w w' r r' cuts u d e gone =
          let u' = OnSome-apply (Keeps source info) _ (w', r') (run-Uploading evs w r cuts u d) e in
          agreed source info.chunk_size info.num_chunks (view w'.bitmap) w'.file cuts
            (length-view w'.bitmap u'.valid.fits ∙ u'.sized) u'.agrees (u'.removed gone)
