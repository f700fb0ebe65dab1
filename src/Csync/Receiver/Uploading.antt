-- ===== src/Csync/Receiver/Uploading.antt =====
-- v1/csync/src/server/receiver.rs: the state of an upload of a given file, and the steps behind a poll.
use das_protokoll.Base.{
  ℕ, ◌*◌, ◌≤◌, ◌<◌, ◌≡◌, refl, ◌∙◌, Bool, true, false, some, List, if◌then◌else◌, ◌≢◌, arith, inl,
  inr, ◌⊎◌, length, All, All-set, OnSome, OnSome-bind, OnSome-apply, not, ◌&&◌,
}
use das_protokoll.BitMap.{BitMap}
use das_protokoll.BitMap
use das_protokoll.BitMap.View.{view, IsValid}
use das_protokoll.BitMap.Access.{set-view}
use das_protokoll.BitMap.Counts.{counts_lem}
use das_protokoll.Csync.Async.{Poll, upload_status}
use das_protokoll.Csync.Chunks.{ChunkInfo, Chunk, into_vec, payload}
use das_protokoll.Csync.Chunks.Sizes.{CutsInto}
use das_protokoll.Csync.Congestion.{CongestionInfo}
use das_protokoll.Csync.Congestion
use das_protokoll.Csync.Receiver.{
  World, Receiver, State, WaitForChunk, WritingChunk, invalid, wait_for_ack, wait_for_chunk,
  writing_chunk, shut_down, send, write_all, receive_chunk, finish, ack, chunk_written,
}
use das_protokoll.Csync.Receiver.Invariant.{get_in_range}
use das_protokoll.Csync.Receiver.Integrity.{slice, Agrees, write-Agrees, starts_inside}

abbrev pub StateHonest : List ℕ → ChunkInfo → State → Type 0
StateHonest source info invalid = ⊥
StateHonest source info (wait_for_ack s) = s.chunk_info ≡ info
StateHonest source info (wait_for_chunk s) = s.chunk_info ≡ info
StateHonest source info (writing_chunk s) =
    (s.chunk_info ≡ info)
    × (s.chunk.index < info.num_chunks)
    × (s.position ≡ s.chunk.index * info.chunk_size)
    × (payload s.chunk ≡ slice source info.chunk_size s.chunk.index)
StateHonest source info (shut_down buf) = Unit {0}

-- The state of an upload of the file `source`. The map is kept on disk until every bit is 1.
pub record Uploading (source : List ℕ) (info : ChunkInfo) (w : World) (r : Receiver) : Type 0 where
  pub valid : IsValid w.bitmap
  pub sized : w.bitmap.num_bits ≡ info.num_chunks
  pub in_place : w.append ≡ false
  pub honest : StateHonest source info r.state
  pub agrees : Agrees source info.chunk_size (view w.bitmap) w.file
  pub removed : w.bitmap_exists ≡ false → All (λ b. b ≡ true) (view w.bitmap)

module _ (source : List ℕ) (info : ChunkInfo) where
  abbrev pub Keeps : World × Receiver → Type 0
  Keeps (w, r) = Uploading source info w r

  abbrev pub KeepsPoll : World × Receiver × Poll (Unit {0}) → Type 0
  KeepsPoll (w, r, _) = Uploading source info w r

  -- Another state, other congestion data and one more message do not matter.
  pub moved :
      (w : World) (r r' : Receiver)
      → Uploading source info w r
      → StateHonest source info r'.state
      → Uploading source info w r'
  moved w r r' u h = record {
    valid = u.valid;
    sized = u.sized;
    in_place = u.in_place;
    honest = h;
    agrees = u.agrees;
    removed = u.removed;
  }

  pub told :
      (w : World) (r : Receiver) (report : Bool)
      → Uploading source info w r
      → Uploading source info (if report then send upload_status w else w) r
  told w r true u = record {
    valid = u.valid;
    sized = u.sized;
    in_place = u.in_place;
    honest = u.honest;
    agrees = u.agrees;
    removed = u.removed;
  }
  told w r false u = u

  kept_or_all : (exists all : Bool) → (exists && not all) ≡ false → (exists ≡ false) ⊎ (all ≡ true)
  kept_or_all exists all h = ground arith

  pub finish-Uploading :
      (chunk : Chunk) (w : World) (r : Receiver)
      → Uploading source info w r
      → Keeps (finish chunk w r)
  unfolding finish
  finish-Uploading chunk w r u = record {
    valid = u.valid;
    sized = u.sized;
    in_place = u.in_place;
    honest = tt;
    agrees = u.agrees;
    removed = λ h. elim (kept_or_all w.bitmap_exists (BitMap.all w.bitmap) h) [
      | inl gone ↦ u.removed gone
      | inr all ↦ (counts_lem w.bitmap u.valid).0.0 all
    ];
  }

  pub chunk_written-Uploading :
      (s : WritingChunk) (w : World) (r : Receiver)
      → CutsInto (length source) info.chunk_size info.num_chunks
      → Uploading source info w r
      → StateHonest source info (writing_chunk s)
      → OnSome Keeps (chunk_written s w r)
  unfolding chunk_written write_all
  chunk_written-Uploading s w r cuts u h =
      let i = s.chunk.index in
      let (m, old, e, wr) = set-view w.bitmap i true u.valid (omega (arith, h.1, u.sized)) in
      let starts = starts_inside i info.num_chunks info.chunk_size (length source) h.1 cuts.1 in
      rw e (
        told _ _ _ (record {
          valid = wr.valid;
          sized = wr.same_size ∙ u.sized;
          in_place = u.in_place;
          honest = h.0;
          agrees =
              rw (u.in_place, h.2, h.3)
                (write-Agrees source w.file info.chunk_size i (view w.bitmap) (view m) starts
                  u.agrees wr.now);
          removed = λ gone.
              rw wr.now (All-set (λ b. b ≡ true) (view w.bitmap) i true (u.removed gone) refl);
        }))

  pub ack_honest :
      (now : ℕ) (s : WaitForChunk) (r r' : Receiver)
      → s.chunk_info ≡ info
      → ack now s r ≡ some r'
      → StateHonest source info r'.state
  unfolding ack
  ack_honest now s r r' h =
      OnSome-apply (λ (q : Receiver). StateHonest source info q.state) _ r'
        (OnSome-bind _ (Congestion.stop_rtt now r.congestion) _
          λ c _. OnSome-bind _ (Congestion.get_rtt c) _ λ rtt _. h)

  module _ (packets_for : ℕ → ℕ) where
    pub receive_chunk-Uploading :
        (now : ℕ) (chunk : Chunk) (w : World) (r : Receiver)
        → Uploading source info w r
        → chunk.index ≢ info.num_chunks
        → (chunk.index < info.num_chunks → payload chunk ≡ slice source info.chunk_size chunk.index)
        → OnSome Keeps (receive_chunk packets_for now chunk info w r)
    unfolding receive_chunk
    receive_chunk-Uploading now chunk w r u ne honest =
        OnSome-bind Keeps (Congestion.ipt_packet packets_for now r.congestion) _ λ (c, _) _.
          OnSome-bind Keeps (BitMap.get w.bitmap chunk.index) _
            λ old eo. next_state old c (get_in_range w.bitmap chunk.index old eo)
      where
        next_state :
            (old : Bool) (c : CongestionInfo)
            → chunk.index ≤ w.bitmap.num_bits
            → Uploading source info w (record {
              state =
                  if old
                  then wait_for_chunk (record { buf = into_vec chunk; chunk_info = info })
                  else writing_chunk (record {
                    chunk_info = info;
                    chunk = chunk;
                    position = chunk.index * info.chunk_size;
                  });
              congestion = c;
            })
        next_state true c le = moved w r _ u refl
        next_state false c le =
            let lt : chunk.index < info.num_chunks = omega (arith, u.sized) in
            moved w r _ u (refl, lt, refl, honest lt)
