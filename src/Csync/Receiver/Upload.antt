-- ===== src/Csync/Receiver/Upload.antt =====
-- v1/csync/src/server/receiver.rs: the start of an upload, `upload_request`.
use das_protokoll.Base.{
  ℕ, zero, suc, ◌+◌, ◌-◌, ◌/◌, ◌≤◌, ◌<◌, ◌≡◌, refl, ap, true, false, Option, none, some, List, [],
  ◌∷◌, ◌++◌, arith, inl, inr, length, take, replicate, All, All-get, All-take, All-replicate,
  length-append, length-take, length-replicate,
}
use das_protokoll.Base.Word.{IsByte, IsU64}
use das_protokoll.BitMap.View.{bits, view}
use das_protokoll.BitMap.Iteration.{with_length-view}
use das_protokoll.Csync.Async.{ChannelMessage, upload_start, upload_status}
use das_protokoll.Csync.Chunks.{ChunkInfo, index_field_size, resize}
use das_protokoll.Csync.Chunks.Sizes.{Cuts, CutsInto, few_chunks, index_field_size-Cuts}
use das_protokoll.Csync.Congestion.{CongestionInfo}
use das_protokoll.Csync.Congestion
use das_protokoll.Csync.Receiver.{
  invalid, new, World, Receiver, wait_for_chunk, send, upload_request,
}
use das_protokoll.Csync.Receiver.Uploading.{Uploading, told, moved}

bits-replicate_zero : (n : ℕ) → All (λ b. b ≡ false) (bits (replicate n 0))
bits-replicate_zero zero = tt
bits-replicate_zero (suc n) =
    (refl, (refl, (refl, (refl, (refl, (refl, (refl, (refl, bits-replicate_zero n))))))))

-- A file that is not empty has a chunk.
pub Cuts-some : (length size n : ℕ) → 0 < length → CutsInto length size n → 0 < n
Cuts-some length size zero filled cuts = absurd (omega (arith, filled, cuts.0))
Cuts-some length size (suc n) filled cuts = omega arith

pub length-resize : (xs : List ℕ) (n : ℕ) → length (resize xs n 0) ≡ n
length-resize xs n = omega (
  arith,
  length-append (take n xs) (replicate (n - length xs) 0),
  length-take n xs,
  length-replicate {A = ℕ} (n - length xs) 0,
)

module _ (map_mut : List ℕ → Option (List ℕ)) where
  -- A request for a file that there is no map of.
  upload_request-Uploading :
      (source old_file : List ℕ) (w : World) (r : Receiver)
      → IsU64 (length source)
      → 0 < length source
      → ((n : ℕ) → 0 < n → map_mut (replicate n 0) ≡ some (replicate n 0))
      → (info : ChunkInfo) × (w' : World) × (r' : Receiver) × (index_field_size (length source)
          ≡ some info)
        × Cuts (length source) info
        × (upload_request map_mut (length source) none old_file w r ≡ some (w', r'))
        × Uploading source info w' r'
        × All (λ b. b ≡ false) (view w'.bitmap)
        × (w'.sent ≡ w.sent ++ upload_start ∷ [])
        × (r'.congestion ≡ r.congestion)
  unfolding upload_request
  upload_request-Uploading source old_file w r h filled mapped =
      let (info, ei, cuts) = index_field_size-Cuts (length source) h in
      let len = (info.num_chunks + 7) / 8 in
      let buf : List ℕ = replicate len 0 in
      let some_chunks : 0 < info.num_chunks =
        Cuts-some (length source) info.chunk_size info.num_chunks filled cuts.covers_file in
      let size : 2 ≤ info.chunk_size = omega (arith, cuts.sized, cuts.smallest.at_most) in
      let few =
        few_chunks (length source) info.chunk_size info.num_chunks h size cuts.covers_file in
      elim (with_length-view buf info.num_chunks (All-replicate IsByte len 0 (omega arith)) few) [
        | inl (short, _) ↦ absurd (omega (arith, length-replicate {A = ℕ} len 0))
        | inr (m, em, v, eb, en) ↦
            let clear : All (λ b. b ≡ false) (view m) =
              All-take (λ b. b ≡ false) m.num_bits (bits m.buf) (rw eb (bits-replicate_zero len)) in
            (
              info,
              send upload_start (record w {
                bitmap = m;
                file = resize old_file (length source) 0;
                append = false;
                bitmap_exists = true;
              }),
              record r { state = wait_for_chunk (record { buf = []; chunk_info = info }) },
              ei,
              cuts,
              rw (ei, mapped len (omega (arith, some_chunks)), em) refl,
              record {
                valid = v;
                sized = en;
                in_place = refl;
                honest = refl;
                agrees = record {
                  same_length = length-resize old_file (length source);
                  held = λ i one.
                      absurd (contradiction (All-get (λ b. b ≡ false) (view m) i true clear one));
                };
                removed = λ gone. absurd (contradiction gone);
              },
              clear,
              refl,
              refl,
            )
      ]
    where
      contradiction : true ≡ false → ⊥
      contradiction e = cc

  -- The server answers a login that asks to upload a file that is not empty, and that it has no map
  -- of, by starting an upload of that file, whatever was stored under its name: no chunk counts as
  -- received, the file gets the length asked for, the sender is given the map and asked for a first
  -- status update, and the clock of the round trip runs. Its hypothesis on `map_mut` is that the
  -- mapping of a new map file of at least one byte gives its zeros.
  pub new-Uploading :
      (now : ℕ) (source old_file : List ℕ) (w : World)
      → IsU64 (length source)
      → 0 < length source
      → ((n : ℕ) → 0 < n → map_mut (replicate n 0) ≡ some (replicate n 0))
      → (info : ChunkInfo) × (w' : World) × (r' : Receiver) × (index_field_size (length source)
          ≡ some info)
        × Cuts (length source) info
        × (new map_mut now (length source) none old_file w ≡ some (w', r'))
        × Uploading source info w' r'
        × All (λ b. b ≡ false) (view w'.bitmap)
        × (w'.sent ≡ (w.sent ++ upload_start ∷ []) ++ upload_status ∷ [])
        × (Congestion.is_rtt_running r'.congestion ≡ true)
  unfolding new Congestion.start_rtt Congestion.new Congestion.is_rtt_running
  new-Uploading now source old_file w h filled mapped =
      let fresh : Receiver = record { state = invalid; congestion = Congestion.new now } in
      let (info, w1, r1, ei, cuts, e, u, clear, es, ec) =
        upload_request-Uploading source old_file w fresh h filled mapped in
      let congestion : CongestionInfo = record r1.congestion { rtt_start = some now } in
      let r2 : Receiver = record r1 { congestion = congestion } in
      let told_w = told source info w1 r1 true u in
      (
        info,
        send upload_status w1,
        r2,
        ei,
        cuts,
        rw (e, ec) refl,
        moved source info (send upload_status w1) r1 r2 told_w told_w.honest,
        clear,
        ap (λ (l : List ChannelMessage). l ++ upload_status ∷ []) es,
        refl,
      )
