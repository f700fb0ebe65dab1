-- ===== src/Csync/Client/Updates.antt =====
-- v1/csync/src/client.rs: what a status update does to a client that waits for one.
use das_protokoll.Base.{
  ℕ, ◌+◌, ◌≤◌, ◌<◌, ◌≡◌, refl, sym, ap, ◌∙◌, true, false, some, List, [], ◌∷◌, length, take,
  get_elem?, arith, ◌⊎◌, inl, inr, All, Bool-cases, append-nil, length-drop,
}
use mathlib.Core.Path.{subst}
use das_protokoll.Base.Word.{IsU64}
use das_protokoll.BitMap.{BitMap}
use das_protokoll.BitMap.View.{view, IsValid}
use das_protokoll.Crates.{Varmint, Itertools, Byteorder}
use das_protokoll.Csync.Chunks.{mtu, ChunkInfo, Chunk, into_vec, payload, fill, decode}
use das_protokoll.Csync.Chunks.Sizes.{Cuts, few_chunks}
use das_protokoll.Csync.Chunks.Layout.{pow256, decode-new}
use das_protokoll.Csync.Status.{MissingRange, MissingRanges, write_runlength_encoded, is_empty}
use das_protokoll.Csync.Status.Gaps.{covers, Ordered}
use das_protokoll.Csync.Status.Decode.{Update, status_update_lem}
use das_protokoll.Csync.Status.Pump.{next_chunk-NextOf, covers_within}
use das_protokoll.Csync.Client.{
  Client, ChunkSend, Phase, sending, waiting, finished, status_update, read_exact, do_chunk,
  last_message, on_update, step,
}
use das_protokoll.Csync.Client.Datagrams.{take_above, chunk_send_lem}

some_covered :
    (lo : ℕ) (rs : List MissingRange)
    → is_empty rs ≡ false
    → Ordered lo rs
    → (k : ℕ) × (covers rs k ≡ true)
unfolding covers
some_covered lo [] h o = cc
some_covered lo (r ∷ rs) h o = (r.from, ground (arith, o.1))

fill_nothing : (c : Chunk) → length (payload c) ≡ 0 → fill c [] ≡ c
unfolding fill
fill_nothing c h =
    ap (λ (b : List ℕ). record c { buf = b })
      (append-nil _
        ∙ take_above c.index_field_size c.buf
            (omega (arith, h, length-drop c.index_field_size c.buf)))

module _ (source : List ℕ) (info : ChunkInfo) (small : IsU64 (length source))
    (cuts : Cuts (length source) info) (B : Byteorder) where
  last_message_lem :
      (send_buf : List ℕ)
      → (d : List ℕ) × (chunk : Chunk) × (last_message B info send_buf ≡ some (finished d))
        × (decode B (take mtu d) info.index_field_size ≡ some chunk)
        × (chunk.index ≡ info.num_chunks)
  unfolding last_message
  last_message_lem send_buf =
      let size = info.index_field_size in
      let few =
        few_chunks (length source) info.chunk_size info.num_chunks small
          (omega (arith, cuts.sized, cuts.smallest.at_most)) cuts.covers_file in
      let (chunk, e_new, e_decode, e_payload, e_length, e_whole, e_index, e_size) =
        decode-new B send_buf [] info.num_chunks size cuts.smallest.at_least
          (omega (arith, cuts.smallest.at_most)) few (omega (arith, cuts.numbered, pow256 size)) in
      let same = fill_nothing chunk e_length in
      let short : length (into_vec chunk) ≤ 1460 =
        omega
          (arith, ap (λ (c : Chunk). length (into_vec c)) same, e_whole, cuts.smallest.at_most) in
      (
        into_vec chunk,
        chunk,
        rw e_new refl,
        ap (λ (d : List ℕ). decode B d size) (take_above mtu (into_vec chunk) short)
            ∙ ap (λ (c : Chunk). decode B (into_vec c) size) (sym same)
            ∙ e_decode
            ∙ ap some same,
        e_index,
      )

  -- A chunk that the map has a 0 for is read from the file, to be sent in a datagram that the server
  -- decodes to it.
  abbrev pub SendsMissing : BitMap → Phase → Type 0
  SendsMissing m phase =
      (s : ChunkSend) × (d : List ℕ) × (chunk : Chunk) × (phase ≡ sending s)
      × (read_exact source s ≡ some d)
      × (decode B (take mtu d) info.index_field_size ≡ some chunk)
      × (get_elem? (view m) chunk.index ≡ some false)

  -- The end, told to the server in a message that it takes as the last one; or a chunk that is missing
  -- is on its way.
  abbrev pub Resumes : BitMap → Phase → Type 0
  Resumes m phase =
      (All (λ b. b ≡ true) (view m)
        × (d : List ℕ) × (chunk : Chunk) × (phase ≡ finished d)
        × (decode B (take mtu d) info.index_field_size ≡ some chunk)
        × (chunk.index ≡ info.num_chunks))
      ⊎ ((¬ All (λ b. b ≡ true) (view m)) × SendsMissing m phase)

  pub Resumes-SendsMissing :
      (m : BitMap) (phase : Phase)
      → ¬ All (λ b. b ≡ true) (view m)
      → Resumes m phase
      → SendsMissing m phase
  Resumes-SendsMissing m phase lacks (inl (full, d, chunk, e, ed, ei)) = absurd (lacks full)
  Resumes-SendsMissing m phase lacks (inr (_, sends)) = sends

  do_chunk_lem :
      (m : BitMap) (self : MissingRanges)
      → IsValid m
      → m.num_bits ≡ info.num_chunks
      → Update m self false
      → (self' : MissingRanges) × (phase : Phase) × (do_chunk B info [] self ≡ some (self', phase))
        × Resumes m phase
  unfolding do_chunk
  do_chunk_lem m self v en up =
      elim (next_chunk-NextOf self m.num_bits up.ordered up.bounded v.small) [
        | inl (e, clear) ↦
            let (k, hit) = some_covered 0 self.missing (sym up.answer) up.ordered in
            absurd (cc (clear k (omega (arith, up.at_start)), hit))
        | inr (k, e, le, hit, clear) ↦
            let within : k < info.num_chunks =
              omega (arith, en, covers_within m.num_bits k self.missing up.bounded hit) in
            let (s, d, chunk, es, er, _, ed, ei, _) =
              chunk_send_lem source info small cuts B [] k within in
            (
              record self { cursor = k + 1 },
              sending s,
              ground (arith, e, es),
              inr (
                λ all. cc (up.finished.1 all),
                (s, d, chunk, refl, er, ed, rw ei (up.sound k hit)),
              ),
            )
      ]

  module _ (V : Varmint) (I : Itertools) where
    -- A client that waits and gets the update of the server's map, well formed and written into at
    -- least 20 bytes, goes on: if every chunk has been received it sends the message that the server
    -- takes as the last one, and otherwise a chunk that the map has a 0 for; it never stays waiting.
    pub step-Resumes :
        (m : BitMap) (room : ℕ) (c : Client)
        → IsValid m
        → m.num_bits ≡ info.num_chunks
        → 20 ≤ room
        → c.phase ≡ waiting
        → (bytes : List ℕ) × (c' : Client) × (write_runlength_encoded V m room
            ≡ some (length bytes, bytes))
          × (step B info V I source (status_update bytes) c ≡ some c')
          × (c'.sent ≡ c.sent)
          × Resumes m c'.phase
    unfolding step on_update
    step-Resumes m room c v en h ep =
        let (bytes, self, done, ew, le, eu, up) = status_update_lem V I m room c.missing v h in
        elim (Bool-cases done) [
          | inl over ↦
              let (d, chunk, el, ed, ei) = last_message_lem [] in
              (
                bytes,
                record c { missing = self; phase = finished d },
                ew,
                ground (arith, ep, eu, over, el),
                refl,
                inl (up.finished.0 over, d, chunk, refl, ed, ei),
              )
          | inr more ↦
              let (self', phase, ed, res) =
                do_chunk_lem m self v en (subst (Update m self) more up) in
              (
                bytes,
                record c { missing = self'; phase = phase },
                ew,
                ground (arith, ep, eu, more, ed),
                refl,
                res,
              )
        ]
