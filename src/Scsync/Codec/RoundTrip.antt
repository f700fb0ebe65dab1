-- ===== src/Scsync/Codec/RoundTrip.antt =====
-- v2/scsync/src/codec.rs: between what is encoded and what is decoded.
use das_protokoll.Base.{
  ℕ, suc, ◌+◌, ◌-◌, ◌^◌, ◌≤◌, ◌<◌, ◌≡◌, refl, sym, ap, ◌∙◌, some, List, [], ◌∷◌, ◌++◌, map, le→leb,
  length, arith, All, append-nil, append_assoc, length-append,
}
use das_protokoll.Base.Word.{IsU64, add64, sub64, add64-eq, sub64-eq}
use das_protokoll.Crates.{Varmint, Itertools, Cbor}
use das_protokoll.Csync.Messages.{ok}
use das_protokoll.Csync.Status.{MissingRange, as_range, Writer, write_varint, running_sums}
use das_protokoll.Csync.Status.Encode.{encodings}
use das_protokoll.Csync.Status.Ranges.{run_lengths-encodings}
use das_protokoll.Csync.Client.Datagrams.{take_above}
use das_protokoll.Scsync.Codec.{
  mtu, Msg, transfer_payload, transfer_status, root_update, root_update_response, block_request,
  block_request_response, flat, deltas, write_values, encode_payload, encode_status, encode, decode,
}

-- The numbers do not descend, and are `u64`s.
abbrev pub Ascending : ℕ → List ℕ → Type 0
Ascending lo [] = Unit {0}
Ascending lo (x ∷ xs) = (lo ≤ x) × (x < 2 ^ 64) × Ascending x xs

-- The running sums of the differences are the numbers.
running_sums-deltas : (a : ℕ) (xs : List ℕ) → Ascending a xs → running_sums a (deltas a xs) ≡ xs
unfolding running_sums deltas
running_sums-deltas a [] h = refl
running_sums-deltas a (x ∷ xs) h =
    let d : sub64 x a ≡ x - a = sub64-eq x a h.0 h.1 in
    let s : add64 a (x - a) ≡ x =
      add64-eq a (x - a) (omega (arith, h.0, h.1)) ∙ omega (arith, h.0) in
    rw (d, s) (ap (◌∷◌ x) (running_sums-deltas x xs h.2))

deltas-IsU64 : (a : ℕ) (xs : List ℕ) → Ascending a xs → All IsU64 (deltas a xs)
unfolding deltas
deltas-IsU64 a [] h = tt
deltas-IsU64 a (x ∷ xs) h =
    let d : sub64 x a ≡ x - a = sub64-eq x a h.0 h.1 in
    let s : add64 a (x - a) ≡ x =
      add64-eq a (x - a) (omega (arith, h.0, h.1)) ∙ omega (arith, h.0) in
    rw (d, s) (omega (arith, h.1), deltas-IsU64 x xs h.2)

tuples-flat : (I : Itertools) (rs : List MissingRange) → map as_range (I.tuples (flat rs)) ≡ rs
unfolding flat
tuples-flat I [] = ap (map as_range) I.tuples-nil
tuples-flat I (r ∷ rs) =
    ap (map as_range) (I.tuples_pair r.from r.to (flat rs)) ∙ ap (◌∷◌ r) (tuples-flat I rs)

module _ (V : Varmint) where
  write_values-encodings :
      (xs : List ℕ) (w : Writer)
      → length (encodings V xs) ≤ w.room
      → (w' : Writer) × (write_values V xs w ≡ some w') × (w'.out ≡ w.out ++ encodings V xs)
  unfolding write_values write_varint encodings
  write_values-encodings [] w h = (w, refl, sym (append-nil w.out))
  write_values-encodings (x ∷ xs) w h =
      let bytes = V.write_u64_varint x in
      let total = length-append bytes (encodings V xs) in
      let w1 : Writer = record { out = w.out ++ bytes; room = w.room - length bytes } in
      let (w', e, eo) = write_values-encodings xs w1 (omega (arith, total, h)) in
      (
        w',
        rw (le→leb (length bytes) w.room (omega (arith, total, h))) e,
        eo ∙ append_assoc w.out bytes (encodings V xs),
      )

  module _ {A B C D : Type 0} (I : Itertools) (CA : Cbor A) (CB : Cbor B) (CC : Cbor C)
      (CD : Cbor D) where
    -- What fits in the buffer, and for a payload and a status also in a datagram.
    abbrev pub Fits : ℕ → Msg A B C D → Type 0
    Fits room (transfer_payload p) =
        IsU64 p.chunkid × (1 + V.len_u64_varint p.chunkid + length p.bytes ≤ mtu)
    Fits room (transfer_status rs) =
        Ascending 0 (flat rs)
        × (1 + length (encodings V (deltas 0 (flat rs))) ≤ room)
        × (1 + length (encodings V (deltas 0 (flat rs))) ≤ mtu)
    Fits room (root_update m) = 1 + length (CA.to_writer m) ≤ room
    Fits room (root_update_response m) = 1 + length (CB.to_writer m) ≤ room
    Fits room (block_request m) = 1 + length (CC.to_writer m) ≤ room
    Fits room (block_request_response m) = 1 + length (CD.to_writer m) ≤ room

    status_lem :
        (room : ℕ) (rs : List MissingRange)
        → Fits room (transfer_status rs)
        → encode_status V room rs ≡ ok (1 ∷ encodings V (deltas 0 (flat rs)))
    unfolding encode_status
    status_lem room rs (up, fits, short) =
        let xs = deltas 0 (flat rs) in
        let (w, e, eo) =
          write_values-encodings xs (record { out = 1 ∷ []; room = room - 1 })
            (omega (arith, fits)) in
        ground (arith, e, eo, take_above 1460 (1 ∷ encodings V xs) (omega (arith, short)))

    -- Every message that fits is encoded without an error or a panic, and is decoded from its datagram
    -- again: a payload, that fits in a datagram, with its chunk id and bytes, the ranges of a status whose
    -- bounds do not descend, and the four messages that serde_cbor writes, if they fit in the buffer.
    pub decode-encode_msg :
        (room : ℕ) (msg : Msg A B C D)
        → Fits room msg
        → (bytes : List ℕ) × (encode V I CA CB CC CD room msg ≡ ok bytes)
          × (decode V I CA CB CC CD bytes ≡ ok (some msg))
    unfolding encode encode_payload decode
    decode-encode_msg room (transfer_payload p) (small, fits) = (
      0 ∷ (V.write_u64_varint p.chunkid ++ p.bytes),
      rw (le→leb (1 + V.len_u64_varint p.chunkid + length p.bytes) 1460 fits) refl,
      rw (V.read-write p.chunkid p.bytes small) refl,
    )
    decode-encode_msg room (transfer_status rs) fits =
        let xs = deltas 0 (flat rs) in
        (
          1 ∷ encodings V xs,
          status_lem room rs fits,
          rw
              (
                run_lengths-encodings V xs (suc (length (encodings V xs)))
                    (deltas-IsU64 0 (flat rs) fits.0) (omega arith),
                running_sums-deltas 0 (flat rs) fits.0,
                tuples-flat I rs,
              )
              refl,
        )
    decode-encode_msg room (root_update m) fits = (
      2 ∷ CA.to_writer m,
      rw (le→leb (1 + length (CA.to_writer m)) room fits) refl,
      rw (CA.from_reader-to_writer m) refl,
    )
    decode-encode_msg room (root_update_response m) fits = (
      3 ∷ CB.to_writer m,
      rw (le→leb (1 + length (CB.to_writer m)) room fits) refl,
      rw (CB.from_reader-to_writer m) refl,
    )
    decode-encode_msg room (block_request m) fits = (
      4 ∷ CC.to_writer m,
      rw (le→leb (1 + length (CC.to_writer m)) room fits) refl,
      rw (CC.from_reader-to_writer m) refl,
    )
    decode-encode_msg room (block_request_response m) fits = (
      5 ∷ CD.to_writer m,
      rw (le→leb (1 + length (CD.to_writer m)) room fits) refl,
      rw (CD.from_reader-to_writer m) refl,
    )
