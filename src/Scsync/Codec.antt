-- ===== src/Scsync/Codec.antt =====
-- v2/scsync/src/codec.rs: the messages as datagrams. `room` is the space that the buffer has once it has
-- reserved `mtu` bytes, so at least that many; it does not grow under a writer. The four messages that derive their encoding are
-- type parameters.
pub mod RoundTrip
mod Tests
use das_protokoll.Base.{
  ℕ, zero, suc, ◌+◌, ◌-◌, Bool, true, false, Option, none, some, List, [], ◌∷◌, ◌++◌, map, leb,
  if◌then◌else◌, ◌>>=◌, length, take,
}
use das_protokoll.Base.Word.{add64, sub64}
use das_protokoll.Crates.{Varmint, Itertools, Cbor, Read, got, unexpected_eof, read_error}
use das_protokoll.Csync.Messages.{Outcome, ok, io_error, panic}
use das_protokoll.Csync.Status.{
  MissingRange, as_range, Writer, write_varint, run_lengths, running_sums,
}
use das_protokoll.Scsync.Transfer.{TransferPayload}

abbrev pub mtu : ℕ
mtu = 1460

pub data Msg (A B C D : Type 0) : Type 0 where
  transfer_payload : TransferPayload → Msg A B C D
  transfer_status : List MissingRange → Msg A B C D
  root_update : A → Msg A B C D
  root_update_response : B → Msg A B C D
  block_request : C → Msg A B C D
  block_request_response : D → Msg A B C D

-- `flat_map(|(from, to)| once(from).chain(once(to)))`
unfoldable pub flat : List MissingRange → List ℕ
flat [] = []
flat (r ∷ rs) = r.from ∷ r.to ∷ flat rs

-- `scan(0, |a, mut x| { x -= *a; *a += x; Some(x) })`
unfoldable pub deltas : ℕ → List ℕ → List ℕ
deltas a [] = []
deltas a (x ∷ xs) = sub64 x a ∷ deltas (add64 a (sub64 x a)) xs

module _ (V : Varmint) where
  open V use {write_u64_varint, read_u64_varint, len_u64_varint}

  unfoldable pub write_values : List ℕ → Writer → Option Writer
  write_values [] w = some w
  write_values (x ∷ xs) w = do w' ← write_varint V w x; write_values xs w'

  unfoldable pub encode_payload : TransferPayload → Outcome (List ℕ)
  encode_payload payload =
      if leb (1 + len_u64_varint payload.chunkid + length payload.bytes) mtu
      then ok (0 ∷ (write_u64_varint payload.chunkid ++ payload.bytes))
      else panic

  unfoldable pub encode_status : ℕ → List MissingRange → Outcome (List ℕ)
  encode_status room missing_ranges =
      elim (write_values (deltas 0 (flat missing_ranges))
        (record { out = 1 ∷ []; room = room - 1 })) [
          | some w ↦ ok (take mtu w.out)
          | none ↦ io_error
        ]

  module _ {A B C D : Type 0} (I : Itertools) (CA : Cbor A) (CB : Cbor B) (CC : Cbor C)
      (CD : Cbor D) where
    open I use {tuples}

    -- `serde_cbor::to_writer(&mut dst.writer(), &m).unwrap()`, behind the first byte: the buffer does not
    -- grow under the writer, and what does not fit is an error.
    abbrev pub with_cbor : ℕ → ℕ → List ℕ → Outcome (List ℕ)
    with_cbor room discriminator bytes =
        if leb (1 + length bytes) room then ok (discriminator ∷ bytes) else panic

    unfoldable pub encode : ℕ → Msg A B C D → Outcome (List ℕ)
    encode room (transfer_payload payload) = encode_payload payload
    encode room (transfer_status missing_ranges) = encode_status room missing_ranges
    encode room (root_update m) = with_cbor room 2 (CA.to_writer m)
    encode room (root_update_response m) = with_cbor room 3 (CB.to_writer m)
    encode room (block_request m) = with_cbor room 4 (CC.to_writer m)
    encode room (block_request_response m) = with_cbor room 5 (CD.to_writer m)

    abbrev as_payload : Read → Outcome (Option (Msg A B C D))
    as_payload (got chunkid rest) =
        ok (some (transfer_payload (record { chunkid = chunkid; bytes = rest })))
    as_payload unexpected_eof = io_error
    as_payload read_error = io_error

    abbrev as_status : Option (List ℕ) → Outcome (Option (Msg A B C D))
    as_status none = panic
    as_status (some xs) = ok (some (transfer_status (map as_range (tuples (running_sums 0 xs)))))

    -- `from_reader(buf).unwrap()`
    abbrev derived : {X : Type 0} → (X → Msg A B C D) → Option X → Outcome (Option (Msg A B C D))
    derived f none = panic
    derived f (some x) = ok (some (f x))

    unfoldable pub decode : List ℕ → Outcome (Option (Msg A B C D))
    decode [] = ok none
    decode (zero ∷ src) = as_payload (read_u64_varint src)
    decode (suc zero ∷ src) = as_status (run_lengths V (suc (length src)) src)
    decode (suc (suc zero) ∷ src) = derived root_update (CA.from_reader src)
    decode (suc (suc (suc zero)) ∷ src) = derived root_update_response (CB.from_reader src)
    decode (suc (suc (suc (suc zero))) ∷ src) = derived block_request (CC.from_reader src)
    decode (suc (suc (suc (suc (suc zero)))) ∷ src) =
        derived block_request_response (CD.from_reader src)
    decode (suc (suc (suc (suc (suc (suc n))))) ∷ src) = panic
