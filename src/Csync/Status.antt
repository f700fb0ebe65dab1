-- ===== src/Csync/Status.antt =====
-- v1/csync/src/codec.rs, lines 177-257: the status update, which is the run-length encoded bit map,
-- and the ranges of missing chunks that the client reads from it.
pub mod Encode
pub mod Gaps
pub mod Ranges
pub mod Decode
pub mod Pump
mod Tests
use das_protokoll.Base.{
  ℕ, zero, suc, ◌+◌, ◌-◌, Bool, true, false, Option, none, some, List, [], ◌∷◌, ◌++◌, map, ltb, leb,
  bool_eq, if◌then◌else◌, ◌>>=◌, length, max,
}
use das_protokoll.Base.Word.{add64}
use das_protokoll.BitMap.{BitMap, iter_bits}
use das_protokoll.Crates.{Varmint, Itertools, Read, got, unexpected_eof, read_error}

-- A slice that is written from the front: what has been written whole, and the room that is left.
pub record Writer : Type 0 where
  pub out : List ℕ
  pub room : ℕ

pub record MissingRange : Type 0 where
  pub from : ℕ
  pub to : ℕ

pub record MissingRanges : Type 0 where
  pub missing : List MissingRange
  pub cursor : ℕ

module _ (V : Varmint) where
  open V use {write_u64_varint, read_u64_varint, len_u64_varint}

  -- `none` is the error `WriteZero`: the slice is full. What such a write leaves behind `out` is cut
  -- off by the caller.
  unfoldable pub write_varint : Writer → ℕ → Option Writer
  write_varint w v =
      let bytes = write_u64_varint v in
      if leb (length bytes) w.room
      then some (record { out = w.out ++ bytes; room = w.room - length bytes })
      else none

  -- The last write, and each write on a change of value; `written` is what is returned.
  unfoldable pub write_runs : List Bool → ℕ → Bool → ℕ → Writer → ℕ × Writer
  write_runs [] count prev_val written w = elim (write_varint w count) [
    | some w' ↦ (written + len_u64_varint count, w')
    | none ↦ (written, w)
  ]
  write_runs (bit ∷ bits) count prev_val written w = elim (bool_eq bit prev_val) [
    | true ↦ write_runs bits (count + 1) prev_val written w
    | false ↦ elim (write_varint w count) [
      | some w' ↦ write_runs bits 1 bit (written + len_u64_varint count) w'
      | none ↦ (written, w)
    ]
  ]

  -- The number of bytes written, and the bytes.
  unfoldable pub write_runlength_encoded : BitMap → ℕ → Option (ℕ × List ℕ)
  write_runlength_encoded bitmap room = do
    bits ← iter_bits bitmap
    let r = write_runs bits 0 true 0 (record { out = []; room = room })
    some (r.0, r.1.out)

  -- `RunlengthIter`, collected: it ends at `UnexpectedEof`, and `none` is its panic on another error.
  -- The fuel is the length of the input and one; it is `none` too where it runs out.
  unfoldable pub run_lengths : ℕ → List ℕ → Option (List ℕ)
  run_lengths zero src = none
  run_lengths (suc fuel) src = elim (read_u64_varint src) [
    | got x rest ↦ (do xs ← run_lengths fuel rest; some (x ∷ xs))
    | unexpected_eof ↦ some []
    | read_error ↦ none
  ]

-- `scan(0, |a, x| { *a += x; Some(*a) })`
unfoldable pub running_sums : ℕ → List ℕ → List ℕ
running_sums a [] = []
running_sums a (x ∷ xs) = add64 a x ∷ running_sums (add64 a x) xs

abbrev pub as_range : ℕ × ℕ → MissingRange
as_range (a, b) = record { from = a; to = b }

unfoldable pub default : MissingRanges
default = record { missing = []; cursor = 0 }

abbrev pub is_empty {ℓ} : {A : Type ℓ} → List A → Bool
is_empty [] = true
is_empty (x ∷ xs) = false

module _ (V : Varmint) (I : Itertools) where
  open I use {tuples}

  unfoldable pub parse_status_update : MissingRanges → List ℕ → Option (MissingRanges × Bool)
  parse_status_update self update = do
    xs ← run_lengths V (suc (length update)) update
    let missing = map as_range (tuples (running_sums 0 xs))
    some (record { missing = missing; cursor = 0 }, is_empty missing)

-- `iter().find(|MissingRange(from, to)| to > cursor)`
unfoldable pub find_range : ℕ → List MissingRange → Option MissingRange
find_range cursor [] = none
find_range cursor (r ∷ rs) = if ltb cursor r.to then some r else find_range cursor rs

unfoldable pub advance_cursor : MissingRanges → ℕ → Option ℕ
unfolding find_range
advance_cursor self cursor = do
  let cursor' = add64 cursor 1
  r ← find_range cursor' self.missing
  some (max cursor' r.from)

unfoldable pub next_chunk : MissingRanges → MissingRanges × Option ℕ
unfolding find_range
next_chunk self = elim (find_range self.cursor self.missing) [
  | none ↦ (self, none)
  | some r ↦ let ret = max self.cursor r.from in (record self { cursor = add64 ret 1 }, some ret)
]
