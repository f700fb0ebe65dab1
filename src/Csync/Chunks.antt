-- ===== src/Csync/Chunks.antt =====
-- v1/csync/src/codec.rs, lines 28-34 and 101-175: how a file is cut into chunks, and the datagram of
-- one chunk, an index of `index_field_size` bytes before the file's bytes.
pub mod Sizes
pub mod Layout
mod Tests
use das_protokoll.Base.{
  ℕ, zero, suc, ◌+◌, ◌-◌, ◌*◌, ◌/◌, ◌%◌, ◌^◌, Bool, true, false, Option, none, some, List, [], ◌∷◌,
  ◌++◌, ltb, leb, ◌==◌, if◌then◌else◌, ◌>>=◌, ◌>>◌, assert, length, take, drop, replicate,
}
use das_protokoll.Base.Word.{add64, sub64}
use das_protokoll.Crates.{Byteorder}

abbrev pub mtu : ℕ
mtu = 1460

pub record ChunkInfo : Type 0 where
  pub index_field_size : ℕ
  pub chunk_size : ℕ
  pub num_chunks : ℕ
  pub last_chunk_size : ℕ

abbrev pub nonzero : ℕ → ℕ
nonzero zero = 0
nonzero (suc n) = 1

-- `length / chunk_size + (length % chunk_size != 0) as u64`
unfoldable pub count_chunks : ℕ → ℕ → ℕ
count_chunks length chunk_size = add64 (length / chunk_size) (nonzero (length % chunk_size))

-- `1 << n` on a `u64` reads the low six bits of the distance.
abbrev pub shl : ℕ → ℕ
shl n = 2 ^ (n % 64)

-- The `loop`, from a field size on: the smallest one whose indices are enough for every chunk and one
-- extension message.
unfoldable pub find_field_size : ℕ → ℕ → ℕ → Option ℕ
find_field_size zero length size = none
find_field_size (suc fuel) length size =
    let rest = find_field_size fuel length (add64 size 1) in
    if leb (add64 (count_chunks length (sub64 mtu size)) 1) (shl (size * 8))
    then some size
    else rest

-- Seven rounds are enough for every `u64`.
unfoldable pub index_field_size : ℕ → Option ChunkInfo
index_field_size length = do
  size ← find_field_size 7 length 1
  let chunk_size = sub64 mtu size
  some (record {
    index_field_size = size;
    chunk_size = chunk_size;
    num_chunks = count_chunks length chunk_size;
    last_chunk_size = length % chunk_size;
  })

pub record Chunk : Type 0 where
  pub index_field_size : ℕ
  pub index : ℕ
  pub buf : List ℕ

-- `Vec::resize`: cut, or filled up.
abbrev pub resize : List ℕ → ℕ → ℕ → List ℕ
resize xs n fill = take n xs ++ replicate (n - length xs) fill

module _ (B : Byteorder) where
  open B use {write_u64, read_u64}

  unfoldable pub new : List ℕ → ℕ → ℕ → ℕ → Option Chunk
  new buf index index_field_size data_size = do
    assert (ltb 0 index_field_size)
    assert (leb index_field_size 8)
    some (record {
      index_field_size = index_field_size;
      index = index;
      buf = resize ([] ++ write_u64 index) (index_field_size + data_size) 0;
    })

  -- `none` is the panic of a datagram that is shorter than the index, or of an index of more than 8
  -- bytes.
  unfoldable pub decode : List ℕ → ℕ → Option Chunk
  decode src index_field_size = do
    assert (leb index_field_size 8)
    assert (leb index_field_size (length src))
    let buf = take index_field_size src ++ replicate (8 - index_field_size) 0
    some (record { index_field_size = index_field_size; index = read_u64 buf; buf = src })

abbrev pub into_vec : Chunk → List ℕ
into_vec c = c.buf

-- `as_ref` and `as_mut`: the bytes behind the index.
abbrev pub payload : Chunk → List ℕ
payload c = drop c.index_field_size c.buf

-- A write through `as_mut` of as many bytes as there are.
unfoldable pub fill : Chunk → List ℕ → Chunk
fill c bytes = record c { buf = take c.index_field_size c.buf ++ bytes }
