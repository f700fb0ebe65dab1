-- ===== src/Csync/Chunks/Layout.antt =====
-- v1/csync/src/codec.rs: the layout of a datagram, between `Chunk::new` and `Chunk::decode`.
use das_protokoll.Base.{
  ℕ, zero, suc, ◌+◌, ◌-◌, ◌*◌, ◌^◌, ◌≤◌, ◌<◌, ◌≡◌, refl, ap, ◌∙◌, none, some, List, [], ◌∷◌, ◌++◌,
  arith, length, take, drop, replicate, All, All-append, All-replicate, take-append_eq,
  drop-append_eq, All-take, take-append_le, take-take, length-append, length-take, length-drop,
  length-replicate,
}
use native.Mathlib.Nat.{pow-suc}
use native.Mathlib.Numerals.{towards_suc}
use das_protokoll.Base.Word.{IsByte, IsU64}
use das_protokoll.Crates.{Byteorder, le_value}
use das_protokoll.Csync.Chunks.{Chunk, resize, new, decode, into_vec, payload, fill}

pub pow256 : (k : ℕ) → 2 ^ (k * 8) ≡ 256 ^ k
pow256 zero = refl
pow256 (suc k) =
    let e : suc k * 8 ≡ k * 8 + 8 = omega arith in
    rw e (omega (arith, pow256 k, pow-suc 256 k, eight (k * 8)))
  where
    eight : (s : ℕ) → 2 ^ (s + 8) ≡ 256 * 2 ^ s
    eight s = simp towards_suc (omega arith)

le_value-append_zeros : (bs : List ℕ) (n : ℕ) → le_value (bs ++ replicate n 0) ≡ le_value bs
le_value-append_zeros [] zero = refl
le_value-append_zeros [] (suc n) = omega (arith, le_value-append_zeros [] n)
le_value-append_zeros (b ∷ bs) n = omega (arith, le_value-append_zeros bs n)

le_value_split :
    (k : ℕ) (w : List ℕ)
    → k ≤ length w
    → le_value w ≡ le_value (take k w) + 256 ^ k * le_value (drop k w)
le_value_split zero w h = omega arith
le_value_split (suc k) [] h = elim h [ ]
le_value_split (suc k) (b ∷ bs) h = omega (
  arith,
  le_value_split k bs (omega arith),
  ap (λ (p : ℕ). p * le_value (drop k bs)) (pow-suc 256 k),
)

below_one : (p v t d : ℕ) → v ≡ t + p * d → v < p → t ≡ v
below_one p v t zero e h = omega arith
below_one p v t (suc d) e h = omega arith

-- A number below `256 ^ k` is in its first `k` bytes.
le_value-take :
    (k : ℕ) (w : List ℕ) → k ≤ length w → le_value w < 256 ^ k → le_value (take k w) ≡ le_value w
le_value-take k w h lt =
    below_one (256 ^ k) (le_value w) _ (le_value (drop k w)) (le_value_split k w h) lt

module _ (B : Byteorder) where
  open B use {
    write_u64, read_u64, length-write_u64, write_u64-IsByte, write_u64-value, read_u64-value,
  }

  new_lem :
      (buf : List ℕ) (index size n : ℕ)
      → 1 ≤ size
      → size ≤ 8
      → new B buf index size n
        ≡ some (record {
          index_field_size = size;
          index = index;
          buf = resize (write_u64 index) (size + n) 0;
        })
  unfolding new
  new_lem buf index size n l u = ground (arith)

  decode_lem :
      (front bytes : List ℕ) (size index : ℕ)
      → le_value front ≡ index
      → length front ≡ size
      → size ≤ 8
      → All IsByte front
      → decode B (front ++ bytes) size
        ≡ some (record { index_field_size = size; index = index; buf = front ++ bytes })
  unfolding decode
  decode_lem front bytes size index ei e u h =
      let zeros : List ℕ = replicate (8 - size) 0 in
      let filled : length (front ++ zeros) ≡ 8 =
        omega (arith, length-append front zeros, length-replicate {A = ℕ} (8 - size) 0) in
      let value : read_u64 (front ++ zeros) ≡ index =
        read_u64-value _ filled
          (All-append IsByte front zeros h (All-replicate IsByte (8 - size) 0 (omega arith)))
        ∙ le_value-append_zeros front (8 - size)
        ∙ ei in
      ground (arith, value, length-append front bytes, take-append_eq size front bytes e)

  -- The datagram that the client builds for a chunk, with an index field of 1 to 8 bytes that the
  -- index fits in, holds the index and the file's bytes, and the server reads back both.
  pub decode-new :
      (buf bytes : List ℕ) (index size : ℕ)
      → 1 ≤ size
      → size ≤ 8
      → IsU64 index
      → index < 256 ^ size
      → (c : Chunk) × (new B buf index size (length bytes) ≡ some c)
        × (decode B (into_vec (fill c bytes)) size ≡ some (fill c bytes))
        × (payload (fill c bytes) ≡ bytes)
        × (length (payload c) ≡ length bytes)
        × (length (into_vec (fill c bytes)) ≡ size + length bytes)
        × (c.index ≡ index)
        × (c.index_field_size ≡ size)
  unfolding fill
  decode-new buf bytes index size l u hi fits =
      let w = write_u64 index in
      let len = length-write_u64 index in
      let front = take size w in
      let lf : length front ≡ size = omega (arith, len, length-take size w) in
      let front_eq : take size (resize w (size + length bytes) 0) ≡ front =
        take-append_le size (take (size + length bytes) w) _
          (omega (arith, len, length-take (size + length bytes) w))
        ∙ take-take size (size + length bytes) w (omega arith) in
      let rest : List ℕ = replicate (size + length bytes - length w) 0 in
      let index_eq : le_value front ≡ index =
        le_value-take size w (omega (arith, len)) (rw (write_u64-value index hi) fits)
        ∙ write_u64-value index hi in
      (
        record { index_field_size = size; index = index; buf = resize w (size + length bytes) 0 },
        new_lem buf index size (length bytes) l u,
        rw front_eq (
            decode_lem front bytes size index index_eq lf u
              (All-take IsByte size w (write_u64-IsByte index))),
        rw front_eq (drop-append_eq size front bytes lf),
        omega (
          arith,
          len,
          length-drop size (resize w (size + length bytes) 0),
          length-append (take (size + length bytes) w) rest,
          length-take (size + length bytes) w,
          length-replicate {A = ℕ} (size + length bytes - length w) 0,
        ),
        rw front_eq (omega (arith, length-append front bytes, lf)),
        refl,
        refl,
      )

  -- `decode` panics on a datagram that is shorter than the index field.
  pub decode_short : (src : List ℕ) (size : ℕ) → length src < size → decode B src size ≡ none
  unfolding decode
  decode_short src size h = ground arith
