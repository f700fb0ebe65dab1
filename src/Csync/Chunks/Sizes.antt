-- ===== src/Csync/Chunks/Sizes.antt =====
-- v1/csync/src/codec.rs: `index_field_size`, and what its chunks are to be like.
use das_protokoll.Base.{
  order_cases, ℕ, zero, suc, ◌+◌, ◌-◌, ◌*◌, ◌/◌, ◌%◌, ◌^◌, ◌≤◌, ◌<◌, ◌≡◌, refl, ap, ◌∙◌, true,
  false, some, leb, arith, Bool-cases, inl, inr, leb→le, le→leb, leb→lt, ◌==◌, ◌⊎◌,
}
use native.Mathlib.Nat.{div-add-mod, mod-lt, mul-le-mul_right}
use das_protokoll.Base.Word.{IsU64, add64, sub64, add64-eq, sub64-eq}
use das_protokoll.Csync.Chunks.{
  ChunkInfo, mtu, nonzero, count_chunks, shl, find_field_size, index_field_size,
}

-- Chunks of `size` bytes, the last one perhaps shorter.
abbrev pub CutsInto : ℕ → ℕ → ℕ → Type 0
CutsInto length size n = (length ≤ n * size) × (n * size < length + size)

nonzero_cases : (r : ℕ) → ((r ≡ 0) × (nonzero r ≡ 0)) ⊎ ((1 ≤ r) × (nonzero r ≡ 1))
nonzero_cases zero = inl (refl, refl)
nonzero_cases (suc r) = inr (omega arith, refl)

quotient_bound : (length size : ℕ) → IsU64 length → 2 ≤ size → length / size + 2 < 2 ^ 64
quotient_bound length size h s = grind (arith, div-add-mod length size)

pos_size : {size : ℕ} → 2 ≤ size → 0 < size
pos_size s = omega arith

pub count_chunks_lem :
    (length size : ℕ)
    → IsU64 length
    → 2 ≤ size
    → CutsInto length size (count_chunks length size)
      × (count_chunks length size ≤ length / size + 1)
unfolding count_chunks
count_chunks_lem length size h s =
    let bound = quotient_bound length size h s in
    elim (nonzero_cases (length % size)) [
      | inl (e, z) ↦
          rw (z, add64-eq (length / size) 0 (omega arith))
            (grind (arith, e, div-add-mod length size))
      | inr (e, z) ↦
          rw (z, add64-eq (length / size) 1 (omega arith))
            (grind (arith, e, div-add-mod length size, mod-lt length (pos_size s)))
    ]

pub few_chunks : (len size n : ℕ) → IsU64 len → 2 ≤ size → CutsInto len size n → n < 2 ^ 64
few_chunks len size n h s c = elim (order_cases n (2 ^ 64)) [
  | inl lt ↦ lt
  | inr ge ↦
      let le : 2 ^ 64 ≤ n = omega arith in absurd (omega (arith, mul-le-mul_right size le, c.1))
]

-- The indices below `256 ^ size` do not suffice.
abbrev pub TooSmall : ℕ → ℕ → Type 0
TooSmall length size = 2 ^ (size * 8) < count_chunks length (1460 - size) + 1

pub record Smallest (length size : ℕ) : Type 0 where
  pub at_least : 1 ≤ size
  pub at_most : size ≤ 7
  pub enough : count_chunks length (1460 - size) + 1 ≤ 2 ^ (size * 8)
  pub minimal : (j : ℕ) → 1 ≤ j → j < size → TooSmall length j

-- The test of the loop, without its machine arithmetic.
test_lem :
    (length size : ℕ)
    → IsU64 length
    → size ≤ 7
    → leb (add64 (count_chunks length (sub64 mtu size)) 1) (shl (size * 8))
      ≡ leb (count_chunks length (1460 - size) + 1) (2 ^ (size * 8))
test_lem length size h s =
    let low : size * 8 % 64 ≡ size * 8 = omega arith in
    let c = count_chunks_lem length (1460 - size) h (omega arith) in
    let b = quotient_bound length (1460 - size) h (omega arith) in
    rw (
      sub64-eq 1460 size (omega arith) (omega arith),
      low,
      add64-eq (count_chunks length (1460 - size)) 1 (omega (arith, c.1)),
    )

last_size : (length : ℕ) → IsU64 length → count_chunks length 1453 + 1 ≤ 2 ^ 56
last_size length h = omega (arith, count_chunks_lem length 1453 h (omega arith))

find_hit :
    (fuel length size : ℕ)
    → IsU64 length
    → size ≤ 7
    → leb (count_chunks length (1460 - size) + 1) (2 ^ (size * 8)) ≡ true
    → find_field_size (suc fuel) length size ≡ some size
unfolding find_field_size
find_hit fuel length size h s e = rw (test_lem length size h s, e)

find_miss :
    (fuel length size : ℕ)
    → IsU64 length
    → size ≤ 7
    → leb (count_chunks length (1460 - size) + 1) (2 ^ (size * 8)) ≡ false
    → find_field_size (suc fuel) length size ≡ find_field_size fuel length (size + 1)
unfolding find_field_size
find_miss fuel length size h s e =
    rw (test_lem length size h s, e)
      (ap (find_field_size fuel length) (add64-eq size 1 (omega arith)))

-- With `k + 1` rounds left at the size `7 - k` the loop ends at the smallest size that is enough.
find_field_size_lem :
    (k length size : ℕ)
    → IsU64 length
    → size + k ≡ 7
    → 1 ≤ size
    → ((j : ℕ) → 1 ≤ j → j < size → TooSmall length j)
    → (r : ℕ) × (find_field_size (suc k) length size ≡ some r) × Smallest length r
find_field_size_lem zero length size h e l small =
    let seven : size ≡ 7 = omega arith in
    let enough : count_chunks length (1460 - size) + 1 ≤ 2 ^ (size * 8) =
      rw seven (last_size length h) in
    (
      size,
      find_hit zero length size h (omega arith) (le→leb _ _ enough),
      record { at_least = l; at_most = omega arith; enough = enough; minimal = small },
    )
find_field_size_lem (suc k) length size h e l small =
    elim (Bool-cases (leb (count_chunks length (1460 - size) + 1) (2 ^ (size * 8)))) [
      | inl hit ↦ (
        size,
        find_hit (suc k) length size h (omega arith) hit,
        record { at_least = l; at_most = omega arith; enough = leb→le _ _ hit; minimal = small },
      )
      | inr miss ↦
          let small' = λ (j : ℕ) (a : 1 ≤ j) (b : j < size + 1).
            extend length size j (small j a) (leb→lt _ _ miss) b in
          let (r, er, least) =
            find_field_size_lem k length (size + 1) h (omega arith) (omega arith) small' in
          (r, find_miss (suc k) length size h (omega arith) miss ∙ er, least)
    ]
  where
    extend :
        (length size j : ℕ)
        → (j < size → TooSmall length j)
        → TooSmall length size
        → j < size + 1
        → TooSmall length j
    extend length size j small here b = elim (Bool-cases (j == size)) [
      | inl eq ↦ let e : j ≡ size = ground arith in rw e here
      | inr ne ↦ small (ground arith)
    ]

-- What `index_field_size` promises of its answer.
pub record Cuts (length : ℕ) (info : ChunkInfo) : Type 0 where
  pub smallest : Smallest length info.index_field_size
  pub sized : info.chunk_size ≡ 1460 - info.index_field_size
  pub covers_file : CutsInto length info.chunk_size info.num_chunks
  -- Every index, that of the last message included, fits in the index field.
  pub numbered : info.num_chunks + 1 ≤ 2 ^ (info.index_field_size * 8)
  pub last : info.last_chunk_size ≡ length % info.chunk_size

-- For every `u64` the loop ends, within seven rounds, with the smallest index field that numbers the
-- chunks and one more message, and the chunks cover the file with none to spare.
pub index_field_size-Cuts :
    (length : ℕ)
    → IsU64 length
    → (info : ChunkInfo) × (index_field_size length ≡ some info) × Cuts length info
unfolding index_field_size
index_field_size-Cuts length h =
    let (size, e, least) =
      find_field_size_lem 6 length 1 h (omega arith) (omega arith)
        (λ j a b. absurd (omega arith)) in
    let cs : sub64 mtu size ≡ 1460 - size =
      sub64-eq 1460 size (omega (arith, least.at_most)) (omega arith) in
    (
      record {
        index_field_size = size;
        chunk_size = 1460 - size;
        num_chunks = count_chunks length (1460 - size);
        last_chunk_size = length % (1460 - size);
      },
      rw (e, cs),
      record {
        smallest = least;
        sized = refl;
        covers_file = (count_chunks_lem length (1460 - size) h (omega (arith, least.at_most))).0;
        numbered = least.enough;
        last = refl;
      },
    )
