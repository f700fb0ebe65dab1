-- ===== src/Scsync/Frontend/Instances.antt =====
-- Concrete versions of the frontend's crates, which show that their laws can hold and let the code run: a
-- cipher that only puts the vector in front, a sum as the hash, and values as lists of numbers.
use das_protokoll.Base.{
  ℕ, zero, suc, ◌+◌, ◌*◌, ◌≤◌, ◌≡◌, refl, ap, true, Option, none, some, List, [], ◌∷◌, ◌>>=◌,
  length, arith,
}
use das_protokoll.Crates.{Cbor}
use das_protokoll.Scsync.BlockDb.{BlockRef, block_ref, Hints, no_hint, hint}
use das_protokoll.Scsync.Frontend.{BlockType, directory, file_meta, leaf, Child, Dir, Meta, Sealing}

unfoldable mutual
  pub write_ref : BlockRef → List ℕ → List ℕ
  write_ref (block_ref id key hints) rest = id ∷ key ∷ write_hints hints rest

  pub write_hints : Hints → List ℕ → List ℕ
  write_hints no_hint rest = 0 ∷ rest
  write_hints (hint ref offset len more) rest =
      1 ∷ offset ∷ len ∷ write_ref ref (write_hints more rest)

unfoldable mutual
  pub read_ref : ℕ → List ℕ → Option (BlockRef × List ℕ)
  read_ref zero ns = none
  read_ref (suc fuel) [] = none
  read_ref (suc fuel) (id ∷ []) = none
  read_ref (suc fuel) (id ∷ key ∷ ns) = do
    (hints, rest) ← read_hints fuel ns
    some (block_ref id key hints, rest)

  pub read_hints : ℕ → List ℕ → Option (Hints × List ℕ)
  read_hints zero ns = none
  read_hints (suc fuel) [] = none
  read_hints (suc fuel) (zero ∷ ns) = some (no_hint, ns)
  read_hints (suc fuel) (suc n ∷ []) = none
  read_hints (suc fuel) (suc n ∷ offset ∷ []) = none
  read_hints (suc fuel) (suc n ∷ offset ∷ len ∷ ns) = do
    (ref, ns') ← read_ref fuel ns
    (more, rest) ← read_hints fuel ns'
    some (hint ref offset len more, rest)

mutual
  unfolding write_ref

  length-write_ref :
      (ref : BlockRef) (rest : List ℕ) → suc (length rest) ≤ length (write_ref ref rest)
  length-write_ref (block_ref id key hints) rest = omega (arith, length-write_hints hints rest)

  length-write_hints :
      (hints : Hints) (rest : List ℕ) → suc (length rest) ≤ length (write_hints hints rest)
  length-write_hints no_hint rest = omega arith
  length-write_hints (hint ref offset len more) rest =
      omega (arith, length-write_ref ref (write_hints more rest), length-write_hints more rest)

mutual
  unfolding write_ref read_ref

  read-write_ref :
      (fuel : ℕ) (ref : BlockRef) (rest : List ℕ)
      → length (write_ref ref rest) ≤ fuel
      → read_ref fuel (write_ref ref rest) ≡ some (ref, rest)
  read-write_ref zero (block_ref id key hints) rest h = absurd (omega (arith, h))
  read-write_ref (suc fuel) (block_ref id key hints) rest h =
      rw (read-write_hints fuel hints rest (omega (arith, h))) refl

  read-write_hints :
      (fuel : ℕ) (hints : Hints) (rest : List ℕ)
      → length (write_hints hints rest) ≤ fuel
      → read_hints fuel (write_hints hints rest) ≡ some (hints, rest)
  read-write_hints zero no_hint rest h = absurd (omega (arith, h))
  read-write_hints zero (hint ref offset len more) rest h = absurd (omega (arith, h))
  read-write_hints (suc fuel) no_hint rest h = refl
  read-write_hints (suc fuel) (hint ref offset len more) rest h =
      let shorter = length-write_ref ref (write_hints more rest) in
      rw
        (
          read-write_ref fuel ref (write_hints more rest) (omega (arith, h)),
          read-write_hints fuel more rest (omega (arith, h, shorter)),
        )
        refl

abbrev pub kind_number : BlockType → ℕ
kind_number directory = 1
kind_number file_meta = 2
kind_number leaf = 3

abbrev pub kind_of : ℕ → BlockType
kind_of zero = leaf
kind_of (suc zero) = directory
kind_of (suc (suc zero)) = file_meta
kind_of (suc (suc (suc n))) = leaf

kind_of-number : (k : BlockType) → kind_of (kind_number k) ≡ k
kind_of-number directory = refl
kind_of-number file_meta = refl
kind_of-number leaf = refl

unfoldable pub write_children : List Child → List ℕ
write_children [] = 0 ∷ []
write_children (c ∷ cs) = 1 ∷ c.name ∷ kind_number c.kind ∷ write_ref c.blockref (write_children cs)

unfoldable pub read_children : ℕ → List ℕ → Option (List Child)
read_children zero ns = none
read_children (suc fuel) [] = none
read_children (suc fuel) (zero ∷ ns) = some []
read_children (suc fuel) (suc n ∷ []) = none
read_children (suc fuel) (suc n ∷ name ∷ []) = none
read_children (suc fuel) (suc n ∷ name ∷ kind ∷ ns) = do
  (ref, rest) ← read_ref fuel ns
  cs ← read_children fuel rest
  some (record { name = name; kind = kind_of kind; blockref = ref } ∷ cs)

pub read-write_children :
    (fuel : ℕ) (cs : List Child)
    → length (write_children cs) ≤ fuel
    → read_children fuel (write_children cs) ≡ some cs
unfolding write_children read_children
read-write_children zero [] h = absurd (omega (arith, h))
read-write_children zero (c ∷ cs) h = absurd (omega (arith, h))
read-write_children (suc fuel) [] h = refl
read-write_children (suc fuel) (c ∷ cs) h =
    let shorter = length-write_ref c.blockref (write_children cs) in
    rw
      (
        read-write_ref fuel c.blockref (write_children cs) (omega (arith, h)),
        read-write_children fuel cs (omega (arith, h, shorter)),
        kind_of-number c.kind,
      )
      refl

unfoldable pub write_refs : List BlockRef → List ℕ
write_refs [] = 0 ∷ []
write_refs (ref ∷ refs) = 1 ∷ write_ref ref (write_refs refs)

unfoldable pub read_refs : ℕ → List ℕ → Option (List BlockRef)
read_refs zero ns = none
read_refs (suc fuel) [] = none
read_refs (suc fuel) (zero ∷ ns) = some []
read_refs (suc fuel) (suc n ∷ ns) = do
  (ref, rest) ← read_ref fuel ns
  refs ← read_refs fuel rest
  some (ref ∷ refs)

pub read-write_refs :
    (fuel : ℕ) (refs : List BlockRef)
    → length (write_refs refs) ≤ fuel
    → read_refs fuel (write_refs refs) ≡ some refs
unfolding write_refs read_refs
read-write_refs zero [] h = absurd (omega (arith, h))
read-write_refs zero (ref ∷ refs) h = absurd (omega (arith, h))
read-write_refs (suc fuel) [] h = refl
read-write_refs (suc fuel) (ref ∷ refs) h =
    let shorter = length-write_ref ref (write_refs refs) in
    rw
      (
        read-write_ref fuel ref (write_refs refs) (omega (arith, h)),
        read-write_refs fuel refs (omega (arith, h, shorter)),
      )
      refl

abbrev pub dir_cbor : Cbor Dir
dir_cbor = record {
  to_writer = λ d. write_children d.children;
  from_reader = λ ns. do
    cs ← read_children (length ns) ns
    some (record { children = cs });
  from_reader-to_writer = λ d.
      ap (λ o. o >>= λ cs. some (record { children = cs }))
        (read-write_children (length (write_children d.children)) d.children (omega arith));
}

abbrev pub meta_cbor : Cbor Meta
meta_cbor = record {
  to_writer = λ m. write_refs m.blocks;
  from_reader = λ ns. do
    refs ← read_refs (length ns) ns
    some (record { blocks = refs });
  from_reader-to_writer = λ m.
      ap (λ o. o >>= λ refs. some (record { blocks = refs }))
        (read-write_refs (length (write_refs m.blocks)) m.blocks (omega arith));
}

abbrev pub leaf_cbor : Cbor (List ℕ)
leaf_cbor = record {
  to_writer = λ bytes. bytes;
  from_reader = λ bytes. some bytes;
  from_reader-to_writer = λ bytes. refl;
}

abbrev pub without_vector : List ℕ → Option (List ℕ)
without_vector [] = none
without_vector (iv ∷ bytes) = some bytes

abbrev pub hash : List ℕ → ℕ
hash [] = 7
hash (b ∷ bs) = b + 300 * hash bs

abbrev pub sealing : Sealing
sealing = record {
  supports_aesni = true;
  aesni_writer = λ key iv bytes. iv ∷ bytes;
  aessafe_writer = λ key iv bytes. iv ∷ bytes;
  aesni_reader = λ key. without_vector;
  aessafe_reader = λ key. without_vector;
  aesni-aesni = λ key iv bytes. refl;
  aesni-aessafe = λ key iv bytes. refl;
  aessafe-aesni = λ key iv bytes. refl;
  aessafe-aessafe = λ key iv bytes. refl;
  keccak256 = hash;
  dir_cbor = dir_cbor;
  meta_cbor = meta_cbor;
  leaf_cbor = leaf_cbor;
}
