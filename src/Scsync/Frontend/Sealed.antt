-- ===== src/Scsync/Frontend/Sealed.antt =====
-- v2/scsync/src/frontend/mod.rs: `from_full` of what `to_block` made, on two machines.
use das_protokoll.Base.{ℕ, ◌≡◌, Bool, true, false, some, Option-cases, inl, inr}
use mathlib.Core.Option.{some-injective}
use das_protokoll.Crates.{Cbor}
use das_protokoll.Scsync.BlockDb.{Full}
use das_protokoll.Scsync.Frontend.{
  directory, Dir, Decoded, decoded_dir, Sealing, from_full, to_block, dir_from_full, decode_as,
}

abbrev pub on_machine : Sealing → Bool → Sealing
on_machine S aesni = record S { supports_aesni = aesni }

-- A value that is made a block on one machine is read from it with the key on another, whichever of the
-- two has the AES instructions.
pub from_full-to_block :
    (S : Sealing) (here there : Bool) {T : Type 0} (C : Cbor T) (t : T) (key iv : ℕ)
    → let (key', block) = to_block (on_machine S there) C t key iv in
      from_full (on_machine S here) C block key' ≡ some t
unfolding from_full to_block
from_full-to_block S true true C t key iv =
    rw (S.aesni-aesni key iv (C.to_writer t)) (C.from_reader-to_writer t)
from_full-to_block S true false C t key iv =
    rw (S.aesni-aessafe key iv (C.to_writer t)) (C.from_reader-to_writer t)
from_full-to_block S false true C t key iv =
    rw (S.aessafe-aesni key iv (C.to_writer t)) (C.from_reader-to_writer t)
from_full-to_block S false false C t key iv =
    rw (S.aessafe-aessafe key iv (C.to_writer t)) (C.from_reader-to_writer t)

module _ (S : Sealing) where
  pub from_full-to_block_own :
      {T : Type 0} (C : Cbor T) (t : T) (key iv : ℕ)
      → from_full S C ((to_block S C t key iv).1) ((to_block S C t key iv).0) ≡ some t
  from_full-to_block_own C t key iv =
      from_full-to_block S S.supports_aesni S.supports_aesni C t key iv

  pub decode_as-directory :
      (f : Full) (key : ℕ) (dec : Decoded)
      → decode_as S directory f key ≡ some dec
      → (d : Dir) × (dir_from_full S f key ≡ some d) × (decoded_dir d ≡ dec)
  unfolding decode_as
  decode_as-directory f key dec h = elim (Option-cases (dir_from_full S f key)) [
    | inl bad ↦ cc (rw bad at h)
    | inr (d, e) ↦ (d, e, some-injective _ _ (rw e at h))
  ]
