-- ===== src/Scsync/Frontend.antt =====
-- v2/scsync/src/frontend/mod.rs: what the blocks hold. A block is the encryption of a value that
-- serde_cbor encodes; its id is the hash of the encrypted bytes. A file name is a number, and stands for
-- one normal component of a path; the metadata of a child, which is always empty, is left out. `none` is a
-- panic, and the error that every caller unwraps.
pub mod Visitor
pub mod Folder
pub mod Disk
pub mod Instances
pub mod Sealed
use das_protokoll.Base.{ℕ, ◌≡◌, Bool, Option, some, List, if◌then◌else◌, ◌>>=◌}
use das_protokoll.Crates.{Cbor}
use das_protokoll.Scsync.BlockDb.{BlockRef, Full}

pub data BlockType : Type 0 where
  directory file_meta leaf : BlockType

pub record Child : Type 0 where
  pub name : ℕ
  pub kind : BlockType
  pub blockref : BlockRef

pub record Dir : Type 0 where
  pub children : List Child

pub record Meta : Type 0 where
  pub blocks : List BlockRef

pub record Leaf : Type 0 where
  pub bytes : List ℕ

pub data Decoded : Type 0 where
  decoded_dir : Dir → Decoded
  decoded_meta : Meta → Decoded
  decoded_leaf : Leaf → Decoded

-- The third-party crates. aesstream writes bytes encrypted with AES under a key, behind an
-- initialisation vector that it draws; both implementations of AES read what either wrote.
-- tiny_keccak hashes bytes, and serde_cbor encodes the values.
pub record Sealing : Type 0 where
  pub supports_aesni : Bool
  pub aesni_writer : ℕ → ℕ → List ℕ → List ℕ
  pub aessafe_writer : ℕ → ℕ → List ℕ → List ℕ
  pub aesni_reader : ℕ → List ℕ → Option (List ℕ)
  pub aessafe_reader : ℕ → List ℕ → Option (List ℕ)
  pub aesni-aesni :
      (key iv : ℕ) (bytes : List ℕ) → aesni_reader key (aesni_writer key iv bytes) ≡ some bytes
  pub aesni-aessafe :
      (key iv : ℕ) (bytes : List ℕ) → aesni_reader key (aessafe_writer key iv bytes) ≡ some bytes
  pub aessafe-aesni :
      (key iv : ℕ) (bytes : List ℕ) → aessafe_reader key (aesni_writer key iv bytes) ≡ some bytes
  pub aessafe-aessafe :
      (key iv : ℕ) (bytes : List ℕ) → aessafe_reader key (aessafe_writer key iv bytes) ≡ some bytes
  pub keccak256 : List ℕ → ℕ
  pub dir_cbor : Cbor Dir
  pub meta_cbor : Cbor Meta
  pub leaf_cbor : Cbor (List ℕ)

module _ (S : Sealing) where
  open S use {supports_aesni, keccak256, dir_cbor, meta_cbor, leaf_cbor}

  unfoldable pub from_full : {T : Type 0} → Cbor T → Full → ℕ → Option T
  from_full C full key =
      if supports_aesni
      then (do bytes ← S.aesni_reader key full.bytes; C.from_reader bytes)
      else (do bytes ← S.aessafe_reader key full.bytes; C.from_reader bytes)

  -- The key is what `OsRng` draws, the vector what the writer draws.
  unfoldable pub to_block : {T : Type 0} → Cbor T → T → (key iv : ℕ) → ℕ × Full
  to_block C t key iv =
      let bytes =
        if supports_aesni
        then S.aesni_writer key iv (C.to_writer t)
        else S.aessafe_writer key iv (C.to_writer t) in
      (key, record { id = keccak256 bytes; bytes = bytes })

  -- `Leaf::from_full`, `Meta::from_full` and `Dir::from_full`.
  abbrev pub leaf_from_full : Full → ℕ → Option Leaf
  leaf_from_full full key = do bytes ← from_full leaf_cbor full key; some (record { bytes = bytes })

  abbrev pub meta_from_full : Full → ℕ → Option Meta
  meta_from_full full key = from_full meta_cbor full key

  abbrev pub dir_from_full : Full → ℕ → Option Dir
  dir_from_full full key = from_full dir_cbor full key

  abbrev pub leaf_to_block : Leaf → ℕ → ℕ → ℕ × Full
  leaf_to_block l key iv = to_block leaf_cbor l.bytes key iv

  abbrev pub dir_to_block : Dir → ℕ → ℕ → ℕ × Full
  dir_to_block dir key iv = to_block dir_cbor dir key iv

  -- The block of a child, as what its type says that it is.
  unfoldable pub decode_as : BlockType → Full → ℕ → Option Decoded
  decode_as directory full key = do d ← dir_from_full full key; some (decoded_dir d)
  decode_as file_meta full key = do m ← meta_from_full full key; some (decoded_meta m)
  decode_as leaf full key = do l ← leaf_from_full full key; some (decoded_leaf l)
