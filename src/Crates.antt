-- ===== src/Crates.antt =====
-- The third-party crates that v1/csync and v2/scsync encode with: varmint, itertools and byteorder.
-- Each is a record of the calls that the code makes and of their documented behaviour; a client
-- takes it as a parameter.
pub mod Instances
use das_protokoll.Base.{
  Bool, ◌≢◌, Option, some, ℕ, suc, ◌+◌, ◌*◌, ◌^◌, ◌≤◌, ◌<◌, ◌≡◌, List, [], ◌∷◌, ◌++◌, length, All,
}
use das_protokoll.Base.Word.{IsByte, IsU64}

-- The result of `read_u64_varint`: the number and the bytes behind it, `UnexpectedEof`, or another
-- error.
pub data Read : Type 0 where
  got : ℕ → List ℕ → Read
  unexpected_eof : Read
  read_error : Read

-- varmint: numbers as bytes.
pub record Varmint : Type 0 where
  pub write_u64_varint : ℕ → List ℕ
  pub read_u64_varint : List ℕ → Read
  pub len_u64_varint : ℕ → ℕ
  pub read-write :
      (v : ℕ) (rest : List ℕ) → IsU64 v → read_u64_varint (write_u64_varint v ++ rest) ≡ got v rest
  pub read-nil : read_u64_varint [] ≡ unexpected_eof
  pub read_shorter :
      (src : List ℕ) (v : ℕ) (rest : List ℕ)
      → read_u64_varint src ≡ got v rest
      → length rest < length src
  pub len-write : (v : ℕ) → IsU64 v → length (write_u64_varint v) ≡ len_u64_varint v
  pub len-le : (v : ℕ) → IsU64 v → len_u64_varint v ≤ 10

-- itertools: `tuples` groups the items in pairs and drops an odd one at the end; `group_by`, of the
-- items themselves, gives each run of equal items, here with its length.
pub record Itertools : Type 0 where
  pub tuples : List ℕ → List (ℕ × ℕ)
  pub tuples-nil : tuples [] ≡ []
  pub tuples_odd : (x : ℕ) → tuples (x ∷ []) ≡ []
  pub tuples_pair : (x y : ℕ) (xs : List ℕ) → tuples (x ∷ y ∷ xs) ≡ (x, y) ∷ tuples xs
  pub group_by : List Bool → List (Bool × ℕ)
  pub group_by-nil : group_by [] ≡ []
  pub group_by_one : (b : Bool) → group_by (b ∷ []) ≡ (b, 1) ∷ []
  pub group_by_same :
      (b : Bool) (bs : List Bool) (n : ℕ) (gs : List (Bool × ℕ))
      → group_by (b ∷ bs) ≡ (b, n) ∷ gs
      → group_by (b ∷ b ∷ bs) ≡ (b, n + 1) ∷ gs
  pub group_by_other :
      (b c : Bool) (bs : List Bool) → b ≢ c → group_by (b ∷ c ∷ bs) ≡ (b, 1) ∷ group_by (c ∷ bs)

-- The number that bytes stand for, lowest first.
abbrev pub le_value : List ℕ → ℕ
le_value [] = 0
le_value (b ∷ bs) = b + 256 * le_value bs

-- byteorder: a `u64` as 8 bytes, lowest first.
pub record Byteorder : Type 0 where
  pub write_u64 : ℕ → List ℕ
  pub read_u64 : List ℕ → ℕ
  pub length-write_u64 : (v : ℕ) → length (write_u64 v) ≡ 8
  pub write_u64-IsByte : (v : ℕ) → All IsByte (write_u64 v)
  pub write_u64-value : (v : ℕ) → IsU64 v → le_value (write_u64 v) ≡ v
  pub read_u64-value : (bs : List ℕ) → length bs ≡ 8 → All IsByte bs → read_u64 bs ≡ le_value bs

-- serde_cbor: a value that derives its encoding; `none` is a reader's error.
pub record Cbor (A : Type 0) : Type 0 where
  pub to_writer : A → List ℕ
  pub from_reader : List ℕ → Option A
  pub from_reader-to_writer : (a : A) → from_reader (to_writer a) ≡ some a
