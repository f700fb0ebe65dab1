-- ===== src/Scsync/BlockDb.antt =====
-- v2/scsync/src/blockdb.rs: the store of blocks. A block id is the number that its 32 bytes stand for, a
-- key that of its 16 bytes; the hash map is the list of its entries, one for an id; `none` is a panic.
pub mod Store
use das_protokoll.Base.{
  ℕ, zero, suc, Bool, true, false, Option, none, some, List, [], ◌∷◌, ◌==◌, if◌then◌else◌, ◌>>=◌,
  ◌&&◌, length,
}

mutual
  pub data BlockRef : Type 0 where
    block_ref : (blockid : ℕ) → (key : ℕ) → (hints : Hints) → BlockRef

  -- A list of hints: each a reference, an offset and a length.
  pub data Hints : Type 0 where
    no_hint : Hints
    hint : (blockref : BlockRef) → (offset : ℕ) → (len : ℕ) → Hints → Hints

abbrev pub blockid : BlockRef → ℕ
blockid (block_ref id key hints) = id

abbrev pub key : BlockRef → ℕ
key (block_ref id k hints) = k

pub record Partial : Type 0 where
  pub id : ℕ
  pub bytes : List ℕ
  pub available : List Bool

pub record Full : Type 0 where
  pub id : ℕ
  pub bytes : List ℕ

pub data Block : Type 0 where
  partial_block : Partial → Block
  full_block : Full → Block

-- `Block::id`, `Block::full`, `Block::partial` and `Block::len`.
abbrev pub id_of : Block → ℕ
id_of (partial_block p) = p.id
id_of (full_block f) = f.id

abbrev pub full : Block → Option Full
full (partial_block p) = none
full (full_block f) = some f

abbrev pub partial : Block → Option Partial
partial (partial_block p) = some p
partial (full_block f) = none

abbrev pub len : Block → ℕ
len (partial_block p) = length p.bytes
len (full_block f) = length f.bytes

-- The hash map.
unfoldable pub lookup : ℕ → List (ℕ × Block) → Option Block
lookup id [] = none
lookup id ((k, b) ∷ rest) = if k == id then some b else lookup id rest

unfoldable pub insert : ℕ → Block → List (ℕ × Block) → List (ℕ × Block)
insert id block [] = (id, block) ∷ []
insert id block ((k, b) ∷ rest) =
    if k == id then (id, block) ∷ rest else (k, b) ∷ insert id block rest

unfoldable pub remove : ℕ → List (ℕ × Block) → List (ℕ × Block)
remove id [] = []
remove id ((k, b) ∷ rest) = if k == id then remove id rest else (k, b) ∷ remove id rest

pub record BlockDb : Type 0 where
  pub root : BlockRef
  pub pending_root : Option BlockRef
  pub blocks : List (ℕ × Block)

abbrev pub new : BlockRef → List (ℕ × Block) → BlockDb
new root blocks = record { root = root; pending_root = none; blocks = blocks }

abbrev pub set_pending_root : BlockRef → BlockDb → BlockDb
set_pending_root pending db = record db { pending_root = some pending }

-- Returns the old root.
unfoldable pub apply_pending : BlockDb → Option (BlockDb × BlockRef)
apply_pending db = do
  pending ← db.pending_root
  some (record db { root = pending; pending_root = none }, db.root)

abbrev pub is_some {ℓ} : {A : Type ℓ} → Option A → Bool
is_some none = false
is_some (some a) = true

unfoldable pub contains : ℕ → BlockDb → Bool
contains id db = is_some (lookup id db.blocks)

unfoldable pub get : ℕ → BlockDb → Option Block
get id db = lookup id db.blocks

-- `entry(id).or_insert(block)`
unfoldable pub add : Block → BlockDb → BlockDb
unfolding contains
add block db =
    if contains (id_of block) db
    then db
    else record db { blocks = insert (id_of block) block db.blocks }

abbrev pub all_available : List Bool → Bool
all_available [] = true
all_available (b ∷ bs) = b && all_available bs

unfoldable pub try_promote : ℕ → BlockDb → Option (BlockDb × Bool)
try_promote id db = do
  block ← lookup id db.blocks
  p ← partial block
  let whole = full_block (record { id = p.id; bytes = p.bytes })
  some (
      if all_available p.available
      then (record db { blocks = insert id whole (remove id db.blocks) }, true)
      else (db, false))
