-- ===== src/Scsync/Transfer.antt =====
-- v2/scsync/src/handler.rs: the transfer of a block between two clients. The one that has the block gives
-- out chunk ids and sends chunks; the other asks for the block and fills a partial one. `none` is a panic.
-- A message that is sent is a result; channels, timers and retries are outside.
pub mod Allocation
pub mod Filling
pub mod Delivery
pub mod Sending
pub mod Reporting
mod Tests
use das_protokoll.Base.{
  ℕ, zero, suc, ◌+◌, ◌-◌, ◌*◌, ◌/◌, Bool, true, false, Option, none, some, List, [], ◌∷◌, ◌++◌, ltb,
  leb, ◌==◌, if◌then◌else◌, ◌>>=◌, ◌>>◌, assert, ◌&&◌, not, length, take, drop, replicate, min, max,
  set as set_elem,
}
use das_protokoll.Crates.{Itertools}
use das_protokoll.Base.Word.{add64, sub64}
use das_protokoll.Csync.Status.{MissingRange, find_range}
use das_protokoll.Scsync.BlockDb.{
  BlockDb, Block, Partial, Full, partial_block, full_block, is_some, len, full, partial, get, add,
  insert, try_promote,
}

-- `CHUNK_SIZE`
abbrev pub chunk_size : ℕ
chunk_size = 1450

-- An entry of `transfers`, `(from, to, block)`.
pub record Allocated : Type 0 where
  pub from : ℕ
  pub to : ℕ
  pub block : ℕ

-- An entry `(from, to)` of `todo` is a range of missing chunks.
pub record TransferOut : Type 0 where
  pub todo : List MissingRange
  pub cursor : Option ℕ
  pub transfers : List Allocated
  pub transfer_cursor : ℕ

-- `Transfer`, of `TransferIn`: the ids `start..end` are the chunks of the block.
pub record Transfer : Type 0 where
  pub blockid : ℕ
  pub start : ℕ
  pub end : ℕ

pub record BlockRequestResponse : Type 0 where
  pub blockid : ℕ
  pub start_id : ℕ
  pub end_id : ℕ
  pub len : ℕ

pub record TransferPayload : Type 0 where
  pub chunkid : ℕ
  pub bytes : List ℕ

-- `iter().find(|&(_from, _to, ref id)| id == blockid)`
unfoldable pub find_block : ℕ → List Allocated → Option Allocated
find_block id [] = none
find_block id (t ∷ ts) = if t.block == id then some t else find_block id ts

-- `iter().find(|&(from, to, _)| cursor >= from && cursor < to)`
unfoldable pub find_chunk : ℕ → List Allocated → Option Allocated
find_chunk chunk [] = none
find_chunk chunk (t ∷ ts) =
    if leb t.from chunk && ltb chunk t.to then some t else find_chunk chunk ts

abbrev response : Allocated → ℕ → BlockRequestResponse
response t len = record { blockid = t.block; start_id = t.from; end_id = t.to; len = len }

-- A block that has no chunk ids yet gets as many as it has bytes.
unfoldable pub block_request :
    ℕ → BlockDb → TransferOut → Option (TransferOut × BlockRequestResponse)
block_request id db out = do
  block ← get id db
  let fresh : Allocated = record {
    from = out.transfer_cursor;
    to = add64 out.transfer_cursor (len block);
    block = id;
  }
  elim (find_block id out.transfers) [
    | some t ↦ some (out, response t (len block))
    | none ↦ some (
      record out { transfer_cursor = fresh.to; transfers = out.transfers ++ fresh ∷ [] },
      response fresh (len block),
    )
  ]

-- The new transfer and the partial block that it is to fill.
unfoldable pub block_request_response :
    BlockRequestResponse → List Transfer → BlockDb → List Transfer × BlockDb
block_request_response res transfers db = (
  transfers ++ record { blockid = res.blockid; start = res.start_id; end = res.end_id } ∷ [],
  add
      (partial_block (record {
        id = res.blockid;
        bytes = replicate res.len 0;
        available = replicate ((res.len + chunk_size - 1) / chunk_size) false;
      }))
      db,
)

-- `TransferIn::transfer`
unfoldable pub transfer : ℕ → List Transfer → Option Transfer
transfer chunkid [] = none
transfer chunkid (t ∷ ts) =
    if leb t.start chunkid && ltb chunkid t.end then some t else transfer chunkid ts

-- `partial.data[from..to].copy_from_slice(&chunk.data)` and `partial.available[id] = true`: a range that
-- is out of bounds is a panic, and so is one that is not as long as the chunk.
unfoldable pub store_chunk : ℕ → List ℕ → Partial → Option Partial
store_chunk id bytes p = do
  let from = id * chunk_size
  assert (leb (from + min chunk_size (length bytes)) (length p.bytes))
  assert (leb (length bytes) chunk_size)
  assert (ltb id (length p.available))
  some (record p {
    bytes = take from p.bytes ++ (bytes ++ drop (from + length bytes) p.bytes);
    available = set_elem p.available id true;
  })

-- `transfer_payload`, to the promotion of the block. The Boolean is whether it was promoted.
unfoldable pub transfer_payload :
    TransferPayload → List Transfer → BlockDb → Option (BlockDb × Bool)
transfer_payload chunk transfers db = do
  t ← transfer chunk.chunkid transfers
  block ← get t.blockid db
  p ← partial block
  p' ← store_chunk (sub64 chunk.chunkid t.start) chunk.bytes p
  try_promote t.blockid (record db { blocks = insert t.blockid (partial_block p') db.blocks })

abbrev pub first_from : List MissingRange → Option ℕ
first_from [] = none
first_from (r ∷ rs) = some r.from

-- The Boolean is whether the task that sends has to be started.
unfoldable pub transfer_status : List MissingRange → TransferOut → TransferOut × Bool
transfer_status missing_ranges out = (
  record out { cursor = first_from missing_ranges; todo = missing_ranges },
  not (is_some out.cursor) && is_some (first_from missing_ranges),
)

abbrev next_valid : Option MissingRange → ℕ → Option ℕ
next_valid none next = none
next_valid (some r) next = some (max r.from next)

-- One round of the task that sends: without a cursor it ends.
unfoldable pub send_next : BlockDb → TransferOut → Option (TransferOut × Option TransferPayload)
send_next db out = elim out.cursor [
  | none ↦ some (out, none)
  | some cursor ↦ (do
    t ← find_chunk cursor out.transfers
    block ← get t.block db
    f ← full block
    let bytes = take chunk_size (drop (sub64 cursor t.from * chunk_size) f.bytes)
    let next = add64 cursor 1
    some (
      record out { cursor = next_valid (find_range next out.todo) next },
      some (record { chunkid = cursor; bytes = bytes }),
    ))
]

-- The ranges of the groups that are not available, counted from an id on.
unfoldable pub ranges_of : ℕ → List (Bool × ℕ) → List MissingRange
ranges_of start [] = []
ranges_of start ((true, count) ∷ groups) = ranges_of (add64 start count) groups
ranges_of start ((false, count) ∷ groups) =
    record { from = start; to = add64 start count } ∷ ranges_of (add64 start count) groups

-- The missing ranges of a status update, over all transfers.
module _ (I : Itertools) where
  unfoldable pub missing_ranges : List Transfer → BlockDb → Option (List MissingRange)
  missing_ranges [] db = some []
  missing_ranges (t ∷ ts) db = do
    block ← get t.blockid db
    p ← partial block
    rest ← missing_ranges ts db
    some (ranges_of t.start (I.group_by p.available) ++ rest)
