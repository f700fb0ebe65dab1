-- ===== src/Scsync/Transfer/Tests.antt =====
-- A block of two bytes, sent and received.
use das_protokoll.Base.{
  In, inl, zero, ℕ, suc, ◌+◌, ◌-◌, ◌*◌, ◌<◌, ◌≡◌, refl, true, false, none, some, List, [], ◌∷◌, All,
  arith, length, get_elem?,
}
use das_protokoll.Csync.Status.{MissingRange}
use das_protokoll.Crates.Instances.{itertools}
use das_protokoll.Csync.Status.Gaps.{covers, Ordered, is_missing}
use das_protokoll.Scsync.Transfer.Reporting.{missing_ranges-covers}
use das_protokoll.Csync.Receiver.Integrity.{slice}
use das_protokoll.Scsync.BlockDb.{
  block_ref, no_hint, Partial, Full, partial_block, full_block, BlockDb, get, len, lookup,
}
use das_protokoll.Scsync.Transfer.{
  chunk_size, Allocated, TransferOut, Transfer, BlockRequestResponse, find_chunk, transfer,
  block_request, transfer_payload, send_next, missing_ranges,
}
use das_protokoll.Scsync.Transfer.Allocation.{Served, block_request-Served}
use das_protokoll.Scsync.Transfer.Filling.{Receiving, Received, transfer_payload-Received}
use das_protokoll.Scsync.Transfer.Delivery.{Delivered, fill-Delivered}
use das_protokoll.Scsync.Transfer.Sending.{StandsAt, send_next-StandsAt}

abbrev source : List ℕ
source = 7 ∷ 8 ∷ []

abbrev leaf : Full
leaf = record { id = 3; bytes = source }

abbrev owner : BlockDb
owner = record {
  root = block_ref 3 2 no_hint;
  pending_root = none;
  blocks = (3, full_block leaf) ∷ [];
}

has_leaf : get 3 owner ≡ some (full_block leaf)
unfolding get lookup
has_leaf = refl

abbrev unasked : TransferOut
unasked = record { todo = []; cursor = none; transfers = []; transfer_cursor = 40 }

block_request_example :
    (out' : TransferOut) × (r : BlockRequestResponse) × (block_request 3 owner unasked
      ≡ some (out', r))
    × (r.blockid ≡ 3)
    × (r.len ≡ len (full_block leaf))
    × Served 40 3 owner out' r
block_request_example =
    block_request-Served 40 3 (full_block leaf) owner unasked has_leaf refl (omega arith)

abbrev ids : Allocated
ids = record { from = 40; to = 42; block = 3 }

abbrev asked : TransferOut
asked = record {
  todo = record { from = 40; to = 41 } ∷ [];
  cursor = some 40;
  transfers = ids ∷ [];
  transfer_cursor = 42;
}

holds_cursor : find_chunk 40 asked.transfers ≡ some ids
unfolding find_chunk
holds_cursor = refl

send_next_example :
    (out' : TransferOut) × (send_next owner asked
      ≡ some (out', some (record { chunkid = 40; bytes = slice source chunk_size (40 - 40) })))
    × StandsAt asked.todo (40 + 1) out'.cursor
    × (out'.todo ≡ asked.todo)
    × (out'.transfers ≡ asked.transfers)
send_next_example =
    send_next-StandsAt owner asked 40 ids leaf refl holds_cursor has_leaf
      (omega arith, omega arith, tt) (omega arith)

abbrev empty : BlockDb
empty = record { root = block_ref 0 2 no_hint; pending_root = none; blocks = [] }

abbrev incoming : Transfer
incoming = record { blockid = 3; start = 40; end = 42 }

abbrev waiting : Partial
waiting = record { id = 3; bytes = 0 ∷ 0 ∷ []; available = false ∷ [] }

abbrev asking : BlockDb
asking = record empty { blocks = (3, partial_block waiting) ∷ [] }

has_waiting : get 3 asking ≡ some (partial_block waiting)
unfolding get lookup
has_waiting = refl

asking-Receiving : Receiving source 3 asking waiting
asking-Receiving = record {
  stored = has_waiting;
  named = refl;
  cuts = (omega arith, omega arith);
  agrees = record { same_length = refl; held = λ i e. no_chunk i e };
}
  where
    no_chunk :
        (i : ℕ)
        → get_elem? waiting.available i ≡ some true
        → (j : ℕ) → j < chunk_size
        → i * chunk_size + j < length source
        → get_elem? waiting.bytes (i * chunk_size + j) ≡ get_elem? source (i * chunk_size + j)
    no_chunk zero e = cc
    no_chunk (suc i) e = cc

finds_incoming : transfer 40 (incoming ∷ []) ≡ some incoming
unfolding transfer
finds_incoming = refl

transfer_payload_example : Received source 3 (40 - 40) asking waiting (
    transfer_payload
      (record { chunkid = 40; bytes = slice source chunk_size (40 - 40) })
      (incoming ∷ [])
      asking)
transfer_payload_example =
    transfer_payload-Received source 40 (incoming ∷ []) incoming asking waiting asking-Receiving
      finds_incoming (omega arith) (omega arith) (omega arith)

missing_ranges_example :
    (rs : List MissingRange) × (missing_ranges itertools (incoming ∷ []) asking ≡ some rs)
    × Ordered 0 rs
    × ((i : ℕ) → covers rs (40 + i) ≡ is_missing (get_elem? waiting.available i))
missing_ranges_example =
    missing_ranges-covers itertools incoming asking waiting has_waiting (omega arith)

lacks_chunk : ¬ All (λ b. b ≡ true) waiting.available
lacks_chunk h = cc (h.0)

has_ids : (i : ℕ) → i < length waiting.available → transfer (40 + i) (incoming ∷ []) ≡ some incoming
has_ids zero h = finds_incoming
has_ids (suc i) h = absurd (omega (arith, h))

chunk_comes :
    (i : ℕ)
    → i < length waiting.available
    → get_elem? waiting.available i ≡ some false
    → In i (0 ∷ 0 ∷ [])
chunk_comes zero h e = inl refl
chunk_comes (suc i) h e = absurd (omega (arith, h))

fill-Delivered_example : Delivered source incoming (incoming ∷ []) (0 ∷ 0 ∷ []) false asking
fill-Delivered_example =
    fill-Delivered source incoming (incoming ∷ []) (0 ∷ 0 ∷ []) asking waiting asking-Receiving
      lacks_chunk has_ids (omega arith) (omega arith, (omega arith, tt)) chunk_comes
