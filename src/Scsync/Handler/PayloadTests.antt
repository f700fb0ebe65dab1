-- ===== src/Scsync/Handler/PayloadTests.antt =====
-- The node fetches the other folder, whose block is a part of a folder or the whole of it.
use das_protokoll.Base.{
  replicate, ℕ, ◌<◌, ◌≡◌, refl, Bool, true, false, Option, none, some, List, [], ◌∷◌, arith,
}
use das_protokoll.Base.Assoc.{find_key, insert_key}
use das_protokoll.Scsync.BlockDb.{
  BlockRef, block_ref, no_hint, Full, full_block, partial_block, BlockDb, get, insert, lookup,
  remove, try_promote,
}
use das_protokoll.Scsync.Transfer.{Transfer, TransferPayload, BlockRequestResponse, transfer}
use das_protokoll.Scsync.Transfer
use das_protokoll.Scsync.Codec.{root_update, block_request_response}
use das_protokoll.Scsync.Frontend.{directory, leaf, decoded_dir, to_block, decode_as, from_full}
use das_protokoll.Scsync.Frontend.Instances.{
  sealing, dir_cbor, read_children, write_children, write_ref, read_ref,
}
use das_protokoll.Scsync.Frontend.Visitor.Finding.{Resolves}
use das_protokoll.Scsync.Frontend.Visitor.Answers.{at_root}
use das_protokoll.Scsync.Frontend.Folder.Tree.{entries, nil, depth, ProperEntries}
use das_protokoll.Scsync.Frontend.Folder.Stored.{StoredAll}
use das_protokoll.Scsync.Frontend.Disk.{find}
use das_protokoll.Scsync.Handler.{
  Client, Handler, Effect, unconnected_root_update, handle_transfer_payload, remove_transfer,
  dispatch, block_complete, handle_block_request_response, on_known, send_block_request,
}
use das_protokoll.Scsync.Handler.Reachable.{message, Reach, here, next}
use das_protokoll.Scsync.Handler.Updates.{no_pending_root}
use das_protokoll.Scsync.Handler.Completing.{update_complete}
use das_protokoll.Scsync.Handler.Completed.{Completed, HoldsFolder, HasFolder}
use das_protokoll.Scsync.Handler.Reports.{Reach-status_tx}
use das_protokoll.Scsync.Handler.Late.{late_payload}
use das_protokoll.Base.Word.{sub64}
use das_protokoll.Scsync.Frontend.Folder.{path_eq}
use das_protokoll.Scsync.Frontend.Visitor.{
  resolve, traverse, traverse_children, traverse_rec, verify,
}
use das_protokoll.Scsync.Handler.TestNode.{
  empty_dir, own, own_root, fetched, new_root, node, asked, update, opened, dispatched,
}

-- The block of the new root is on its way, in one chunk.
abbrev on_its_way : Transfer
on_its_way = record { blockid = fetched.id; start = 40; end = 42 }

abbrev receiving : Client
receiving = record asked {
  transfer_in = record { transfers = on_its_way ∷ []; status_tx = some 1 };
}

abbrev receiver_of : Option BlockRef → Handler
receiver_of pending = record node {
  blockdb = record {
    root = own_root;
    pending_root = pending;
    blocks =
        (own.id, full_block own)
        ∷ (
          fetched.id,
          partial_block (record { id = fetched.id; bytes = 0 ∷ 0 ∷ []; available = false ∷ [] }),
        )
        ∷ [];
  };
  clients = (9, receiving) ∷ [];
  channels = 2;
}

abbrev received : Option BlockRef → BlockDb
received pending = record {
  root = own_root;
  pending_root = pending;
  blocks = (own.id, full_block own) ∷ (fetched.id, full_block fetched) ∷ [];
}

abbrev chunk : TransferPayload
chunk = record { chunkid = 40; bytes = fetched.bytes }

known_sender : find_key 9 ((receiver_of none).clients) ≡ some receiving
unfolding find_key
known_sender = refl

known_transfer : transfer 40 (on_its_way ∷ []) ≡ some on_its_way
unfolding transfer
known_transfer = refl

promoted_alone :
    Transfer.transfer_payload chunk (on_its_way ∷ []) ((receiver_of none).blockdb)
    ≡ some (received none, true)
unfolding Transfer.transfer_payload transfer get lookup to_block write_children Transfer.store_chunk
    sub64 try_promote insert remove
promoted_alone = refl

no_pending_root_example : handle_transfer_payload sealing 2 9 chunk (receiver_of none) ≡ none
no_pending_root_example =
    no_pending_root sealing 2 9 chunk (receiver_of none) receiving (received none) known_sender
      promoted_alone refl

promoted :
    Transfer.transfer_payload chunk (on_its_way ∷ []) ((receiver_of (some new_root)).blockdb)
    ≡ some (received (some new_root), true)
unfolding Transfer.transfer_payload transfer get lookup to_block write_children Transfer.store_chunk
    sub64 try_promote insert remove
promoted = refl

abbrev same : ℕ → ℕ
same name = name

received-HoldsFolder : HoldsFolder sealing same (received (some new_root)) new_root nil
unfolding get lookup to_block write_children from_full read_children StoredAll
received-HoldsFolder = (fetched, empty_dir, refl, refl, refl)

node-HasFolder : HasFolder (receiver_of (some new_root))
unfolding find path_eq
node-HasFolder = (3, [], refl, refl, refl)

nil-Proper : ProperEntries same nil
unfolding ProperEntries
nil-Proper = tt

nil-depth : depth (entries nil) < 2
unfolding depth
nil-depth = omega arith

is_root : Resolves sealing (received (some new_root)) new_root fetched.id (decoded_dir empty_dir)
unfolding get lookup to_block write_children decode_as from_full read_children
is_root = (new_root, directory, fetched, at_root, refl, refl, refl)

update_complete_example :
    Completed 9
      (receiver_of (some new_root))
      new_root
      nil
      (handle_transfer_payload sealing 2 9 chunk (receiver_of (some new_root)))
update_complete_example =
    update_complete sealing same 2 9 chunk (receiver_of (some new_root)) receiving 1 on_its_way
      (received (some new_root)) new_root nil (decoded_dir empty_dir) nil-Proper nil-depth
      known_sender refl known_transfer promoted refl received-HoldsFolder is_root node-HasFolder

-- A directory whose only child is not there.
abbrev with_child : Full
with_child =
    (to_block sealing dir_cbor
      (record {
        children = record { name = 4; kind = leaf; blockref = block_ref 77 5 no_hint } ∷ [];
      })
      6 6).1

abbrev larger : Transfer
larger = record { blockid = with_child.id; start = 40; end = 49 }

abbrev fetching : Client
fetching = record asked { transfer_in = record { transfers = larger ∷ []; status_tx = some 1 } }

abbrev fetcher : Handler
fetcher = record node {
  blockdb = record {
    root = own_root;
    pending_root = some (block_ref with_child.id 6 no_hint);
    blocks =
        (own.id, full_block own)
        ∷ (
          with_child.id,
          partial_block
              (record { id = with_child.id; bytes = replicate 9 0; available = false ∷ [] }),
        )
        ∷ [];
  };
  clients = (9, fetching) ∷ [];
  channels = 2;
}

abbrev child_chunk : TransferPayload
child_chunk = record { chunkid = 40; bytes = with_child.bytes }

abbrev or_start : {A : Type 0} → A → Option A → A
or_start a none = a
or_start a (some b) = b

abbrev fetched_db : BlockDb × Bool
fetched_db =
    or_start (node.blockdb, false)
      (Transfer.transfer_payload child_chunk (larger ∷ []) fetcher.blockdb)

abbrev after_payload : Handler × List Effect
after_payload = or_start (node, []) (handle_transfer_payload sealing 2 9 child_chunk fetcher)

abbrev asks_on : Client
asks_on = or_start asked (find_key 9 (after_payload.0.clients))

finds_fetching : find_key 9 fetcher.clients ≡ some fetching
unfolding find_key
finds_fetching = refl

finds_larger : transfer 40 (larger ∷ []) ≡ some larger
unfolding transfer
finds_larger = refl

drops_larger : remove_transfer larger (larger ∷ []) ≡ some []
unfolding remove_transfer to_block write_children write_ref
drops_larger = refl

no_more : transfer 40 [] ≡ none
unfolding transfer
no_more = refl

child_promoted :
    Transfer.transfer_payload child_chunk (larger ∷ []) fetcher.blockdb ≡ some (fetched_db.0, true)
unfolding Transfer.transfer_payload transfer get lookup to_block write_children write_ref
    Transfer.store_chunk sub64 try_promote insert
child_promoted = refl

handled :
    handle_transfer_payload sealing 2 9 child_chunk fetcher
    ≡ some (after_payload.0, after_payload.1)
unfolding handle_transfer_payload find_key transfer Transfer.transfer_payload get lookup to_block
    write_children write_ref Transfer.store_chunk sub64 try_promote insert block_complete
    remove_transfer resolve traverse remove from_full read_children read_ref verify traverse_rec
    traverse_children
handled = refl

still_there : find_key 9 (after_payload.0.clients) ≡ some asks_on
unfolding find_key handle_transfer_payload transfer Transfer.transfer_payload get lookup to_block
    write_children write_ref Transfer.store_chunk sub64 try_promote insert block_complete
    remove_transfer resolve traverse remove from_full read_children read_ref verify traverse_rec
    traverse_children insert_key
still_there = refl

late_payload_example : handle_transfer_payload sealing 2 9 child_chunk (after_payload.0) ≡ none
late_payload_example =
    late_payload sealing 2 9 child_chunk fetcher (after_payload.0) (after_payload.1) fetching
      asks_on larger [] (fetched_db.0) finds_fetching finds_larger drops_larger no_more
      child_promoted handled still_there

abbrev granted : Handler × List Effect
granted =
    or_start (node, [])
      (dispatch sealing 2 0 9
        (block_request_response
          (record { blockid = fetched.id; start_id = 40; end_id = 42; len = 2 }))
        (opened.0))

grants :
    dispatch sealing 2 0 9
      (block_request_response
        (record { blockid = fetched.id; start_id = 40; end_id = 42; len = 2 }))
      (opened.0)
    ≡ some (granted.0, granted.1)
unfolding dispatch find_key unconnected_root_update to_block write_children insert_key on_known
    handle_block_request_response
grants = refl

abbrev granted_client : Client
granted_client = or_start asked (find_key 9 (granted.0.clients))

knows_granted : find_key 9 (granted.0.clients) ≡ some granted_client
unfolding find_key dispatch unconnected_root_update to_block write_children insert_key on_known
    handle_block_request_response
knows_granted = refl

has_transfer : transfer 40 granted_client.transfer_in.transfers ≡ some on_its_way
unfolding transfer find_key dispatch unconnected_root_update to_block write_children insert_key
    on_known handle_block_request_response Transfer.block_request_response send_block_request
has_transfer = refl

granted-Reach : Reach sealing node (granted.0)
granted-Reach =
    next (next here (message 2 40 9 (root_update update) (opened.0) (opened.1) dispatched)) (
      message 2 0 9
        (block_request_response
          (record { blockid = fetched.id; start_id = 40; end_id = 42; len = 2 }))
        (granted.0) (granted.1) grants)

Reach-status_tx_example : (channel : ℕ) × (granted_client.transfer_in.status_tx ≡ some channel)
Reach-status_tx_example =
    Reach-status_tx sealing node (granted.0) 9 40 granted_client on_its_way refl granted-Reach
      knows_granted has_transfer
