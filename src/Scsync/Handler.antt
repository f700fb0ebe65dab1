-- ===== src/Scsync/Handler.antt =====
-- v2/scsync/src/handler.rs and the receiving task of v2/scsync/src/main.rs: what a node does with each
-- message. The maps are lists of entries, an address is a number, and a channel is the number that it got
-- when it was made. What a call sends, spawns and tells its channels is the list of effects that it
-- returns. `none` is a panic. The folder is written to the list of its files and folders.
pub mod Channels
pub mod Completed
pub mod State
pub mod Progress
pub mod Steps
pub mod Reachable
pub mod Updates
pub mod Retry
pub mod Tasks
pub mod Reports
pub mod Completing
pub mod Requests
pub mod Late
mod TestNode
mod Tests
mod PayloadTests
use das_protokoll.Base.{
  ℕ, zero, suc, Bool, true, false, not, Option, none, some, List, [], ◌∷◌, ◌++◌, map, ◌==◌, ◌&&◌,
  if◌then◌else◌, ◌>>=◌, ◌>>◌, assert, length,
}
use das_protokoll.Base.Assoc.{find_key, insert_key, remove_key}
use das_protokoll.Csync.Status.{MissingRange}
use das_protokoll.Scsync.BlockDb.{
  BlockRef, blockid, key, BlockDb, is_some, contains, set_pending_root, apply_pending,
}
use das_protokoll.Scsync.Transfer.{
  TransferOut, Transfer, TransferPayload, BlockRequestResponse, transfer,
}
use das_protokoll.Scsync.Transfer
use das_protokoll.Scsync.Codec.{
  Msg, transfer_payload, transfer_status, root_update, root_update_response, block_request,
  block_request_response,
}
use das_protokoll.Scsync.Frontend.{
  Child, Dir, Meta, Decoded, decoded_dir, decoded_meta, decoded_leaf, Sealing,
}
use das_protokoll.Scsync.Frontend.Visitor.{resolve, verify}
use das_protokoll.Scsync.Frontend.Disk.{Node, write_to_dir}
pub use das_protokoll.Scsync.Handler.State.{
  RootUpdate, RootUpdateResponse, BlockRequest, Message, TransferIn, Client, default_client,
  Handler, Effect, each, dropped, send, spawn_retry, return_retry, fulfil, cancel, spawn_status,
  status_due, close_status, start_transfer,
}

pub data ClientState : Type 0 where
  known new_client : ClientState

abbrev pub client_state : ℕ → Handler → ClientState
client_state addr h = if is_some (find_key addr h.clients) then known else new_client

-- A second request for a block drops the channel of the first.
unfoldable pub send_block_request : ℕ → ℕ → ℕ → Client → Client × List Effect
send_block_request addr id channel client = (
  record client { pending_block_requests = insert_key id channel client.pending_block_requests },
  each cancel (find_key id client.pending_block_requests) ++ spawn_retry channel addr id ∷ [],
)

-- `RootUpdate` from a node that is not known; the first chunk id is drawn.
unfoldable pub unconnected_root_update : ℕ → ℕ → RootUpdate → Handler → Handler × List Effect
unconnected_root_update transfer_cursor addr update h =
    let root = h.blockdb.root in
    let id = blockid update.to_blockref in
    let opened = send_block_request addr id h.channels (default_client transfer_cursor) in
    if id == blockid root
    then (
      h,
      send
            (root_update_response (record {
              from_blockid = blockid root;
              to_blockid = blockid root;
              to_key = key root;
            }))
            addr
          ∷ [],
    )
    else if is_some h.blockdb.pending_root
    then (h, [])
    else (
      record h {
        blockdb = set_pending_root update.to_blockref h.blockdb;
        clients = insert_key addr (opened.0) h.clients;
        channels = suc h.channels;
      },
      dropped (find_key addr h.clients) ++ opened.1,
    )

unfoldable pub connect : ℕ → ℕ → ℕ → Handler → Handler × List Effect
connect transfer_cursor nonce srv h = (
  record h { clients = insert_key srv (default_client transfer_cursor) h.clients },
  dropped (find_key srv h.clients)
      ++ send
          (root_update (record { nonce = nonce; from_blockid = 0; to_blockref = h.blockdb.root }))
          srv
        ∷ [],
)

abbrev pub needs_update : RootUpdateResponse → Handler → Bool
needs_update res h = not (blockid h.blockdb.root == res.to_blockid)

unfoldable pub handle_root_update_response :
    ℕ → RootUpdateResponse → Handler → Option (Handler × List Effect)
handle_root_update_response addr res h = do
  client ← find_key addr h.clients
  let client' : Client = record client {
    pending_block_requests = insert_key res.to_blockid h.channels client.pending_block_requests;
  }
  some (
    record h { clients = insert_key addr client' h.clients; channels = suc h.channels },
    each cancel (find_key res.to_blockid client.pending_block_requests)
        ++ return_retry h.channels addr res.to_blockid ∷ [],
  )

unfoldable pub handle_block_request : ℕ → BlockRequest → Handler → Option (Handler × List Effect)
handle_block_request addr req h = do
  client ← find_key addr h.clients
  (out, res) ← Transfer.block_request req.blockid h.blockdb client.transfer_out
  some (
    record h { clients = insert_key addr (record client { transfer_out = out }) h.clients },
    send (block_request_response res) addr ∷ [],
  )

unfoldable pub handle_block_request_response :
    ℕ → BlockRequestResponse → Handler → Option (Handler × List Effect)
handle_block_request_response addr res h = do
  client ← find_key addr h.clients
  let (transfers, db) = Transfer.block_request_response res client.transfer_in.transfers h.blockdb
  let launch = length transfers == 1
  let client' : Client = record client {
    pending_block_requests = remove_key res.blockid client.pending_block_requests;
    transfer_in = record {
      transfers = transfers;
      status_tx = if launch then some h.channels else client.transfer_in.status_tx;
    };
  }
  some (
    record h {
      blockdb = db;
      clients = insert_key addr client' h.clients;
      channels = if launch then suc h.channels else h.channels;
    },
    each fulfil (find_key res.blockid client.pending_block_requests)
        ++ (if launch
            then each close_status client.transfer_in.status_tx
              ++ spawn_status h.channels addr ∷ status_due h.channels ∷ []
            else []),
  )

-- `PartialEq` of `Transfer`.
abbrev pub same_transfer : Transfer → Transfer → Bool
same_transfer u t = (u.blockid == t.blockid) && ((u.start == t.start) && (u.end == t.end))

-- `transfers.remove(position of the transfer)`
unfoldable pub remove_transfer : Transfer → List Transfer → Option (List Transfer)
remove_transfer t [] = none
remove_transfer t (u ∷ us) =
    let rest = remove_transfer t us in
    if same_transfer u t then some us else (do us' ← rest; some (u ∷ us'))

-- The blocks that a block names.
abbrev pub named_by : Decoded → List ℕ
named_by (decoded_dir d) = map (λ (c : Child). blockid c.blockref) d.children
named_by (decoded_meta m) = map blockid m.blocks
named_by (decoded_leaf l) = []

-- The requests for those that the store does not have; the number is the next channel.
unfoldable pub request_missing : ℕ → BlockDb → List ℕ → ℕ → Client → Client × ℕ × List Effect
request_missing addr db [] channel client = (client, channel, [])
request_missing addr db (id ∷ ids) channel client =
    let (client', sent) = send_block_request addr id channel client in
    let skipped = request_missing addr db ids channel client in
    let (client'', channel', more) = request_missing addr db ids (suc channel) client' in
    if contains id db then skipped else (client'', channel', sent ++ more)

abbrev pub tell_all : RootUpdateResponse → List (ℕ × Client) → List Effect
tell_all res clients = map (λ (addr, client). send (root_update_response res) addr) clients

module _ (S : Sealing) (fuel : ℕ) where
  -- The end of `transfer_payload`: `verify` has found nothing missing.
  unfoldable pub finish_update : ℕ → Handler → Option (Handler × List Effect)
  finish_update addr h = do
    (db, from) ← apply_pending h.blockdb
    disk ← write_to_dir S db fuel h.folder h.disk
    let res : RootUpdateResponse = record {
      from_blockid = blockid from;
      to_blockid = blockid db.root;
      to_key = key db.root;
    }
    some (
      record h { blockdb = db; disk = disk; clients = remove_key addr h.clients },
      tell_all res h.clients ++ dropped (find_key addr h.clients),
    )

  -- The block of the transfer is complete: `client` still has the transfer.
  unfoldable pub block_complete : ℕ → Transfer → Client → Handler → Option (Handler × List Effect)
  block_complete addr t client h = do
    transfers ← remove_transfer t client.transfer_in.transfers
    dec ← resolve S fuel h.blockdb t.blockid true
    let (client', channels, sent) =
        request_missing addr h.blockdb (named_by dec) h.channels
          (record client { transfer_in = record client.transfer_in { transfers = transfers } })
    let h' : Handler = record h { clients = insert_key addr client' h.clients; channels = channels }
    whole ← verify S fuel h.blockdb true
    (h'', told) ← (if whole then finish_update addr h' else some (h', []))
    some (h'', sent ++ told)

  unfoldable pub handle_transfer_payload :
      ℕ → TransferPayload → Handler → Option (Handler × List Effect)
  handle_transfer_payload addr chunk h = do
    client ← find_key addr h.clients
    status ← client.transfer_in.status_tx
    t ← transfer chunk.chunkid client.transfer_in.transfers
    (db, promoted) ← Transfer.transfer_payload chunk client.transfer_in.transfers h.blockdb
    (h', done) ←
        (if promoted
          then block_complete addr t client (record h { blockdb = db })
          else some (record h { blockdb = db }, []))
    some (h', status_due status ∷ done)

  unfoldable pub handle_transfer_status :
      ℕ → List MissingRange → Handler → Option (Handler × List Effect)
  handle_transfer_status addr ranges h = do
    client ← find_key addr h.clients
    let (out, launch) = Transfer.transfer_status ranges client.transfer_out
    some (
      record h { clients = insert_key addr (record client { transfer_out = out }) h.clients },
      if launch then start_transfer addr ∷ [] else [],
    )

  -- `main`: a message from a known node, and from a new one.
  unfoldable pub on_known : ℕ → Message → Handler → Option (Handler × List Effect)
  on_known addr (root_update update) h = some (h, [])
  on_known addr (root_update_response res) h =
      if not (needs_update res h) then some (h, []) else handle_root_update_response addr res h
  on_known addr (block_request req) h = handle_block_request addr req h
  on_known addr (block_request_response res) h = handle_block_request_response addr res h
  on_known addr (transfer_payload payload) h = handle_transfer_payload addr payload h
  on_known addr (transfer_status ranges) h = handle_transfer_status addr ranges h

  abbrev pub on_new : ℕ → ℕ → Message → Handler → Handler × List Effect
  on_new transfer_cursor addr (root_update update) h =
      unconnected_root_update transfer_cursor addr update h
  on_new transfer_cursor addr (root_update_response res) h = (h, [])
  on_new transfer_cursor addr (block_request req) h = (h, [])
  on_new transfer_cursor addr (block_request_response res) h = (h, [])
  on_new transfer_cursor addr (transfer_payload payload) h = (h, [])
  on_new transfer_cursor addr (transfer_status ranges) h = (h, [])

  abbrev pub route : ℕ → ℕ → Message → Handler → ClientState → Option (Handler × List Effect)
  route transfer_cursor addr msg h known = on_known addr msg h
  route transfer_cursor addr msg h new_client = some (on_new transfer_cursor addr msg h)

  -- `transfer_cursor` is what is drawn for a client that the message opens.
  unfoldable pub dispatch : ℕ → ℕ → Message → Handler → Option (Handler × List Effect)
  dispatch transfer_cursor addr msg h = route transfer_cursor addr msg h (client_state addr h)
