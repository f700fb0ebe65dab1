-- ===== src/Scsync/Handler/Steps.antt =====
-- v2/scsync/src/handler.rs and main.rs: what each message does to the store and its roots.
use das_protokoll.Base.{
  ℕ, ◌≡◌, refl, sym, ◌∙◌, ap, Bool, true, false, not, some, List, [], if◌then◌else◌, ◌==◌, inl,
  OnSome, OnSome-bind, OnSome-apply, if-cases, OnSome-imp,
}
use mathlib.Core.Path.{subst}
use mathlib.Core.Option.{some-injective}
use das_protokoll.Base.Assoc.{find_key}
use das_protokoll.Scsync.BlockDb.{BlockRef, blockid, BlockDb, get, lookup, is_some, apply_pending}
use das_protokoll.Scsync.BlockDb.Store.{apply_pending_lem, is_some-none}
use das_protokoll.Scsync.Transfer.{
  Transfer, TransferPayload, BlockRequestResponse, transfer, store_chunk,
}
use das_protokoll.Scsync.Transfer
use das_protokoll.Scsync.Codec.{
  transfer_payload, transfer_status, root_update, root_update_response, block_request,
  block_request_response,
}
use das_protokoll.Scsync.Frontend.{directory, Sealing}
use das_protokoll.Scsync.Frontend.Visitor.{verify, resolve}
use das_protokoll.Scsync.Frontend.Visitor.Whole.{Whole, verify-Whole, verify-root_of}
use das_protokoll.Scsync.Frontend.Disk.{write_to_dir}
use das_protokoll.Scsync.Handler.Progress.{
  KeepsFull, Progress, waits, applies, Progress-same, Whole-KeepsFull, Filled, Filled-Progress,
  Filled-then, add-Filled, payload-Filled, set_pending_root-KeepsFull,
}
use das_protokoll.Scsync.Handler.{
  RootUpdate, Message, Client, Handler, Effect, unconnected_root_update,
  handle_root_update_response, handle_block_request, handle_block_request_response, finish_update,
  block_complete, handle_transfer_payload, handle_transfer_status, on_known, on_new, route,
  dispatch, client_state, ClientState, known, new_client, remove_transfer, needs_update,
}

module _ (S : Sealing) where
  abbrev Goes : BlockDb → Handler × List Effect → Type 0
  Goes db r = Progress S db (r.0.blockdb)

  unconnected-Progress :
      (transfer_cursor addr : ℕ) (update : RootUpdate) (h : Handler)
      → Goes h.blockdb (unconnected_root_update transfer_cursor addr update h)
  unfolding unconnected_root_update
  unconnected-Progress transfer_cursor addr update h =
      if-cases (Goes h.blockdb) (blockid update.to_blockref == blockid h.blockdb.root) _ _
        (λ same. Progress-same S h.blockdb)
        (λ other.
          if-cases (Goes h.blockdb) (is_some h.blockdb.pending_root) _ _
            (λ busy. Progress-same S h.blockdb)
            (λ idle.
              waits (set_pending_root-KeepsFull update.to_blockref h.blockdb) refl
                (inl (is_some-none h.blockdb.pending_root idle))))

  finish-Progress :
      (fuel addr : ℕ) (root : BlockRef) (h : Handler)
      → h.blockdb.pending_root ≡ some root
      → Whole S h.blockdb fuel root directory
      → OnSome (Goes h.blockdb) (finish_update S fuel addr h)
  unfolding finish_update
  finish-Progress fuel addr root h pending whole =
      OnSome-bind _ (apply_pending h.blockdb) _ λ (db, from) e.
        OnSome-bind _ (write_to_dir S db fuel h.folder h.disk) _ λ disk w.
          (let (was, now, blocks, old) = apply_pending_lem h.blockdb db from e in
            let kept : KeepsFull h.blockdb db =
              λ id f g. unfold get in (ap (lookup id) blocks ∙ (unfold get in g)) in
            let same_root : root ≡ db.root = some-injective _ _ (sym pending ∙ was) in
            applies kept was now fuel (
              subst (λ ref. Whole S db fuel ref directory) same_root
                (Whole-KeepsFull S h.blockdb db kept fuel root directory whole)))

  verified-Progress :
      (fuel addr : ℕ) (h : Handler)
      → verify S fuel h.blockdb true ≡ some true
      → OnSome (Goes h.blockdb) (finish_update S fuel addr h)
  verified-Progress fuel addr h v =
      let (root, pending) = verify-root_of S fuel h.blockdb true true v in
      finish-Progress fuel addr root h pending
        ((verify-Whole S fuel h.blockdb true root pending).0 v)

  complete-Progress :
      (fuel addr : ℕ) (t : Transfer) (client : Client) (h : Handler)
      → OnSome (Goes h.blockdb) (block_complete S fuel addr t client h)
  unfolding block_complete
  complete-Progress fuel addr t client h =
      OnSome-bind _ (remove_transfer t client.transfer_in.transfers) _ λ transfers _.
        OnSome-bind _ (resolve S fuel h.blockdb t.blockid true) _ λ dec _.
          OnSome-bind _ (verify S fuel h.blockdb true) _ λ whole v.
            OnSome-bind _ (if whole then finish_update S fuel addr _ else some (_, [])) _ λ r e.
              OnSome-apply (Goes h.blockdb) _ r
                (if-cases (OnSome (Goes h.blockdb)) whole _ _
                  (λ is_whole. verified-Progress fuel addr _ (v ∙ ap some is_whole))
                  (λ lacks. Progress-same S h.blockdb))
                e

  payload-Progress :
      (fuel addr : ℕ) (chunk : TransferPayload) (h : Handler)
      → OnSome (Goes h.blockdb) (handle_transfer_payload S fuel addr chunk h)
  unfolding handle_transfer_payload
  payload-Progress fuel addr chunk h = OnSome-bind _ (find_key addr h.clients) _ λ client _.
      OnSome-bind _ client.transfer_in.status_tx _ λ status _.
        OnSome-bind _ (transfer chunk.chunkid client.transfer_in.transfers) _ λ t _.
          OnSome-bind _ (Transfer.transfer_payload chunk client.transfer_in.transfers h.blockdb) _
            λ (db, promoted) e.
              OnSome-bind _
                (if promoted
                  then block_complete S fuel addr t client (record h { blockdb = db })
                  else some (record h { blockdb = db }, []))
                _
                λ r e'.
                  OnSome-apply (Goes h.blockdb) _ r
                    (after client t db promoted (
                      OnSome-apply (λ ((db', b) : BlockDb × Bool). Filled h.blockdb db') _
                        (db, promoted) (payload-Filled chunk client.transfer_in.transfers h.blockdb)
                        e))
                    e'
    where
      after :
          (client : Client) (t : Transfer) (db : BlockDb) (promoted : Bool)
          → Filled h.blockdb db
          → OnSome (Goes h.blockdb) (
              if promoted
              then block_complete S fuel addr t client (record h { blockdb = db })
              else some (record h { blockdb = db }, []))
      after client t db true filled =
          OnSome-imp (Goes db) (Goes h.blockdb) _
            (λ r. Filled-then S h.blockdb db (r.0.blockdb) filled)
            (complete-Progress fuel addr t client (record h { blockdb = db }))
      after client t db false filled = Filled-Progress S h.blockdb db filled

  response-Progress :
      (addr : ℕ) (res : BlockRequestResponse) (h : Handler)
      → OnSome (Goes h.blockdb) (handle_block_request_response addr res h)
  unfolding handle_block_request_response Transfer.block_request_response
  response-Progress addr res h =
      OnSome-bind _ (find_key addr h.clients) _
        λ client _. Filled-Progress S h.blockdb _ (add-Filled _ h.blockdb)

  on_known-Progress :
      (fuel addr : ℕ) (msg : Message) (h : Handler)
      → OnSome (Goes h.blockdb) (on_known S fuel addr msg h)
  unfolding on_known handle_root_update_response handle_block_request handle_transfer_status
  on_known-Progress fuel addr (root_update update) h = Progress-same S h.blockdb
  on_known-Progress fuel addr (root_update_response res) h =
      if-cases (OnSome (Goes h.blockdb)) (not (needs_update res h)) _ _
        (λ current. Progress-same S h.blockdb)
        (λ stale. OnSome-bind _ (find_key addr h.clients) _ λ client _. Progress-same S h.blockdb)
  on_known-Progress fuel addr (block_request req) h =
      OnSome-bind _ (find_key addr h.clients) _ λ client _.
        OnSome-bind _ (Transfer.block_request req.blockid h.blockdb client.transfer_out) _
          λ r _. Progress-same S h.blockdb
  on_known-Progress fuel addr (block_request_response res) h = response-Progress addr res h
  on_known-Progress fuel addr (transfer_payload payload) h = payload-Progress fuel addr payload h
  on_known-Progress fuel addr (transfer_status ranges) h =
      OnSome-bind _ (find_key addr h.clients) _ λ client _. Progress-same S h.blockdb

  on_new-Progress :
      (fuel transfer_cursor addr : ℕ) (msg : Message) (h : Handler)
      → Goes h.blockdb (on_new S fuel transfer_cursor addr msg h)
  on_new-Progress fuel transfer_cursor addr (root_update update) h =
      unconnected-Progress transfer_cursor addr update h
  on_new-Progress fuel transfer_cursor addr (root_update_response res) h = Progress-same S h.blockdb
  on_new-Progress fuel transfer_cursor addr (block_request req) h = Progress-same S h.blockdb
  on_new-Progress fuel transfer_cursor addr (block_request_response res) h =
      Progress-same S h.blockdb
  on_new-Progress fuel transfer_cursor addr (transfer_payload payload) h = Progress-same S h.blockdb
  on_new-Progress fuel transfer_cursor addr (transfer_status ranges) h = Progress-same S h.blockdb

  dispatched :
      (fuel transfer_cursor addr : ℕ) (msg : Message) (h : Handler)
      → OnSome (Goes h.blockdb) (dispatch S fuel transfer_cursor addr msg h)
  unfolding dispatch
  dispatched fuel transfer_cursor addr msg h = by_state (client_state addr h)
    where
      by_state :
          (s : ClientState) → OnSome (Goes h.blockdb) (route S fuel transfer_cursor addr msg h s)
      by_state known = on_known-Progress fuel addr msg h
      by_state new_client = on_new-Progress fuel transfer_cursor addr msg h

-- Whatever message comes, from whomever, if the node does not panic then no full block of its store is
-- lost or changed, and either the root stays, and the pending root too unless there was none, or the
-- pending root has become the root, and it is a full directory of which every child, and every child of the
-- directories below it, is in the store and full. This is not said of the leaves that a meta block lists.
pub dispatch-Progress :
    (S : Sealing) (fuel transfer_cursor addr : ℕ) (msg : Message) (h h' : Handler)
    (effects : List Effect)
    → dispatch S fuel transfer_cursor addr msg h ≡ some (h', effects)
    → Progress S h.blockdb h'.blockdb
dispatch-Progress S fuel transfer_cursor addr msg h h' effects e =
    OnSome-apply (Goes S h.blockdb) _ (h', effects) (dispatched S fuel transfer_cursor addr msg h) e
