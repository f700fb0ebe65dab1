-- ===== src/Scsync/Handler/Reports.antt =====
-- v2/scsync/src/handler.rs: the transfers of a client and its task for the status updates.
use das_protokoll.Base.{
  ℕ, ◌≡◌, ◌≢◌, refl, sym, ap, Bool, true, not, Option, some, List, [], ◌∷◌, ◌++◌, if◌then◌else◌,
  ◌==◌, ==_iff, inl, inr, OnSome, OnSome-bind, OnSome-apply, if-cases, length,
}
use mathlib.Core.Path.{subst}
use das_protokoll.Base.Assoc.{find_key, insert_key}
use das_protokoll.Scsync.BlockDb.{blockid, is_some, apply_pending}
use das_protokoll.Scsync.Transfer.{Transfer, TransferPayload, BlockRequestResponse, transfer}
use das_protokoll.Scsync.Transfer
use das_protokoll.Scsync.Codec.{
  transfer_payload, transfer_status, root_update, root_update_response, block_request,
  block_request_response,
}
use das_protokoll.Scsync.Frontend.{Sealing, Decoded}
use das_protokoll.Scsync.Frontend.Visitor.{verify, resolve}
use das_protokoll.Scsync.Frontend.Disk.{write_to_dir}
use das_protokoll.Scsync.Handler.{
  RootUpdate, Message, Client, Handler, send_block_request, unconnected_root_update, connect,
  handle_root_update_response, handle_block_request, handle_block_request_response, request_missing,
  finish_update, block_complete, handle_transfer_payload, handle_transfer_status, on_known, on_new,
  route, dispatch, client_state, ClientState, known, new_client, remove_transfer, named_by,
  needs_update,
}
use das_protokoll.Scsync.Handler.Requests.{request_missing-transfer_in}
use das_protokoll.Scsync.Handler.Reachable.{message, connecting, Reach, here, next}
use das_protokoll.Scsync.Handler.Channels.{
  Reports, AllReport, AllReport-insert, AllReport-remove, Keeps,
}

-- There is no transfer, or a channel to the task.

module _ (S : Sealing) where
  unconnected-Keeps :
      (transfer_cursor addr : ℕ) (update : RootUpdate) (h : Handler)
      → AllReport h.clients
      → Keeps (unconnected_root_update transfer_cursor addr update h)
  unfolding unconnected_root_update send_block_request
  unconnected-Keeps transfer_cursor addr update h all =
      if-cases Keeps (blockid update.to_blockref == blockid h.blockdb.root) _ _ (λ same. all)
        (λ other.
          if-cases Keeps (is_some h.blockdb.pending_root) _ _ (λ busy. all)
            (λ idle. AllReport-insert addr _ h.clients (inl refl) all))

  response-Keeps :
      (addr : ℕ) (res : BlockRequestResponse) (h : Handler)
      → AllReport h.clients
      → OnSome Keeps (handle_block_request_response addr res h)
  unfolding handle_block_request_response Transfer.block_request_response
  response-Keeps addr res h all = OnSome-bind _ (find_key addr h.clients) _ λ client found.
      AllReport-insert addr _ h.clients
        (launched client (all addr client found)
          (record { blockid = res.blockid; start = res.start_id; end = res.end_id }))
        all
    where
      launched :
          (client : Client)
          → Reports client.transfer_in
          → (t : Transfer)
          → Reports (record {
            transfers = client.transfer_in.transfers ++ t ∷ [];
            status_tx =
                if length (client.transfer_in.transfers ++ t ∷ []) == 1
                then some h.channels
                else client.transfer_in.status_tx;
          })
      launched client (inl empty) t =
          let one : length (client.transfer_in.transfers ++ t ∷ []) ≡ 1 =
            ap (λ (ts : List Transfer). length (ts ++ t ∷ [])) empty in
          inr (
            h.channels,
            ap (λ (b : Bool). if b then some h.channels else client.transfer_in.status_tx)
                ((==_iff (length (client.transfer_in.transfers ++ t ∷ [])) 1).1 one),
          )
      launched client (inr (channel, e)) t = inr (
          if-cases (λ (o : Option ℕ). (ch : ℕ) × (o ≡ some ch))
            (length (client.transfer_in.transfers ++ t ∷ []) == 1) _ _ (λ first. (h.channels, refl))
            (λ more. (channel, e)))

  finish-Keeps :
      (fuel addr : ℕ) (h : Handler)
      → AllReport h.clients
      → OnSome Keeps (finish_update S fuel addr h)
  unfolding finish_update
  finish-Keeps fuel addr h all = OnSome-bind _ (apply_pending h.blockdb) _ λ (db, from) _.
      OnSome-bind _ (write_to_dir S db fuel h.folder h.disk) _
        λ disk _. AllReport-remove addr h.clients all

  complete-Keeps :
      (fuel addr : ℕ) (t : Transfer) (client : Client) (channel : ℕ) (h : Handler)
      → client.transfer_in.status_tx ≡ some channel
      → AllReport h.clients
      → OnSome Keeps (block_complete S fuel addr t client h)
  unfolding block_complete
  complete-Keeps fuel addr t client channel h tx all =
      OnSome-bind _ (remove_transfer t client.transfer_in.transfers) _ λ transfers _.
        OnSome-bind _ (resolve S fuel h.blockdb t.blockid true) _ λ dec _.
          OnSome-bind _ (verify S fuel h.blockdb true) _ λ whole v.
            OnSome-bind _ (if whole then finish_update S fuel addr _ else some (_, [])) _ λ r e.
              OnSome-apply Keeps _ r
                (if-cases (OnSome Keeps) whole _ _
                  (λ is_whole. finish-Keeps fuel addr _ (asked transfers dec))
                  (λ lacks. asked transfers dec))
                e
    where
      asked :
          (transfers : List Transfer) (dec : Decoded)
          → AllReport (
              insert_key addr
                ((request_missing addr h.blockdb (named_by dec) h.channels (record client {
                  transfer_in = record client.transfer_in { transfers = transfers };
                })).0)
                h.clients)
      asked transfers dec =
          AllReport-insert addr _ h.clients
            (subst Reports
              (sym (
                request_missing-transfer_in addr h.blockdb (named_by dec) h.channels
                  (record client {
                    transfer_in = record client.transfer_in { transfers = transfers };
                  })))
              (inr (channel, tx)))
            all

  payload-Keeps :
      (fuel addr : ℕ) (chunk : TransferPayload) (h : Handler)
      → AllReport h.clients
      → OnSome Keeps (handle_transfer_payload S fuel addr chunk h)
  unfolding handle_transfer_payload
  payload-Keeps fuel addr chunk h all = OnSome-bind _ (find_key addr h.clients) _ λ client _.
      OnSome-bind _ client.transfer_in.status_tx _ λ status tx.
        OnSome-bind _ (transfer chunk.chunkid client.transfer_in.transfers) _ λ t _.
          OnSome-bind _ (Transfer.transfer_payload chunk client.transfer_in.transfers h.blockdb) _
            λ (db, promoted) _.
              OnSome-bind _
                (if promoted
                  then block_complete S fuel addr t client (record h { blockdb = db })
                  else some (record h { blockdb = db }, []))
                _
                λ r e.
                  OnSome-apply Keeps _ r
                    (if-cases (OnSome Keeps) promoted _ _
                      (λ done.
                        complete-Keeps fuel addr t client status (record h { blockdb = db }) tx all)
                      (λ partly. all))
                    e

  on_known-Keeps :
      (fuel addr : ℕ) (msg : Message) (h : Handler)
      → AllReport h.clients
      → OnSome Keeps (on_known S fuel addr msg h)
  unfolding on_known handle_root_update_response handle_block_request handle_transfer_status
  on_known-Keeps fuel addr (root_update update) h all = all
  on_known-Keeps fuel addr (root_update_response res) h all =
      if-cases (OnSome Keeps) (not (needs_update res h)) _ _ (λ current. all)
        (λ stale.
          OnSome-bind _ (find_key addr h.clients) _
            λ client found. AllReport-insert addr _ h.clients (all addr client found) all)
  on_known-Keeps fuel addr (block_request req) h all =
      OnSome-bind _ (find_key addr h.clients) _ λ client found.
        OnSome-bind _ (Transfer.block_request req.blockid h.blockdb client.transfer_out) _
          λ r _. AllReport-insert addr _ h.clients (all addr client found) all
  on_known-Keeps fuel addr (block_request_response res) h all = response-Keeps addr res h all
  on_known-Keeps fuel addr (transfer_payload payload) h all = payload-Keeps fuel addr payload h all
  on_known-Keeps fuel addr (transfer_status ranges) h all =
      OnSome-bind _ (find_key addr h.clients) _
        λ client found. AllReport-insert addr _ h.clients (all addr client found) all

  on_new-Keeps :
      (fuel transfer_cursor addr : ℕ) (msg : Message) (h : Handler)
      → AllReport h.clients
      → Keeps (on_new S fuel transfer_cursor addr msg h)
  on_new-Keeps fuel transfer_cursor addr (root_update update) h all =
      unconnected-Keeps transfer_cursor addr update h all
  on_new-Keeps fuel transfer_cursor addr (root_update_response res) h all = all
  on_new-Keeps fuel transfer_cursor addr (block_request req) h all = all
  on_new-Keeps fuel transfer_cursor addr (block_request_response res) h all = all
  on_new-Keeps fuel transfer_cursor addr (transfer_payload payload) h all = all
  on_new-Keeps fuel transfer_cursor addr (transfer_status ranges) h all = all

  dispatch-Keeps :
      (fuel transfer_cursor addr : ℕ) (msg : Message) (h : Handler)
      → AllReport h.clients
      → OnSome Keeps (dispatch S fuel transfer_cursor addr msg h)
  unfolding dispatch
  dispatch-Keeps fuel transfer_cursor addr msg h all = by_state (client_state addr h)
    where
      by_state : (s : ClientState) → OnSome Keeps (route S fuel transfer_cursor addr msg h s)
      by_state known = on_known-Keeps fuel addr msg h all
      by_state new_client = on_new-Keeps fuel transfer_cursor addr msg h all

  reach-Keeps : {h h' : Handler} → Reach S h h' → AllReport h.clients → AllReport h'.clients
  unfolding connect
  reach-Keeps here all = all
  reach-Keeps (next {g = g} r (message fuel transfer_cursor addr msg k effects e)) all =
      OnSome-apply Keeps _ (k, effects)
        (dispatch-Keeps fuel transfer_cursor addr msg g (reach-Keeps r all)) e
  reach-Keeps (next {g = g} r (connecting transfer_cursor nonce srv)) all =
      AllReport-insert srv _ g.clients (inl refl) (reach-Keeps r all)

no_chunk :
    (chunkid : ℕ) (ts : List Transfer) (t : Transfer) → ts ≡ [] → transfer chunkid ts ≢ some t
unfolding transfer
no_chunk chunkid [] t empty e = cc
no_chunk chunkid (u ∷ ts) t empty e = cc

no_clients : (clients : List (ℕ × Client)) → clients ≡ [] → AllReport clients
unfolding find_key
no_clients [] empty other c e = cc
no_clients (x ∷ clients) empty other c e = cc

-- In every state that a node without clients can reach, whatever messages come, a client for which a
-- chunk id has a transfer has a channel to the task for the status updates, so that a payload of that
-- transfer finds one to tell.
pub Reach-status_tx :
    (S : Sealing) (h h' : Handler) (addr chunkid : ℕ) (client : Client) (t : Transfer)
    → h.clients ≡ []
    → Reach S h h'
    → find_key addr h'.clients ≡ some client
    → transfer chunkid client.transfer_in.transfers ≡ some t
    → (channel : ℕ) × (client.transfer_in.status_tx ≡ some channel)
Reach-status_tx S h h' addr chunkid client t start r found et =
    elim (reach-Keeps S r (no_clients h.clients start) addr client found) [
      | inl empty ↦ absurd (no_chunk chunkid client.transfer_in.transfers t empty et)
      | inr channel ↦ channel
    ]
