-- ===== src/Scsync/Handler/Updates.antt =====
-- v2/scsync/src/handler.rs: how an update starts, and what the messages about a root do.
use das_protokoll.Base.{
  ℕ, suc, ◌≡◌, ◌≢◌, refl, sym, ◌∙◌, ap, true, false, none, some, List, [], ◌∷◌, ◌++◌, ◌>>=◌, ◌==◌,
  ==_iff, inl, inr, ◌⊎◌, In, In-append_right, if-cases, >>=-eq-some, bind-none,
}
use mathlib.Core.Path.{subst}
use mathlib.Core.Option.{some-injective}
use das_protokoll.Base.Assoc.{find_key, insert_key, find_key-insert_self, find_key-insert_ne}
use das_protokoll.Scsync.BlockDb.{BlockRef, blockid, key, BlockDb, is_some}
use das_protokoll.Scsync.BlockDb.Store.{is_some-none, is_some-some}
use das_protokoll.Scsync.Transfer.{Transfer, TransferPayload, transfer}
use das_protokoll.Scsync.Transfer
use das_protokoll.Scsync.Codec.{
  transfer_payload, transfer_status, root_update, root_update_response, block_request,
  block_request_response,
}
use das_protokoll.Scsync.Frontend.{Sealing}
use das_protokoll.Scsync.Frontend.Visitor.{resolve}
use das_protokoll.Scsync.Handler.{
  RootUpdate, RootUpdateResponse, Message, Client, Handler, Effect, send, spawn_retry, return_retry,
  cancel, each, dropped, send_block_request, unconnected_root_update, handle_root_update_response,
  handle_transfer_payload, block_complete, remove_transfer, on_new, dispatch,
}

-- The update is the root: the answer says so.
abbrev pub IsCurrent : ℕ → RootUpdate → Handler → Handler × List Effect → Type 0
IsCurrent addr update h r =
    (blockid update.to_blockref ≡ blockid h.blockdb.root)
    × (r ≡ (
      h,
      send
            (root_update_response (record {
              from_blockid = blockid h.blockdb.root;
              to_blockid = blockid h.blockdb.root;
              to_key = key h.blockdb.root;
            }))
            addr
          ∷ [],
    ))

-- The update becomes the pending root, and its block is requested from the node, which is now a client.
abbrev pub Opens : ℕ → RootUpdate → Handler → Handler × List Effect → Type 0
Opens addr update h (h', effects) =
    (blockid update.to_blockref ≢ blockid h.blockdb.root)
    × (h.blockdb.pending_root ≡ none)
    × (h'.blockdb ≡ record h.blockdb { pending_root = some update.to_blockref })
    × ((client : Client) × (find_key addr h'.clients ≡ some client)
        × (find_key (blockid update.to_blockref) client.pending_block_requests ≡ some h.channels)
        × (client.transfer_in.transfers ≡ []))
    × ((other : ℕ) → addr ≢ other → find_key other h'.clients ≡ find_key other h.clients)
    × In (spawn_retry h.channels addr (blockid update.to_blockref)) effects

-- Another update is pending: nothing happens.
abbrev pub IsIgnored : RootUpdate → Handler → Handler × List Effect → Type 0
IsIgnored update h r =
    (blockid update.to_blockref ≢ blockid h.blockdb.root)
    × ((ref : BlockRef) × (h.blockdb.pending_root ≡ some ref))
    × (r ≡ (h, []))

abbrev pub Answers : ℕ → RootUpdate → Handler → Handler × List Effect → Type 0
Answers addr update h r = IsCurrent addr update h r ⊎ (IsIgnored update h r ⊎ Opens addr update h r)

different : (a b : ℕ) → (a == b) ≡ false → a ≢ b
different a b h e = cc (sym h ∙ (==_iff a b).1 e)

-- A `RootUpdate` from a new node. If it names the root, the root is sent back. Otherwise, if another
-- update is pending, it is ignored; if none is, it becomes the pending root, the node becomes a client,
-- and its block is requested from it. The blocks and the root do not change.
pub unconnected_root_update_lem :
    (transfer_cursor addr : ℕ) (update : RootUpdate) (h : Handler)
    → Answers addr update h (unconnected_root_update transfer_cursor addr update h)
unfolding unconnected_root_update send_block_request
unconnected_root_update_lem transfer_cursor addr update h =
    if-cases (Answers addr update h) (blockid update.to_blockref == blockid h.blockdb.root) _ _
      (λ same. inl ((==_iff (blockid update.to_blockref) (blockid h.blockdb.root)).0 same, refl))
      (λ other.
        if-cases (Answers addr update h) (is_some h.blockdb.pending_root) _ _
          (λ busy. inr (inl (different _ _ other, is_some-some h.blockdb.pending_root busy, refl)))
          (λ idle. inr (
            inr (
              different _ _ other,
              is_some-none h.blockdb.pending_root idle,
              refl,
              (
                _,
                find_key-insert_self addr _ h.clients,
                find_key-insert_self (blockid update.to_blockref) h.channels [],
                refl,
              ),
              λ who ne. find_key-insert_ne addr who _ h.clients ne,
              In-append_right _ (dropped (find_key addr h.clients)) _ (
                  In-append_right _ (each cancel (find_key (blockid update.to_blockref) [])) _
                    (inl refl)),
            ))))

-- What a node that is not known can change.
abbrev pub Unharmed : ℕ → Handler → Handler × List Effect → Type 0
Unharmed addr h (h', effects) =
    (h'.blockdb.blocks ≡ h.blockdb.blocks)
    × (h'.blockdb.root ≡ h.blockdb.root)
    × (h'.disk ≡ h.disk)
    × ((other : ℕ) → addr ≢ other → find_key other h'.clients ≡ find_key other h.clients)

unconnected-Unharmed :
    (transfer_cursor addr : ℕ) (update : RootUpdate) (h : Handler)
    → Unharmed addr h (unconnected_root_update transfer_cursor addr update h)
unfolding unconnected_root_update
unconnected-Unharmed transfer_cursor addr update h =
    if-cases (Unharmed addr h) (blockid update.to_blockref == blockid h.blockdb.root) _ _
      (λ same. (refl, refl, refl, λ other ne. refl))
      (λ unlike.
        if-cases (Unharmed addr h) (is_some h.blockdb.pending_root) _ _
          (λ busy. (refl, refl, refl, λ other ne. refl))
          (λ idle. (refl, refl, refl, λ other ne. find_key-insert_ne addr other _ h.clients ne)))

-- No message from a node that is not known makes this one panic, and none changes its blocks, its root,
-- its folder or another client.
pub dispatch_unknown :
    (S : Sealing) (fuel transfer_cursor addr : ℕ) (msg : Message) (h : Handler)
    → find_key addr h.clients ≡ none
    → (r : Handler × List Effect) × (dispatch S fuel transfer_cursor addr msg h ≡ some r)
      × Unharmed addr h r
unfolding dispatch
dispatch_unknown S fuel transfer_cursor addr msg h unknown = rw unknown (_, refl, unharmed msg)
  where
    unharmed : (msg : Message) → Unharmed addr h (on_new S fuel transfer_cursor addr msg h)
    unharmed (root_update update) = unconnected-Unharmed transfer_cursor addr update h
    unharmed (root_update_response res) = (refl, refl, refl, λ other ne. refl)
    unharmed (block_request req) = (refl, refl, refl, λ other ne. refl)
    unharmed (block_request_response res) = (refl, refl, refl, λ other ne. refl)
    unharmed (transfer_payload payload) = (refl, refl, refl, λ other ne. refl)
    unharmed (transfer_status ranges) = (refl, refl, refl, λ other ne. refl)

abbrev waiting_for : RootUpdateResponse → Handler → Client → Client
waiting_for res h client = record client {
  pending_block_requests = insert_key res.to_blockid h.channels client.pending_block_requests;
}

abbrev waited : ℕ → RootUpdateResponse → Handler → Client → Handler × List Effect
waited addr res h client = (
  record h {
    clients = insert_key addr (waiting_for res h client) h.clients;
    channels = suc h.channels;
  },
  each cancel (find_key res.to_blockid client.pending_block_requests)
      ++ return_retry h.channels addr res.to_blockid ∷ [],
)

handle_known :
    (addr : ℕ) (res : RootUpdateResponse) (h : Handler) (client : Client)
    → find_key addr h.clients ≡ some client
    → handle_root_update_response addr res h ≡ some (waited addr res h client)
unfolding handle_root_update_response
handle_known addr res h client e = ap (λ o. o >>= λ c. some (waited addr res h c)) e

abbrev Repeats : ℕ → RootUpdateResponse → Handler → Handler × List Effect → Type 0
Repeats addr res h (h1, effects) =
    (h2 : Handler) × (effects' : List Effect) × (handle_root_update_response addr res h1
      ≡ some (h2, effects'))
    × In (return_retry h.channels addr res.to_blockid) effects
    × In (cancel h.channels) effects'

-- A response that comes twice before its block is granted: the second drops the channel of the first, so
-- that the task which repeats the first request, a part of the receiving task, gets an error. If the
-- first finds its client, so does the second.
pub repeated_response :
    (addr : ℕ) (res : RootUpdateResponse) (h h1 : Handler) (effects : List Effect)
    → handle_root_update_response addr res h ≡ some (h1, effects)
    → (h2 : Handler) × (effects' : List Effect) × (handle_root_update_response addr res h1
        ≡ some (h2, effects'))
      × In (return_retry h.channels addr res.to_blockid) effects
      × In (cancel h.channels) effects'
unfolding handle_root_update_response
repeated_response addr res h h1 effects e =
    let (client, found, made) = >>=-eq-some (find_key addr h.clients) _ e in
    subst (Repeats addr res h) (some-injective _ _ made) (
      (waited addr res ((waited addr res h client).0) (waiting_for res h client)).0,
      (waited addr res ((waited addr res h client).0) (waiting_for res h client)).1,
      handle_known addr res ((waited addr res h client).0) (waiting_for res h client)
          (find_key-insert_self addr (waiting_for res h client) h.clients),
      In-append_right _ (each cancel (find_key res.to_blockid client.pending_block_requests)) _
          (inl refl),
      rw (find_key-insert_self res.to_blockid h.channels client.pending_block_requests) (inl refl),
    )

unresolved :
    (S : Sealing) (fuel addr : ℕ) (t : Transfer) (client : Client) (h : Handler)
    → h.blockdb.pending_root ≡ none
    → block_complete S fuel addr t client h ≡ none
unfolding block_complete resolve
unresolved S fuel addr t client h e =
    bind-none (remove_transfer t client.transfer_in.transfers) _ λ transfers _. rw e refl

-- Without a pending root, as on a client that asks for the root that a server told it about, the payload
-- that completes a block makes the node panic.
pub no_pending_root :
    (S : Sealing) (fuel addr : ℕ) (chunk : TransferPayload) (h : Handler) (client : Client)
    (db : BlockDb)
    → find_key addr h.clients ≡ some client
    → Transfer.transfer_payload chunk client.transfer_in.transfers h.blockdb ≡ some (db, true)
    → db.pending_root ≡ none
    → handle_transfer_payload S fuel addr chunk h ≡ none
unfolding handle_transfer_payload
no_pending_root S fuel addr chunk h client db found promoted none_pending = rw found (
    bind-none client.transfer_in.status_tx _ λ status _.
      bind-none (transfer chunk.chunkid client.transfer_in.transfers) _ λ t _.
        rw (promoted, unresolved S fuel addr t client (record h { blockdb = db }) none_pending)
          refl)
