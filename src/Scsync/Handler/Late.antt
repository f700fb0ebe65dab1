-- ===== src/Scsync/Handler/Late.antt =====
-- v2/scsync/src/handler.rs: a payload that comes again when its block is already complete.
use das_protokoll.Base.{
  ℕ, ◌≡◌, sym, ◌∙◌, ap, true, none, some, List, [], if◌then◌else◌, OnSome, OnSome-bind,
  OnSome-apply, if-cases, bind-none, bind-some, bind_absent, Option-cases, inl, inr,
}
use mathlib.Core.Path.{subst}
use mathlib.Core.Option.{some-injective}
use das_protokoll.Base.Assoc.{find_key, insert_key, find_key-insert_self, find_key-remove_self}
use das_protokoll.Scsync.BlockDb.{BlockDb, apply_pending}
use das_protokoll.Scsync.Transfer.{Transfer, TransferPayload, transfer}
use das_protokoll.Scsync.Transfer
use das_protokoll.Scsync.Frontend.{Sealing, Decoded}
use das_protokoll.Scsync.Frontend.Visitor.{resolve, verify}
use das_protokoll.Scsync.Frontend.Disk.{write_to_dir}
use das_protokoll.Scsync.Handler.{
  Client, TransferIn, Handler, Effect, remove_transfer, request_missing, named_by, finish_update,
  block_complete, handle_transfer_payload,
}
use das_protokoll.Scsync.Handler.Completing.{payload_step}
use das_protokoll.Scsync.Handler.Requests.{request_missing-transfer_in}

no_status :
    (S : Sealing) (fuel addr : ℕ) (chunk : TransferPayload) (h : Handler) (client : Client)
    → find_key addr h.clients ≡ some client
    → client.transfer_in.status_tx ≡ none
    → handle_transfer_payload S fuel addr chunk h ≡ none
unfolding handle_transfer_payload
no_status S fuel addr chunk h client found missing =
    bind-some (find_key addr h.clients) _ client found
    ∙ bind_absent client.transfer_in.status_tx _ missing

no_transfer :
    (S : Sealing) (fuel addr : ℕ) (chunk : TransferPayload) (h : Handler) (client : Client)
    → find_key addr h.clients ≡ some client
    → transfer chunk.chunkid client.transfer_in.transfers ≡ none
    → handle_transfer_payload S fuel addr chunk h ≡ none
unfolding handle_transfer_payload
no_transfer S fuel addr chunk h client found missing =
    bind-some (find_key addr h.clients) _ client found
    ∙ bind-none client.transfer_in.status_tx _
        (λ status _. bind_absent (transfer chunk.chunkid client.transfer_in.transfers) _ missing)

module _ (S : Sealing) (fuel addr chunkid : ℕ) where
  -- No transfer of the client has the chunk id.
  abbrev IsLate : Handler × List Effect → Type 0
  IsLate (h, effects) =
      (c : Client)
      → find_key addr h.clients ≡ some c
      → transfer chunkid c.transfer_in.transfers ≡ none

  finish_update-IsLate : (h : Handler) → OnSome IsLate (finish_update S fuel addr h)
  unfolding finish_update
  finish_update-IsLate h = OnSome-bind _ (apply_pending h.blockdb) _ λ (db, from) _.
      OnSome-bind _ (write_to_dir S db fuel h.folder h.disk) _
        λ disk _ c e. cc (sym (find_key-remove_self addr h.clients) ∙ e)

  still_client :
      (dec : Decoded) (client : Client) (h : Handler) (ts ts' : List Transfer)
      → transfer chunkid ts ≡ none
      → ts ≡ ts'
      → (c : Client)
      → find_key addr (
          insert_key addr
            ((request_missing addr h.blockdb
              (named_by dec)
              h.channels
              (record client { transfer_in = record client.transfer_in { transfers = ts' } })).0)
            h.clients)
        ≡ some c
      → transfer chunkid c.transfer_in.transfers ≡ none
  still_client dec client h ts ts' gone same c e =
      let without : Client = record client {
        transfer_in = record client.transfer_in { transfers = ts' };
      } in
      let asked = (request_missing addr h.blockdb (named_by dec) h.channels without).0 in
      let it : asked ≡ c =
        some-injective _ _ (sym (find_key-insert_self addr asked h.clients) ∙ e) in
      let its : asked.transfer_in ≡ without.transfer_in =
        request_missing-transfer_in addr h.blockdb (named_by dec) h.channels without in
      ap (λ (d : Client). transfer chunkid d.transfer_in.transfers) (sym it)
      ∙ ap (λ (i : TransferIn). transfer chunkid i.transfers) its
      ∙ ap (transfer chunkid) (sym same)
      ∙ gone

  block_complete-IsLate :
      (t : Transfer) (client : Client) (h : Handler) (ts : List Transfer)
      → remove_transfer t client.transfer_in.transfers ≡ some ts
      → transfer chunkid ts ≡ none
      → OnSome IsLate (block_complete S fuel addr t client h)
  unfolding block_complete
  block_complete-IsLate t client h ts removed gone =
      OnSome-bind _ (remove_transfer t client.transfer_in.transfers) _ λ ts' er.
        OnSome-bind _ (resolve S fuel h.blockdb t.blockid true) _ λ dec _.
          OnSome-bind _ (verify S fuel h.blockdb true) _ λ whole v.
            OnSome-bind _ (if whole then finish_update S fuel addr _ else some (_, [])) _ λ r e.
              OnSome-apply IsLate _ r
                (if-cases (OnSome IsLate) whole _ _ (λ is_whole. finish_update-IsLate _)
                  (λ lacks.
                    still_client dec client h ts ts' gone (some-injective _ _ (sym removed ∙ er))))
                e

payload-IsLate :
    (S : Sealing) (fuel addr : ℕ) (chunk : TransferPayload) (h : Handler) (client : Client)
    (t : Transfer) (ts : List Transfer) (db : BlockDb)
    → find_key addr h.clients ≡ some client
    → transfer chunk.chunkid client.transfer_in.transfers ≡ some t
    → remove_transfer t client.transfer_in.transfers ≡ some ts
    → transfer chunk.chunkid ts ≡ none
    → Transfer.transfer_payload chunk client.transfer_in.transfers h.blockdb ≡ some (db, true)
    → OnSome (IsLate S fuel addr chunk.chunkid) (handle_transfer_payload S fuel addr chunk h)
payload-IsLate S fuel addr chunk h client t ts db found et removed gone ep =
    elim (Option-cases client.transfer_in.status_tx) [
      | inl missing ↦
          subst (OnSome (IsLate S fuel addr chunk.chunkid))
            (sym (no_status S fuel addr chunk h client found missing)) tt
      | inr (status, tx) ↦
          subst (OnSome (IsLate S fuel addr chunk.chunkid))
            (sym (payload_step S fuel addr chunk h client status t db found tx et ep))
            (OnSome-bind _ (block_complete S fuel addr t client (record h { blockdb = db })) _
              λ r er.
                OnSome-apply (IsLate S fuel addr chunk.chunkid) _ r
                  (block_complete-IsLate S fuel addr chunk.chunkid t client
                    (record h { blockdb = db }) ts removed gone)
                  er)
    ]

-- A payload that completed a block and comes again, as a datagram that is repeated does, makes the node
-- panic if the sender is still a client, since the transfer is gone. No other transfer of the client has
-- the chunk id.
pub late_payload :
    (S : Sealing) (fuel addr : ℕ) (chunk : TransferPayload) (h h' : Handler) (effects : List Effect)
    (client client' : Client) (t : Transfer) (ts : List Transfer) (db : BlockDb)
    → find_key addr h.clients ≡ some client
    → transfer chunk.chunkid client.transfer_in.transfers ≡ some t
    → remove_transfer t client.transfer_in.transfers ≡ some ts
    → transfer chunk.chunkid ts ≡ none
    → Transfer.transfer_payload chunk client.transfer_in.transfers h.blockdb ≡ some (db, true)
    → handle_transfer_payload S fuel addr chunk h ≡ some (h', effects)
    → find_key addr h'.clients ≡ some client'
    → handle_transfer_payload S fuel addr chunk h' ≡ none
late_payload S fuel addr chunk h h' effects client client' t ts db found et removed gone ep e
      still =
    no_transfer S fuel addr chunk h' client' still (
      OnSome-apply (IsLate S fuel addr chunk.chunkid) _ (h', effects)
        (payload-IsLate S fuel addr chunk h client t ts db found et removed gone ep) e client'
        still)
