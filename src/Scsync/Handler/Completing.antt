-- ===== src/Scsync/Handler/Completing.antt =====
-- v2/scsync/src/handler.rs: the payload that completes a block, and an update.
use das_protokoll.Base.{
  ℕ, zero, suc, ◌<◌, ◌≡◌, refl, sym, ◌∙◌, ap, Bool, true, Option, some, List, [], ◌∷◌, ◌++◌, ◌>>=◌,
  ◌==◌, ==_iff, ◌&&◌, ltb, leb, arith, Bool-cases, inl, inr, In, In-append_right, bind-some,
  All-imp, OnSome-apply, if-cases,
}
use mathlib.Core.Path.{subst}
use mathlib.Core.Option.{some-injective}
use das_protokoll.Base.Assoc.{
  find_key, insert_key, remove_key, find_key-insert_self, find_key-insert_ne, find_key-remove_self,
}
use das_protokoll.Scsync.BlockDb.{BlockRef, blockid, key, BlockDb, get}
use das_protokoll.Scsync.Transfer.{Transfer, TransferPayload, transfer}
use das_protokoll.Scsync.Transfer
use das_protokoll.Scsync.Codec.{root_update_response}
use das_protokoll.Scsync.Frontend.{
  BlockType, directory, Decoded, decoded_dir, decoded_meta, decoded_leaf, Sealing,
}
use das_protokoll.Scsync.Frontend.Visitor.Whole.{Whole, Below, verify-Whole}
use das_protokoll.Scsync.Frontend.Visitor.Finding.{Resolves}
use das_protokoll.Scsync.Frontend.Visitor.Resolving.{Readable, resolve_reached}
use das_protokoll.Scsync.Frontend.Folder.Tree.{entries, Entries, depth, ProperEntries}
use das_protokoll.Scsync.Frontend.Disk.{remove_under, write_to_dir}
use das_protokoll.Scsync.Frontend.Disk.Unpacking.{write_to_dir-written}
use das_protokoll.Scsync.Frontend.Disk.Written.{written}
use das_protokoll.Scsync.Frontend.Disk.RoundTrip.{stored-Whole}
use das_protokoll.Scsync.Handler.Progress.{Filled, payload-Filled}
use das_protokoll.Scsync.Handler.{
  Client, Handler, Effect, send, status_due, same_transfer, remove_transfer, request_missing,
  named_by, dropped, finish_update, block_complete, handle_transfer_payload,
}
use das_protokoll.Scsync.Handler.Completed.{
  Told, told_lem, applied, apply_pending-some, HoldsFolder, HasFolder, Completed,
}

same_self : (t : Transfer) → same_transfer t t ≡ true
same_self t =
    rw
      (
        (==_iff t.blockid t.blockid).1 refl,
        (==_iff t.start t.start).1 refl,
        (==_iff t.end t.end).1 refl,
      )
      refl

-- A transfer that was found can be removed.
transfer-remove :
    (chunkid : ℕ) (ts : List Transfer) (t : Transfer)
    → transfer chunkid ts ≡ some t
    → (ts' : List Transfer) × (remove_transfer t ts ≡ some ts')
unfolding transfer remove_transfer
transfer-remove chunkid [] t e = cc
transfer-remove chunkid (u ∷ us) t e =
    if-cases (λ (o : Option (List Transfer)). (ts' : List Transfer) × (o ≡ some ts'))
      (same_transfer u t) _ _ (λ same. (us, refl))
      (λ differs. elim (Bool-cases (leb u.start chunkid && ltb chunkid u.end)) [
        | inl here ↦
            let same : u ≡ t = some-injective _ _ (rw here at e) in
            absurd (cc (sym differs ∙ ap (λ v. same_transfer v t) same ∙ same_self t))
        | inr later ↦
            let (ts', removed) = transfer-remove chunkid us t (rw later at e) in
            (u ∷ ts', rw removed refl)
      ])

module _ (S : Sealing) (db : BlockDb) where
  -- What is whole is readable.
  Whole-Readable :
      (n : ℕ) (ref : BlockRef) (kind : BlockType) → Whole S db n ref kind → Readable S db n ref kind
  unfolding Whole Readable
  Whole-Readable zero ref kind w = w
  Whole-Readable (suc n) ref kind (f, dec, e, d, below) =
      inr (f, dec, e, d, inside dec (λ r k. Whole-Readable n r k) below)
    where
      inside :
          (dec : Decoded)
          → ((r : BlockRef) (k : BlockType) → Whole S db n r k → Readable S db n r k)
          → Below (Whole S db n) dec
          → Below (Readable S db n) dec
      inside (decoded_dir dir) go b =
          All-imp (λ c. Whole S db n c.blockref c.kind) (λ c. Readable S db n c.blockref c.kind)
            dir.children (λ c. go c.blockref c.kind) b
      inside (decoded_meta m) go b = tt
      inside (decoded_leaf l) go b = tt

module _ (S : Sealing) (text : ℕ → ℕ) (fuel addr : ℕ) (root : BlockRef) (es : Entries)
    (proper : ProperEntries text es) (deep : depth (entries es) < fuel) where
  written_folder :
      (h : Handler)
      → HoldsFolder S text h.blockdb root es
      → HasFolder h
      → write_to_dir S (applied h.blockdb root) fuel h.folder h.disk
        ≡ some (written h.folder (entries es) (remove_under h.folder h.disk))
  written_folder h (f, d, g, e, all) (name, parent, folder, top, up) =
      subst
        (λ path.
          write_to_dir S (applied h.blockdb root) fuel path h.disk
          ≡ some (written path (entries es) (remove_under path h.disk)))
        (sym folder)
        (write_to_dir-written S text fuel (applied h.blockdb root) name parent h.disk es f d
          (unfold get in (unfold get in g)) e all proper (omega (arith, deep)) top up)

  finish_update-Completed :
      (h : Handler)
      → h.blockdb.pending_root ≡ some root
      → HoldsFolder S text h.blockdb root es
      → HasFolder h
      → Completed addr h root es (finish_update S fuel addr h)
  unfolding finish_update
  finish_update-Completed h pending holds folder = (
    record h {
      blockdb = applied h.blockdb root;
      disk = written h.folder (entries es) (remove_under h.folder h.disk);
      clients = remove_key addr h.clients;
    },
    _,
    rw (apply_pending-some h.blockdb root pending, written_folder h holds folder) refl,
    refl,
    refl,
    refl,
    find_key-remove_self addr h.clients,
    told_lem h root (dropped (find_key addr h.clients)),
  )

  -- The client's entry is another, but there is one.
  Told-insert :
      (h : Handler) (client : Client) (channels : ℕ) (effects : List Effect)
      → Told
          (record h { clients = insert_key addr client h.clients; channels = channels })
          root
          effects
      → Told h root effects
  Told-insert h client channels effects told other c e = elim (Bool-cases (addr == other)) [
    | inl same ↦ told other client (
        ap (λ i. find_key i (insert_key addr client h.clients)) (sym ((==_iff addr other).0 same))
        ∙ find_key-insert_self addr client h.clients)
    | inr unlike ↦ told other c (
        find_key-insert_ne addr other client h.clients
          (λ (same : addr ≡ other). cc (sym unlike ∙ (==_iff addr other).1 same))
        ∙ e)
  ]

  block_complete-Completed :
      (t : Transfer) (client : Client) (h : Handler) (chunkid : ℕ) (dec : Decoded)
      → transfer chunkid client.transfer_in.transfers ≡ some t
      → h.blockdb.pending_root ≡ some root
      → HoldsFolder S text h.blockdb root es
      → HasFolder h
      → Resolves S h.blockdb root t.blockid dec
      → Completed addr h root es (block_complete S fuel addr t client h)
  unfolding block_complete
  block_complete-Completed t client h chunkid dec et pending holds folder part =
      let (ts, er) = transfer-remove chunkid client.transfer_in.transfers t et in
      let (f, d, g, ed, all) = holds in
      let whole = stored-Whole S text h.blockdb fuel root es f d g ed all deep in
      let (dec', found) =
        resolve_reached S fuel h.blockdb t.blockid true root f dec pending g
          (Whole-Readable S h.blockdb fuel root directory whole) part in
      let (client', channels, sent) =
        request_missing addr h.blockdb (named_by dec') h.channels
          (record client { transfer_in = record client.transfer_in { transfers = ts } }) in
      let h1 : Handler = record h {
        clients = insert_key addr client' h.clients;
        channels = channels;
      } in
      let (h', effects, e, er', ep', ed', ec', told) =
        finish_update-Completed h1 pending holds folder in
      (
        h',
        sent ++ effects,
        rw (er, found, (verify-Whole S fuel h.blockdb true root pending).1 whole, e) refl,
        er',
        ep',
        ed',
        ec',
        λ other c m.
            In-append_right _ sent effects (Told-insert h client' channels effects told other c m),
      )

-- A payload that completes a block.
pub payload_step :
    (S : Sealing) (fuel addr : ℕ) (chunk : TransferPayload) (h : Handler) (client : Client)
    (status : ℕ) (t : Transfer) (db : BlockDb)
    → find_key addr h.clients ≡ some client
    → client.transfer_in.status_tx ≡ some status
    → transfer chunk.chunkid client.transfer_in.transfers ≡ some t
    → Transfer.transfer_payload chunk client.transfer_in.transfers h.blockdb ≡ some (db, true)
    → handle_transfer_payload S fuel addr chunk h ≡ (do
      (h', done) ← block_complete S fuel addr t client (record h { blockdb = db })
      some (h', status_due status ∷ done))
unfolding handle_transfer_payload
payload_step S fuel addr chunk h client status t db found tx et ep =
    bind-some (find_key addr h.clients) _ client found
    ∙ bind-some client.transfer_in.status_tx _ status tx
    ∙ bind-some (transfer chunk.chunkid client.transfer_in.transfers) _ t et
    ∙ bind-some (Transfer.transfer_payload chunk client.transfer_in.transfers h.blockdb) _
        (db, true) ep

-- The payload of the last missing chunk: if with it the store holds a folder below the pending root, and
-- the chunk's block is part of that, the node does not panic. The pending root becomes the root, the node's
-- folder is written as that folder, every client is told of the new root, and the sender is a
-- client no more. The node's folder has to be a folder in a folder, the names in a folder have to
-- differ, and the fuel has to be more than there are levels.
pub update_complete :
    (S : Sealing) (text : ℕ → ℕ) (fuel addr : ℕ) (chunk : TransferPayload) (h : Handler)
    (client : Client) (status : ℕ) (t : Transfer) (db : BlockDb) (root : BlockRef) (es : Entries)
    (dec : Decoded)
    → ProperEntries text es
    → depth (entries es) < fuel
    → find_key addr h.clients ≡ some client
    → client.transfer_in.status_tx ≡ some status
    → transfer chunk.chunkid client.transfer_in.transfers ≡ some t
    → Transfer.transfer_payload chunk client.transfer_in.transfers h.blockdb ≡ some (db, true)
    → h.blockdb.pending_root ≡ some root
    → HoldsFolder S text db root es
    → Resolves S db root t.blockid dec
    → HasFolder h
    → Completed addr h root es (handle_transfer_payload S fuel addr chunk h)
update_complete S text fuel addr chunk h client status t db root es dec proper deep found tx et ep
      pending holds part folder =
    let filled =
      OnSome-apply (λ ((db', b) : BlockDb × Bool). Filled h.blockdb db') _ (db, true)
        (payload-Filled chunk client.transfer_in.transfers h.blockdb) ep in
    let (h', effects, e, er, en, ed, ec, told) =
      block_complete-Completed S text fuel addr root es proper deep t client
        (record h { blockdb = db }) chunk.chunkid dec et (filled.same_pending ∙ pending) holds
        folder part in
    (
      h',
      status_due status ∷ effects,
      payload_step S fuel addr chunk h client status t db found tx et ep
          ∙ bind-some (block_complete S fuel addr t client (record h { blockdb = db })) _
              (h', effects) e,
      er,
      en,
      ed,
      ec,
      λ other c m. inr (
          subst
            (λ old.
              In
                (send
                  (root_update_response (record {
                    from_blockid = blockid old;
                    to_blockid = blockid root;
                    to_key = key root;
                  }))
                  other)
                effects)
            filled.same_root (told other c m)),
    )
