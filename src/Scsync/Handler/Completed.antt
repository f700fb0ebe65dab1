-- ===== src/Scsync/Handler/Completed.antt =====
-- v2/scsync/src/handler.rs: what a completed update has done.
use das_protokoll.Base.{
  ℕ, ◌≡◌, ap, Option, none, some, List, ◌∷◌, ◌++◌, ◌>>=◌, In, In-append_left, In-map,
}
use das_protokoll.Base.Assoc.{find_key, find_key-In}
use das_protokoll.Scsync.BlockDb.{
  BlockRef, blockid, key, BlockDb, Full, full_block, get, apply_pending,
}
use das_protokoll.Scsync.Codec.{root_update_response}
use das_protokoll.Scsync.Frontend.{Dir, Sealing, dir_from_full}
use das_protokoll.Scsync.Frontend.Folder.Tree.{entries, Entries}
use das_protokoll.Scsync.Frontend.Folder.Stored.{StoredAll}
use das_protokoll.Scsync.Frontend.Disk.{folder_node, find, remove_under}
use das_protokoll.Scsync.Frontend.Disk.Written.{written}
use das_protokoll.Scsync.Handler.{Client, Handler, Effect, send, tell_all}

-- The nodes that are told of the new root.
abbrev pub Told : Handler → BlockRef → List Effect → Type 0
Told h root effects =
    (other : ℕ) (c : Client)
    → find_key other h.clients ≡ some c
    → In
        (send
          (root_update_response (record {
            from_blockid = blockid h.blockdb.root;
            to_blockid = blockid root;
            to_key = key root;
          }))
          other)
        effects

pub told_lem :
    (h : Handler) (root : BlockRef) (rest : List Effect)
    → Told h root (
        tell_all
          (record {
            from_blockid = blockid h.blockdb.root;
            to_blockid = blockid root;
            to_key = key root;
          })
          h.clients
        ++ rest)
told_lem h root rest other c e = In-append_left _ _ rest (
    In-map
      (λ ((addr, client) : ℕ × Client).
        send
          (root_update_response (record {
            from_blockid = blockid h.blockdb.root;
            to_blockid = blockid root;
            to_key = key root;
          }))
          addr)
      (other, c) h.clients (find_key-In other c h.clients e))

abbrev pub applied : BlockDb → BlockRef → BlockDb
applied db root = record db { root = root; pending_root = none }

pub apply_pending-some :
    (db : BlockDb) (root : BlockRef)
    → db.pending_root ≡ some root
    → apply_pending db ≡ some (applied db root, db.root)
unfolding apply_pending
apply_pending-some db root e = ap (λ o. o >>= λ r. some (applied db r, db.root)) e

-- The store holds the folder below the reference.
abbrev pub HoldsFolder : Sealing → (ℕ → ℕ) → BlockDb → BlockRef → Entries → Type 0
HoldsFolder S text db root es =
    (f : Full) × (d : Dir) × (get (blockid root) db ≡ some (full_block f))
    × (dir_from_full S f (key root) ≡ some d)
    × StoredAll S text db.blocks es d.children

-- The folder that a node writes to is a folder, in a folder.
abbrev pub HasFolder : Handler → Type 0
HasFolder h =
    (name : ℕ) × (parent : List ℕ) × (h.folder ≡ name ∷ parent)
    × (find (name ∷ parent) h.disk ≡ some folder_node)
    × (find parent h.disk ≡ some folder_node)

abbrev pub Completed : ℕ → Handler → BlockRef → Entries → Option (Handler × List Effect) → Type 0
Completed addr h root es r =
    (h' : Handler) × (effects : List Effect) × (r ≡ some (h', effects))
    × (h'.blockdb.root ≡ root)
    × (h'.blockdb.pending_root ≡ none)
    × (h'.disk ≡ written h.folder (entries es) (remove_under h.folder h.disk))
    × (find_key addr h'.clients ≡ none)
    × Told h root effects
