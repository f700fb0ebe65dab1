-- ===== src/Scsync/Handler/Progress.antt =====
-- v2/scsync/src/handler.rs: what a message can do to the store of blocks.
use das_protokoll.Base.{
  ℕ, zero, suc, ◌≡◌, ◌≢◌, refl, sym, ◌∙◌, ap, Bool, none, some, List, Option-cases, inl, inr, ◌⊎◌,
  OnSome, OnSome-bind, All-imp,
}
use mathlib.Core.Option.{some-injective}
use das_protokoll.Base.Word.{sub64}
use das_protokoll.Scsync.BlockDb.{
  BlockRef, blockid, Block, Full, Partial, partial_block, full_block, BlockDb, get, add, contains,
  insert, lookup, id_of, partial, set_pending_root, try_promote,
}
use das_protokoll.Scsync.BlockDb.Store.{lookup-insert_self, lookup-insert_ne, try_promote_lem}
use das_protokoll.Scsync.Transfer.{
  Transfer, TransferPayload, BlockRequestResponse, transfer, store_chunk,
}
use das_protokoll.Scsync.Transfer
use das_protokoll.Scsync.Frontend.{
  BlockType, directory, Decoded, decoded_dir, decoded_meta, decoded_leaf, Sealing,
}
use das_protokoll.Scsync.Frontend.Visitor.Whole.{Whole, Below}

-- A full block stays as it is.
abbrev pub KeepsFull : BlockDb → BlockDb → Type 0
KeepsFull db db' =
    (id : ℕ) (f : Full) → get id db ≡ some (full_block f) → get id db' ≡ some (full_block f)

module _ (S : Sealing) where
  -- The store goes on: no full block is lost or changed, and the root and a pending root stay, or the
  -- pending root, below which all is there, becomes the root.
  pub data Progress (db db' : BlockDb) : Type 0 where
    waits :
        KeepsFull db db'
        → db'.root ≡ db.root
        → (db.pending_root ≡ none) ⊎ (db'.pending_root ≡ db.pending_root)
        → Progress db db'
    applies :
        KeepsFull db db'
        → db.pending_root ≡ some db'.root
        → db'.pending_root ≡ none
        → (n : ℕ) → Whole S db' n db'.root directory
        → Progress db db'

  pub Progress-same : (db : BlockDb) → Progress db db
  Progress-same db = waits (λ id f e. e) refl (inr refl)

  -- What is whole stays whole.
  pub Whole-KeepsFull :
      (db db' : BlockDb)
      → KeepsFull db db'
      → (n : ℕ) (ref : BlockRef) (kind : BlockType) → Whole S db n ref kind
      → Whole S db' n ref kind
  unfolding Whole
  Whole-KeepsFull db db' keeps zero ref kind w = w
  Whole-KeepsFull db db' keeps (suc n) ref kind (f, dec, e, d, below) = (
    f,
    dec,
    keeps (blockid ref) f e,
    d,
    inside dec (λ ref' kind'. Whole-KeepsFull db db' keeps n ref' kind') below,
  )
    where
      inside :
          (dec : Decoded)
          → ((ref' : BlockRef) (kind' : BlockType)
              → Whole S db n ref' kind'
              → Whole S db' n ref' kind')
          → Below (Whole S db n) dec
          → Below (Whole S db' n) dec
      inside (decoded_dir dir) go b =
          All-imp (λ c. Whole S db n c.blockref c.kind) (λ c. Whole S db' n c.blockref c.kind)
            dir.children (λ c. go c.blockref c.kind) b
      inside (decoded_meta m) go b = tt
      inside (decoded_leaf l) go b = tt

-- The store keeps its full blocks and its roots.
pub record Filled (db db' : BlockDb) : Type 0 where
  pub keeps : KeepsFull db db'
  pub same_root : db'.root ≡ db.root
  pub same_pending : db'.pending_root ≡ db.pending_root

pub Filled-same : (db : BlockDb) → Filled db db
Filled-same db = record { keeps = λ id f e. e; same_root = refl; same_pending = refl }

pub Filled-Progress : (S : Sealing) (db db' : BlockDb) → Filled db db' → Progress S db db'
Filled-Progress S db db' f = waits f.keeps f.same_root (inr f.same_pending)

-- The block that has an id is not replaced, and another is not touched.
pub add-Filled : (b : Block) (db : BlockDb) → Filled db (add b db)
unfolding add contains
add-Filled b db = elim (Option-cases (get (id_of b) db)) [
  | inl absent ↦
      let none_there : lookup (id_of b) db.blocks ≡ none = unfold get in absent in
      rw none_there (record {
        keeps = λ id f e.
            let ne : id_of b ≢ id =
              λ (same : id_of b ≡ id). cc (sym absent ∙ ap (λ i. get i db) same ∙ e) in
            unfold get in (lookup-insert_ne (id_of b) id b db.blocks ne ∙ e);
        same_root = refl;
        same_pending = refl;
      })
  | inr (c, present) ↦
      let there : lookup (id_of b) db.blocks ≡ some c = unfold get in present in
      rw there (Filled-same db)
]

pub payload-Filled :
    (chunk : TransferPayload) (ts : List Transfer) (db : BlockDb)
    → OnSome
        (λ ((db', promoted) : BlockDb × Bool). Filled db db')
        (Transfer.transfer_payload chunk ts db)
unfolding Transfer.transfer_payload
payload-Filled chunk ts db = OnSome-bind _ (transfer chunk.chunkid ts) _ λ t _.
    OnSome-bind _ (get t.blockid db) _ λ block g. OnSome-bind _ (partial block) _ λ p e.
      OnSome-bind _ (store_chunk (sub64 chunk.chunkid t.start) chunk.bytes p) _
        λ p' _. promoting t p p' (is_partial t block p g e)
  where
    is_partial :
        (t : Transfer) (block : Block) (p : Partial)
        → get t.blockid db ≡ some block
        → partial block ≡ some p
        → get t.blockid db ≡ some (partial_block p)
    is_partial t (partial_block q) p g e =
        g ∙ ap (λ q'. some (partial_block q')) (some-injective _ _ e)
    is_partial t (full_block f) p g e = cc

    promoting :
        (t : Transfer) (p p' : Partial)
        → get t.blockid db ≡ some (partial_block p)
        → OnSome
            (λ ((db', promoted) : BlockDb × Bool). Filled db db')
            (try_promote t.blockid
              (record db { blocks = insert t.blockid (partial_block p') db.blocks }))
    promoting t p p' g =
        let db1 : BlockDb = record db { blocks = insert t.blockid (partial_block p') db.blocks } in
        let stored : get t.blockid db1 ≡ some (partial_block p') =
          unfold get in lookup-insert_self t.blockid (partial_block p') db.blocks in
        let apart : (id : ℕ) (f : Full) → get id db ≡ some (full_block f) → t.blockid ≢ id =
          λ id f e same. cc (sym g ∙ ap (λ i. get i db) same ∙ e) in
        let kept : KeepsFull db db1 = λ id f e.
          unfold get in
          (lookup-insert_ne t.blockid id (partial_block p') db.blocks (apart id f e) ∙ e) in
        elim (try_promote_lem t.blockid p' db1 stored) [
          | inl (all, db', e, now, others, root, pending) ↦ rw e (record {
            keeps = λ id f h. others id (apart id f h) ∙ kept id f h;
            same_root = root;
            same_pending = pending;
          })
          | inr (missing, e) ↦ rw e (record { keeps = kept; same_root = refl; same_pending = refl })
        ]

pub set_pending_root-KeepsFull :
    (ref : BlockRef) (db : BlockDb) → KeepsFull db (set_pending_root ref db)
unfolding get
set_pending_root-KeepsFull ref db id f e = e

-- A store that goes on after it was filled goes on from the start.
pub Filled-then :
    (S : Sealing) (db db1 db2 : BlockDb) → Filled db db1 → Progress S db1 db2 → Progress S db db2
Filled-then S db db1 db2 f (waits k root (inl idle)) =
    waits (λ id g e. k id g (f.keeps id g e)) (root ∙ f.same_root) (inl (sym f.same_pending ∙ idle))
Filled-then S db db1 db2 f (waits k root (inr same)) =
    waits (λ id g e. k id g (f.keeps id g e)) (root ∙ f.same_root) (inr (same ∙ f.same_pending))
Filled-then S db db1 db2 f (applies k was now n whole) =
    applies (λ id g e. k id g (f.keeps id g e)) (sym f.same_pending ∙ was) now n whole
