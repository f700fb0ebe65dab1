-- ===== src/Scsync/Frontend/Folder/Packing.antt =====
-- v2/scsync/src/frontend/mod.rs: the store that `blockdb_from_folder` makes of a folder.
use das_protokoll.Base.{
  ℕ, ◌≤◌, ◌≡◌, refl, sym, ◌∙◌, true, none, some, List, [], ◌∷◌, ◌++◌, arith, length,
}
use mathlib.Core.Path.{subst}
use mathlib.Core.Option.{some-injective}
use das_protokoll.Scsync.BlockDb.{
  block_ref, no_hint, blockid, key, BlockDb, Full, full_block, get, new,
}
use das_protokoll.Scsync.Frontend.{Child, Dir, Sealing, dir_from_full}
use das_protokoll.Scsync.Frontend.Folder.{
  symlink, folder, file, children_of, Walked, walk_loop, blockdb_from_folder,
}
use das_protokoll.Scsync.Frontend.Folder.Tree.{
  Tree, link, content, entries, Entries, nil, entry, walk, walk_entries, count, count_entries,
}
use das_protokoll.Scsync.Frontend.Folder.Paths.{Fresh, Fresh-below, Fresh-ne}
use das_protokoll.Scsync.Frontend.Folder.Stored.{StoredAs, StoredAll}
use das_protokoll.Scsync.Frontend.Folder.Walking.{
  Packed, add_file_lem, unpacked, stored_link, stored_nil, Packed-then, made, blocks_with, made_lem,
  add_dir_top, add_dir_lem,
}
use das_protokoll.Scsync.Frontend.Folder.Looping.{walk_loop-append, walk_one, walk_none}

module _ (S : Sealing) (text : ℕ → ℕ) (draws : ℕ → ℕ × ℕ) where
  mutual
    unfolding walk count

    pack :
        (top : List ℕ) (t : Tree) (name : ℕ) (parent : List ℕ) (w : Walked)
        → w.root ≡ none
        → length top ≤ length parent
        → Fresh (name ∷ parent) w.map
        → (w' : Walked) × (cs : List Child) × (walk_loop S text draws top (walk (name ∷ parent) t) w
            ≡ some w')
          × Packed w w' (count t) parent cs (λ blocks. StoredAs S text blocks t name cs)
    pack top link name parent w unset deep fresh = (
      w,
      [],
      walk_one S text draws top (name ∷ parent) symlink w unset,
      unpacked S text draws w parent (λ blocks. StoredAs S text blocks link name []) unset
          (stored_link S text draws name w.blocks),
    )
    pack top (content bytes) name parent w unset deep fresh =
        let (w', cs, e, p) = add_file_lem S text draws name parent bytes w unset in
        (w', cs, walk_one S text draws top (name ∷ parent) (file bytes) w unset ∙ e, p)
    pack top (entries es) name parent w unset deep fresh =
        let (w1, cs, e1, p1) =
          pack_entries top es (name ∷ parent) w unset (omega (arith, deep))
            (λ n. Fresh-below n (name ∷ parent) w.map fresh) in
        let (w', c, e, p) =
          add_dir_lem S text draws name parent es w w1 cs (fresh []) p1 top deep in
        (
          w',
          c ∷ [],
          walk_loop-append S text draws top (walk_entries (name ∷ parent) es)
                (some (record { path = name ∷ parent; file_type = folder }) ∷ []) w
              ∙ rw e1 (walk_one S text draws top (name ∷ parent) folder w1 p1.open_root ∙ e),
          p,
        )

    pack_entries :
        (top : List ℕ) (es : Entries) (path : List ℕ) (w : Walked)
        → w.root ≡ none
        → length top ≤ length path
        → ((name : ℕ) → Fresh (name ∷ path) w.map)
        → (w' : Walked) × (cs : List Child) × (walk_loop S text draws top (walk_entries path es) w
            ≡ some w')
          × Packed w w' (count_entries es) path cs (λ blocks. StoredAll S text blocks es cs)
    pack_entries top nil path w unset deep fresh = (
      w,
      [],
      walk_none S text draws top w,
      unpacked S text draws w path (λ blocks. StoredAll S text blocks nil []) unset
          (stored_nil S text draws w.blocks),
    )
    pack_entries top (entry name t es) path w unset deep fresh =
        let (w1, front, e1, p1) = pack top t name path w unset deep (fresh name) in
        let (w2, back, e2, p2) =
          pack_entries top es path w1 p1.open_root deep
            (λ n r. p1.others (r ++ n ∷ path) (Fresh-ne r n path) ∙ fresh n r) in
        (
          w2,
          front ++ back,
          walk_loop-append S text draws top (walk (name ∷ path) t) (walk_entries path es) w
              ∙ rw e1 e2,
          Packed-then S text draws w w1 w2 (count t) (count_entries es) path front back t name es p1
              p2,
        )

-- The store that is made of a folder, and that it holds the folder unless two files or folders got the
-- same id.
packed_folder :
    (S : Sealing) (text : ℕ → ℕ) (draws : ℕ → ℕ × ℕ) (name : ℕ) (parent : List ℕ) (es : Entries)
    → (db : BlockDb) × (blockdb_from_folder S text draws
          (name ∷ parent)
          true
          (walk (name ∷ parent) (entries es))
        ≡ some db)
      × (db.pending_root ≡ none)
      × (length db.blocks ≤ count (entries es))
      × (length db.blocks ≡ count (entries es)
          → (f : Full) × (d : Dir) × (get (blockid db.root) db ≡ some (full_block f))
            × (dir_from_full S f (key db.root) ≡ some d)
            × StoredAll S text db.blocks es d.children)
unfolding blockdb_from_folder walk count get
packed_folder S text draws name parent es =
    let empty : Walked = record { map = []; blocks = []; root = none; drawn = 0 } in
    let no_children : (q : List ℕ) → children_of q [] ≡ [] = λ q. unfold children_of in refl in
    let (w1, cs, e1, p1) =
      pack_entries S text draws (name ∷ parent) es (name ∷ parent) empty refl (omega arith)
        (λ n r. no_children (r ++ n ∷ name ∷ parent)) in
    let fresh = no_children (name ∷ parent) in
    let looped =
      walk_loop-append S text draws (name ∷ parent) (walk_entries (name ∷ parent) es)
        (some (record { path = name ∷ parent; file_type = folder }) ∷ []) empty in
    let last = walk_one S text draws (name ∷ parent) (name ∷ parent) folder w1 p1.open_root in
    let (w', e, root, blocks) = add_dir_top S text draws name parent es empty w1 cs fresh p1 in
    let (most, stored) = made_lem S text draws name parent es empty w1 cs fresh p1 in
    let block = made S text draws name parent es empty w1 cs fresh p1 in
    (
      new (block_ref (block.1.id) (block.0) no_hint)
          (blocks_with S text draws name parent es empty w1 cs fresh p1),
      rw (looped, e1, last, e, root, blocks) refl,
      refl,
      omega (arith, most),
      λ tight.
          let (kept, has, holds, all) = stored (omega (arith, tight)) in
          (block.1, _, has, holds, all),
    )

abbrev Holds : Sealing → (ℕ → ℕ) → Entries → BlockDb → Type 0
Holds S text es db =
    length db.blocks ≡ count (entries es)
    → (f : Full) × (d : Dir) × (get (blockid db.root) db ≡ some (full_block f))
      × (dir_from_full S f (key db.root) ≡ some d)
      × StoredAll S text db.blocks es d.children

-- `blockdb_from_folder` of a folder that walkdir goes through gives a store, without a panic: it has no
-- pending root, and at most as many blocks as there are files and folders.
pub blockdb_from_folder_total :
    (S : Sealing) (text : ℕ → ℕ) (draws : ℕ → ℕ × ℕ) (name : ℕ) (parent : List ℕ) (es : Entries)
    → (db : BlockDb) × (blockdb_from_folder S text draws
          (name ∷ parent)
          true
          (walk (name ∷ parent) (entries es))
        ≡ some db)
      × (db.pending_root ≡ none)
      × (length db.blocks ≤ count (entries es))
blockdb_from_folder_total S text draws name parent es =
    let (db, e, p, most, stored) = packed_folder S text draws name parent es in (db, e, p, most)

-- The store of a folder, unless two of the files and folders got the same id, so that it has fewer
-- blocks, holds the folder: the root's block is a directory with, for each file, a leaf with its content,
-- for each folder a directory that holds that one, in the order of the walk, and nothing for a symbolic
-- link.
pub blockdb_from_folder-StoredAll :
    (S : Sealing) (text : ℕ → ℕ) (draws : ℕ → ℕ × ℕ) (name : ℕ) (parent : List ℕ) (es : Entries)
    (db : BlockDb)
    → blockdb_from_folder S text draws (name ∷ parent) true (walk (name ∷ parent) (entries es))
      ≡ some db
    → length db.blocks ≡ count (entries es)
    → (f : Full) × (d : Dir) × (get (blockid db.root) db ≡ some (full_block f))
      × (dir_from_full S f (key db.root) ≡ some d)
      × StoredAll S text db.blocks es d.children
blockdb_from_folder-StoredAll S text draws name parent es db e tight =
    let (db', e', p, most, stored) = packed_folder S text draws name parent es in
    subst (Holds S text es) (some-injective db' db (sym e' ∙ e)) stored tight
