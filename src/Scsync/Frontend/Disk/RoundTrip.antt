-- ===== src/Scsync/Frontend/Disk/RoundTrip.antt =====
-- v2/scsync/src/frontend/mod.rs: from a folder to blocks and back.
use das_protokoll.Base.{
  ℕ, zero, suc, ◌<◌, ◌≡◌, refl, sym, true, false, some, List, ◌∷◌, arith, length, All, All-append,
}
use mathlib.Core.Path.{subst}
use das_protokoll.Scsync.BlockDb.{BlockRef, blockid, key, BlockDb, Full, full_block, get, lookup}
use das_protokoll.Scsync.Frontend.{
  directory, leaf, Child, Dir, decoded_dir, decoded_leaf, Sealing, leaf_from_full, dir_from_full,
  decode_as,
}
use das_protokoll.Scsync.Frontend.Visitor.{verify}
use das_protokoll.Scsync.Frontend.Visitor.Whole.{Whole, verify-Whole}
use das_protokoll.Scsync.Frontend.Folder.{blockdb_from_folder}
use das_protokoll.Scsync.Frontend.Folder.Tree.{
  Tree, link, content, entries, Entries, nil, entry, depth, depth_entries, count, walk,
  ProperEntries,
}
use das_protokoll.Scsync.Frontend.Folder.Stored.{StoredAs, StoredAll}
use das_protokoll.Scsync.Frontend.Folder.Packing.{blockdb_from_folder-StoredAll}
use das_protokoll.Scsync.Frontend.Disk.{Node, folder_node, find, remove_under, write_to_dir}
use das_protokoll.Scsync.Frontend.Disk.Unpacking.{write_to_dir-written}
use das_protokoll.Scsync.Frontend.Disk.Written.{written}

module _ (S : Sealing) (text : ℕ → ℕ) (db : BlockDb) where
  abbrev AllWhole : ℕ → List Child → Type 0
  AllWhole n cs = All (λ c. Whole S db n c.blockref c.kind) cs

  leaf-Whole :
      (n : ℕ) (c : Child) (f : Full) (bytes : List ℕ)
      → c.kind ≡ leaf
      → lookup (blockid c.blockref) db.blocks ≡ some (full_block f)
      → leaf_from_full S f (key c.blockref) ≡ some (record { bytes = bytes })
      → Whole S db (suc n) c.blockref c.kind
  unfolding Whole get decode_as
  leaf-Whole n c f bytes kind g d =
      rw kind (f, decoded_leaf (record { bytes = bytes }), g, rw d refl, tt)

  dir-Whole :
      (n : ℕ) (ref : BlockRef) (f : Full) (d : Dir)
      → lookup (blockid ref) db.blocks ≡ some (full_block f)
      → dir_from_full S f (key ref) ≡ some d
      → AllWhole n d.children
      → Whole S db (suc n) ref directory
  unfolding Whole get decode_as
  dir-Whole n ref f d g e all = (f, decoded_dir d, g, rw e refl, all)

  mutual
    unfolding StoredAs depth

    StoredAs-Whole :
        (n : ℕ) (t : Tree) (name : ℕ) (cs : List Child)
        → StoredAs S text db.blocks t name cs
        → depth t < n
        → AllWhole n cs
    StoredAs-Whole n link name cs e deep = subst (AllWhole n) (sym e) tt
    StoredAs-Whole (suc n) (content bytes) name cs (c, f, e, named, kind, g, d) deep =
        subst (AllWhole (suc n)) (sym e) (leaf-Whole n c f bytes kind g d, tt)
    StoredAs-Whole (suc n) (entries es) name cs (c, f, dir, e, named, kind, g, d, all) deep =
        subst (AllWhole (suc n)) (sym e) (
          subst (Whole S db (suc n) c.blockref) (sym kind) (
              dir-Whole n c.blockref f dir g d
                (StoredAll-Whole n es dir.children all (omega (arith, deep)))),
          tt,
        )
    StoredAs-Whole zero (content bytes) name cs s deep = absurd (omega (arith, deep))
    StoredAs-Whole zero (entries es) name cs s deep = absurd (omega (arith, deep))

    StoredAll-Whole :
        (n : ℕ) (es : Entries) (cs : List Child)
        → StoredAll S text db.blocks es cs
        → depth_entries es < n
        → AllWhole n cs
    StoredAll-Whole n nil cs e deep = subst (AllWhole n) (sym e) tt
    StoredAll-Whole n (entry name t es) cs (front, back, e, one, all) deep =
        subst (AllWhole n) (sym e) (
          All-append (λ c. Whole S db n c.blockref c.kind) front back
            (StoredAs-Whole n t name front one (omega (arith, deep)))
            (StoredAll-Whole n es back all (omega (arith, deep))))

levels : (es : Entries) (n : ℕ) → depth (entries es) < suc n → depth_entries es < n
unfolding depth
levels es n h = omega (arith, h)

-- A store whose root is a directory that holds a folder is whole.
pub stored-Whole :
    (S : Sealing) (text : ℕ → ℕ) (db : BlockDb) (n : ℕ) (root : BlockRef) (es : Entries) (f : Full)
    (d : Dir)
    → get (blockid root) db ≡ some (full_block f)
    → dir_from_full S f (key root) ≡ some d
    → StoredAll S text db.blocks es d.children
    → depth (entries es) < n
    → Whole S db n root directory
stored-Whole S text db zero root es f d g e all deep = absurd (omega (arith, deep))
stored-Whole S text db (suc n) root es f d g e all deep =
    dir-Whole S text db n root f d (unfold get in g) e
      (StoredAll-Whole S text db n es d.children all (levels es n deep))

-- A folder comes back: the store that `blockdb_from_folder` makes of a folder, unless two of the folder's
-- files and folders got the same id, so that it has fewer blocks, is one that `verify` says yes to, and
-- `write_to_dir` writes it to any other folder as it was: exactly the files, with their contents, and the
-- folders, without the symbolic links. In each folder the names differ and are valid text, and the
-- fuel is more than there are levels.
pub write_to_dir-blockdb_from_folder :
    (S : Sealing) (text : ℕ → ℕ) (draws : ℕ → ℕ × ℕ) (n name : ℕ) (parent : List ℕ) (target : ℕ)
    (up : List ℕ) (fs : List (List ℕ × Node)) (es : Entries) (db : BlockDb)
    → ProperEntries text es
    → depth (entries es) < n
    → find (target ∷ up) fs ≡ some folder_node
    → find up fs ≡ some folder_node
    → blockdb_from_folder S text draws (name ∷ parent) true (walk (name ∷ parent) (entries es))
      ≡ some db
    → length db.blocks ≡ count (entries es)
    → (verify S n db false ≡ some true)
      × (write_to_dir S db n (target ∷ up) fs
          ≡ some (written (target ∷ up) (entries es) (remove_under (target ∷ up) fs)))
write_to_dir-blockdb_from_folder S text draws n name parent target up fs es db proper deep top
      has_up e same =
    let (f, d, g, ed, all) = blockdb_from_folder-StoredAll S text draws name parent es db e same in
    (
      (verify-Whole S n db false db.root refl).1
          (stored-Whole S text db n db.root es f d g ed all deep),
      write_to_dir-written S text n db target up fs es f d g ed all proper (omega (arith, deep)) top
          has_up,
    )
