-- ===== src/Scsync/Frontend/Disk/Tests.antt =====
-- A folder with a file, a symbolic link and an empty folder.
use das_protokoll.Base.{
  ℕ, ◌<◌, ◌≤◌, ◌≡◌, refl, true, false, Option, none, some, List, [], ◌∷◌, arith, length,
}
use das_protokoll.Scsync.BlockDb.{
  block_ref, no_hint, blockid, key, Full, full_block, BlockDb, get, insert,
}
use das_protokoll.Scsync.Frontend.{Dir, dir_from_full, from_full, to_block}
use das_protokoll.Scsync.Frontend.Instances.{sealing, leaf_cbor, write_children, write_ref}
use das_protokoll.Scsync.Frontend.Sealed.{on_machine, from_full-to_block}
use das_protokoll.Scsync.Frontend.Visitor.{verify}
use das_protokoll.Scsync.Frontend.Folder.{
  blockdb_from_folder, add_dir, add_file, children_of, path_eq, push_child, walk_loop, without,
}
use das_protokoll.Scsync.Frontend.Folder.Tree.{
  link, content, entries, Entries, nil, entry, depth, count, walk, ProperEntries, Unnamed,
}
use das_protokoll.Scsync.Frontend.Folder.Stored.{StoredAll}
use das_protokoll.Scsync.Frontend.Folder.Packing.{
  blockdb_from_folder_total, blockdb_from_folder-StoredAll,
}
use das_protokoll.Scsync.Frontend.Disk.{
  Node, folder_node, file_node, find, remove_under, write_to_dir,
}
use das_protokoll.Scsync.Frontend.Disk.Written.{written}
use das_protokoll.Scsync.Frontend.Disk.RoundTrip.{write_to_dir-blockdb_from_folder}

from_full-to_block_example :
    from_full
      (on_machine sealing true)
      leaf_cbor
      ((to_block (on_machine sealing false) leaf_cbor (7 ∷ 8 ∷ []) 5 6).1)
      ((to_block (on_machine sealing false) leaf_cbor (7 ∷ 8 ∷ []) 5 6).0)
    ≡ some (7 ∷ 8 ∷ [])
from_full-to_block_example = from_full-to_block sealing true false leaf_cbor (7 ∷ 8 ∷ []) 5 6

abbrev files : Entries
files = entry 4 (content (9 ∷ [])) (entry 5 link (entry 6 (entries nil) nil))

abbrev same : ℕ → ℕ
same name = name

abbrev draws : ℕ → ℕ × ℕ
draws n = (n, n)

abbrev packed : Option BlockDb
packed = blockdb_from_folder sealing same draws (1 ∷ []) true (walk (1 ∷ []) (entries files))

blockdb_from_folder_total_example :
    (db : BlockDb) × (packed ≡ some db)
    × (db.pending_root ≡ none)
    × (length db.blocks ≤ count (entries files))
blockdb_from_folder_total_example = blockdb_from_folder_total sealing same draws 1 [] files

abbrev dir_block : Full
dir_block = record {
  id = 334811551864394976883824870081360302;
  bytes = 2 ∷ 1 ∷ 4 ∷ 3 ∷ 632700 ∷ 0 ∷ 0 ∷ 1 ∷ 6 ∷ 1 ∷ 630001 ∷ 1 ∷ 0 ∷ 0 ∷ [];
}

abbrev store : BlockDb
store = record {
  root = block_ref 334811551864394976883824870081360302 2 no_hint;
  pending_root = none;
  blocks =
      (632700, full_block (record { id = 632700; bytes = 0 ∷ 9 ∷ [] }))
      ∷ (630001, full_block (record { id = 630001; bytes = 1 ∷ 0 ∷ [] }))
      ∷ (334811551864394976883824870081360302, full_block dir_block)
      ∷ [];
}

packed-store : packed ≡ some store
unfolding blockdb_from_folder walk_loop walk add_file add_dir path_eq to_block insert write_children
    children_of push_child without write_ref
packed-store = refl

has_all : length store.blocks ≡ count (entries files)
unfolding count
has_all = refl

blockdb_from_folder_example :
    (f : Full) × (d : Dir) × (get (blockid store.root) store ≡ some (full_block f))
    × (dir_from_full sealing f (key store.root) ≡ some d)
    × StoredAll sealing same store.blocks files d.children
blockdb_from_folder_example =
    blockdb_from_folder-StoredAll sealing same draws 1 [] files store packed-store has_all

abbrev disk : List (List ℕ × Node)
disk = (8 ∷ 2 ∷ [], file_node []) ∷ (2 ∷ [], folder_node) ∷ ([], folder_node) ∷ []

files-Proper : ProperEntries same files
unfolding ProperEntries Unnamed
files-Proper = (
  refl,
  (λ e. omega (arith, e), (λ e. omega (arith, e), tt)),
  tt,
  (refl, (λ e. omega (arith, e), tt), tt, (refl, tt, tt, tt)),
)

depth_small : depth (entries files) < 3
unfolding depth
depth_small = omega arith

has_target : find (2 ∷ []) disk ≡ some folder_node
unfolding find path_eq
has_target = refl

has_up : find [] disk ≡ some folder_node
unfolding find path_eq
has_up = refl

write_to_dir_example :
    (verify sealing 3 store false ≡ some true)
    × (write_to_dir sealing store 3 (2 ∷ []) disk
        ≡ some (written (2 ∷ []) (entries files) (remove_under (2 ∷ []) disk)))
write_to_dir_example =
    write_to_dir-blockdb_from_folder sealing same draws 3 1 [] 2 [] disk files store files-Proper
      depth_small has_target has_up packed-store has_all
