-- ===== src/Scsync/Frontend/Disk.antt =====
-- v2/scsync/src/frontend/mod.rs: `write_to_dir`, which writes the blocks of a tree to a folder. The file
-- system is the list of its files and folders, each with its path, the deepest name first; `none` is a
-- panic, or more levels than there is fuel. A name is one normal component of a path.
pub mod Written
pub mod Removed
pub mod Unpacking
pub mod RoundTrip
mod Tests
use das_protokoll.Base.{
  ℕ, zero, suc, Bool, true, false, not, ◌||◌, Option, none, some, List, [], ◌∷◌, ◌++◌,
  if◌then◌else◌, ◌>>=◌, ◌>>◌, assert,
}
use das_protokoll.Scsync.BlockDb.{BlockRef, blockid, key, BlockDb, Full, full, get, is_some}
use das_protokoll.Scsync.Frontend.{
  BlockType, directory, file_meta, leaf, Child, Dir, Meta, Sealing, leaf_from_full, meta_from_full,
  dir_from_full,
}
use das_protokoll.Scsync.Frontend.Folder.{path_eq}

pub data Node : Type 0 where
  folder_node : Node
  file_node : (content : List ℕ) → Node

unfoldable pub find : List ℕ → List (List ℕ × Node) → Option Node
find path [] = none
find path ((p, node) ∷ fs) = if path_eq p path then some node else find path fs

abbrev pub is_folder : Option Node → Bool
is_folder (some folder_node) = true
is_folder (some (file_node content)) = false
is_folder none = false

-- The path is the folder or below it.
unfoldable pub under : List ℕ → List ℕ → Bool
under top [] = path_eq [] top
under top (name ∷ path) = path_eq (name ∷ path) top || under top path

unfoldable pub remove_under : List ℕ → List (List ℕ × Node) → List (List ℕ × Node)
remove_under top [] = []
remove_under top ((p, node) ∷ fs) =
    if under top p then remove_under top fs else (p, node) ∷ remove_under top fs

-- `fs::remove_dir_all`, of a folder.
abbrev pub remove_dir_all : List ℕ → List (List ℕ × Node) → Option (List (List ℕ × Node))
remove_dir_all path fs = do assert (is_folder (find path fs)); some (remove_under path fs)

-- `fs::create_dir`: there is a parent, and nothing that has the path.
abbrev pub create_dir : List ℕ → List (List ℕ × Node) → Option (List (List ℕ × Node))
create_dir [] fs = none
create_dir (name ∷ parent) fs = do
  assert (is_folder (find parent fs))
  assert (not (is_some (find (name ∷ parent) fs)))
  some ((name ∷ parent, folder_node) ∷ fs)

unfoldable pub set_content : List ℕ → List ℕ → List (List ℕ × Node) → List (List ℕ × Node)
set_content path bytes [] = []
set_content path bytes ((p, node) ∷ fs) =
    if path_eq p path then (p, file_node bytes) ∷ fs else (p, node) ∷ set_content path bytes fs

-- `File::create`, where the path may be taken: a file that is there becomes empty.
abbrev pub create_over :
    ℕ → List ℕ → List (List ℕ × Node) → Option Node → Option (List (List ℕ × Node))
create_over name parent fs none = do
  assert (is_folder (find parent fs))
  some ((name ∷ parent, file_node []) ∷ fs)
create_over name parent fs (some folder_node) = none
create_over name parent fs (some (file_node content)) = some (set_content (name ∷ parent) [] fs)

abbrev pub create_file : List ℕ → List (List ℕ × Node) → Option (List (List ℕ × Node))
create_file [] fs = none
create_file (name ∷ parent) fs = create_over name parent fs (find (name ∷ parent) fs)

-- `write_all`, to the end of the file that was created.
unfoldable pub write_all : List ℕ → List ℕ → List (List ℕ × Node) → List (List ℕ × Node)
write_all path bytes [] = []
write_all path bytes ((p, folder_node) ∷ fs) = (p, folder_node) ∷ write_all path bytes fs
write_all path bytes ((p, file_node content) ∷ fs) =
    if path_eq p path
    then (p, file_node (content ++ bytes)) ∷ fs
    else (p, file_node content) ∷ write_all path bytes fs

-- `self.blockdb.get(blockid).full()`
abbrev pub full_at : BlockRef → BlockDb → Option Full
full_at ref db = do block ← get (blockid ref) db; full block

module _ (S : Sealing) (db : BlockDb) where
  unfoldable pub write_leaf :
      List ℕ → BlockRef → List (List ℕ × Node) → Option (List (List ℕ × Node))
  write_leaf path ref fs = do
    f ← full_at ref db
    l ← leaf_from_full S f (key ref)
    some (write_all path l.bytes fs)

  unfoldable pub write_leaves :
      List ℕ → List BlockRef → List (List ℕ × Node) → Option (List (List ℕ × Node))
  write_leaves path [] fs = some fs
  write_leaves path (ref ∷ refs) fs = do fs' ← write_leaf path ref fs; write_leaves path refs fs'

  -- A child; `descend` is the call of `write_to_dir_rec`.
  unfoldable pub write_child :
      (List ℕ → Dir → List (List ℕ × Node) → Option (List (List ℕ × Node)))
      → List ℕ
      → BlockType
      → BlockRef
      → List (List ℕ × Node)
      → Option (List (List ℕ × Node))
  write_child descend path leaf ref fs = do fs' ← create_file path fs; write_leaf path ref fs'
  write_child descend path directory ref fs = do
    fs' ← create_dir path fs
    f ← full_at ref db
    d ← dir_from_full S f (key ref)
    descend path d fs'
  write_child descend path file_meta ref fs = do
    fs' ← create_file path fs
    f ← full_at ref db
    m ← meta_from_full S f (key ref)
    write_leaves path m.blocks fs'

  unfoldable pub write_children :
      (List ℕ → Dir → List (List ℕ × Node) → Option (List (List ℕ × Node)))
      → List ℕ
      → List Child
      → List (List ℕ × Node)
      → Option (List (List ℕ × Node))
  write_children descend path [] fs = some fs
  write_children descend path (c ∷ cs) fs = do
    fs' ← write_child descend (c.name ∷ path) c.kind c.blockref fs
    write_children descend path cs fs'

  unfoldable pub write_to_dir_rec :
      ℕ → List ℕ → Dir → List (List ℕ × Node) → Option (List (List ℕ × Node))
  write_to_dir_rec zero path dir fs = none
  write_to_dir_rec (suc fuel) path dir fs =
      write_children (write_to_dir_rec fuel) path dir.children fs

  unfoldable pub write_to_dir : ℕ → List ℕ → List (List ℕ × Node) → Option (List (List ℕ × Node))
  write_to_dir fuel top fs = do
    fs' ← remove_dir_all top fs
    fs'' ← create_dir top fs'
    f ← full_at db.root db
    d ← dir_from_full S f (key db.root)
    write_to_dir_rec fuel top d fs''
