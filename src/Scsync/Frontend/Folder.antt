-- ===== src/Scsync/Frontend/Folder.antt =====
-- v2/scsync/src/frontend/mod.rs: `blockdb_from_folder`, which makes the blocks of a folder. A path is the
-- list of its names, the deepest first. walkdir's iterator is a list of entries, with the content that
-- a file is read with; `none` among them is an error of the walk. What OsRng and the writer draw for each
-- block is a parameter, and so is the conversion of a file's name to text.
pub mod Tree
pub mod Paths
pub mod Stored
pub mod Looping
pub mod Walking
pub mod Packing
use das_protokoll.Base.{
  ℕ, suc, Bool, true, false, not, ◌&&◌, Option, none, some, List, [], ◌∷◌, ◌++◌, ◌==◌,
  if◌then◌else◌, ◌>>=◌, ◌>>◌, assert,
}
use das_protokoll.Scsync.BlockDb.{
  BlockRef, block_ref, no_hint, Block, full_block, BlockDb, insert, is_some, new,
}
use das_protokoll.Scsync.Frontend.{
  BlockType, directory, leaf, Child, Dir, Sealing, leaf_to_block, dir_to_block,
}

pub data FileType : Type 0 where
  symlink folder other : FileType
  file : (content : List ℕ) → FileType

pub record DirEntry : Type 0 where
  pub path : List ℕ
  pub file_type : FileType

unfoldable pub path_eq : List ℕ → List ℕ → Bool
path_eq [] [] = true
path_eq [] (y ∷ ys) = false
path_eq (x ∷ xs) [] = false
path_eq (x ∷ xs) (y ∷ ys) = (x == y) && path_eq xs ys

-- The map from a path to the children that were found in it: `remove(path).unwrap_or_default()`, which
-- is these two, and `entry(path).or_insert_with(Default::default).push(child)`.
unfoldable pub children_of : List ℕ → List (List ℕ × List Child) → List Child
children_of path [] = []
children_of path ((p, cs) ∷ m) = if path_eq p path then cs else children_of path m

unfoldable pub without : List ℕ → List (List ℕ × List Child) → List (List ℕ × List Child)
without path [] = []
without path ((p, cs) ∷ m) = if path_eq p path then without path m else (p, cs) ∷ without path m

unfoldable pub push_child : List ℕ → Child → List (List ℕ × List Child) → List (List ℕ × List Child)
push_child path c [] = (path, c ∷ []) ∷ []
push_child path c ((p, cs) ∷ m) =
    if path_eq p path then (p, cs ++ c ∷ []) ∷ m else (p, cs) ∷ push_child path c m

-- The variables of the loop, and how many blocks have been made.
pub record Walked : Type 0 where
  pub map : List (List ℕ × List Child)
  pub blocks : List (ℕ × Block)
  pub root : Option BlockRef
  pub drawn : ℕ

module _ (S : Sealing) (to_string_lossy : ℕ → ℕ) (draws : ℕ → ℕ × ℕ) where
  -- A path without a name has no parent.
  unfoldable pub add_file : List ℕ → List ℕ → Walked → Option Walked
  add_file [] content w = none
  add_file (name ∷ parent) content w =
      let (key, block) =
        leaf_to_block S (record { bytes = content }) ((draws w.drawn).0) ((draws w.drawn).1) in
      let child : Child = record {
        name = to_string_lossy name;
        kind = leaf;
        blockref = block_ref block.id key no_hint;
      } in
      some (record w {
        map = push_child parent child w.map;
        blocks = insert block.id (full_block block) w.blocks;
        drawn = suc w.drawn;
      })

  unfoldable pub add_dir : List ℕ → List ℕ → Walked → Option Walked
  add_dir top [] w = none
  add_dir top (name ∷ parent) w =
      let dir : Dir = record { children = children_of (name ∷ parent) w.map } in
      let (key, block) = dir_to_block S dir ((draws w.drawn).0) ((draws w.drawn).1) in
      let ref = block_ref block.id key no_hint in
      let child : Child = record {
        name = to_string_lossy name;
        kind = directory;
        blockref = ref;
      } in
      some (record {
        map = push_child parent child (without (name ∷ parent) w.map);
        blocks = insert block.id (full_block block) w.blocks;
        root = if path_eq (name ∷ parent) top then some ref else w.root;
        drawn = suc w.drawn;
      })

  abbrev pub add_entry : List ℕ → List ℕ → FileType → Walked → Option Walked
  add_entry top path symlink w = some w
  add_entry top path folder w = add_dir top path w
  add_entry top path other w = some w
  add_entry top path (file content) w = add_file path content w

  unfoldable pub walk_loop : List ℕ → List (Option DirEntry) → Walked → Option Walked
  walk_loop top [] w = some w
  walk_loop top (e ∷ es) w = do
    assert (not (is_some w.root))
    entry ← e
    w' ← add_entry top entry.path entry.file_type w
    walk_loop top es w'

  unfoldable pub blockdb_from_folder : List ℕ → Bool → List (Option DirEntry) → Option BlockDb
  blockdb_from_folder top is_dir entries = do
    assert is_dir
    w ← walk_loop top entries (record { map = []; blocks = []; root = none; drawn = 0 })
    root ← w.root
    some (new root w.blocks)
