-- ===== src/Scsync/Frontend/Folder/Tree.antt =====
-- v2/scsync/src/frontend/mod.rs: a folder as a tree, and how walkdir goes through it, contents first.
use das_protokoll.Base.{ℕ, suc, ◌+◌, ◌≡◌, ◌≢◌, Option, some, List, [], ◌∷◌, ◌++◌, max}
use das_protokoll.Scsync.Frontend.Folder.{symlink, folder, file, DirEntry}

mutual
  pub data Tree : Type 0 where
    link : Tree
    content : List ℕ → Tree
    entries : Entries → Tree

  -- The entries of a folder, in the order in which the walk yields them.
  pub data Entries : Type 0 where
    nil : Entries
    entry : (name : ℕ) → Tree → Entries → Entries

unfoldable mutual
  -- `WalkDir::new(path).contents_first(true)`: a folder comes behind all that it contains.
  pub walk : List ℕ → Tree → List (Option DirEntry)
  walk path link = some (record { path = path; file_type = symlink }) ∷ []
  walk path (content bytes) = some (record { path = path; file_type = file bytes }) ∷ []
  walk path (entries es) =
      walk_entries path es ++ some (record { path = path; file_type = folder }) ∷ []

  pub walk_entries : List ℕ → Entries → List (Option DirEntry)
  walk_entries path nil = []
  walk_entries path (entry name t es) = walk (name ∷ path) t ++ walk_entries path es

unfoldable mutual
  -- The number of files and folders.
  pub count : Tree → ℕ
  count link = 0
  count (content bytes) = 1
  count (entries es) = suc (count_entries es)

  pub count_entries : Entries → ℕ
  count_entries nil = 0
  count_entries (entry name t es) = count t + count_entries es

unfoldable mutual
  -- The number of levels of folders.
  pub depth : Tree → ℕ
  depth link = 0
  depth (content bytes) = 0
  depth (entries es) = suc (depth_entries es)

  pub depth_entries : Entries → ℕ
  depth_entries nil = 0
  depth_entries (entry name t es) = max (depth t) (depth_entries es)

-- No entry has the name.
unfoldable pub Unnamed : ℕ → Entries → Type 0
Unnamed name nil = Unit {0}
Unnamed name (entry n t es) = (n ≢ name) × Unnamed name es

unfoldable mutual
  -- The names of a folder's entries differ, and their text is the name: they are valid UTF-8.
  pub Proper : (ℕ → ℕ) → Tree → Type 0
  Proper text link = Unit {0}
  Proper text (content bytes) = Unit {0}
  Proper text (entries es) = ProperEntries text es

  pub ProperEntries : (ℕ → ℕ) → Entries → Type 0
  ProperEntries text nil = Unit {0}
  ProperEntries text (entry name t es) =
      (text name ≡ name) × Unnamed name es × Proper text t × ProperEntries text es
