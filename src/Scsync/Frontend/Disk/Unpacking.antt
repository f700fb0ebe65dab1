-- ===== src/Scsync/Frontend/Disk/Unpacking.antt =====
-- v2/scsync/src/frontend/mod.rs: `write_to_dir` of a store that holds a folder.
use das_protokoll.Base.{
  ℕ, zero, suc, ◌≤◌, ◌≡◌, refl, ◌∙◌, ap, false, Option, none, some, List, [], ◌∷◌, ◌++◌, ◌>>=◌,
  arith, Bool-cases, inl, inr,
}
use mathlib.Core.Option.{some-injective}
use das_protokoll.Scsync.BlockDb.{blockid, key, Block, BlockDb, Full, full_block, get, lookup}
use das_protokoll.Scsync.Frontend.{
  directory, leaf, Child, Dir, Sealing, leaf_from_full, dir_from_full,
}
use das_protokoll.Scsync.Frontend.Folder.Paths.{path_eq_self, Fresh-ne}
use das_protokoll.Scsync.Frontend.Folder.Tree.{
  Tree, link, content, entries, Entries, nil, entry, depth, depth_entries, Proper, ProperEntries,
}
use das_protokoll.Scsync.Frontend.Folder.Stored.{StoredAs, StoredAll}
use das_protokoll.Scsync.Frontend.Disk.{
  Node, folder_node, file_node, find, under, remove_under, write_all, write_leaf, write_child,
  write_children, write_to_dir_rec, write_to_dir,
}
use das_protokoll.Scsync.Frontend.Disk.Removed.{under_below, under_longer, find-remove_under}
use das_protokoll.Scsync.Frontend.Disk.Written.{
  written, written_entries, find_self, find-written, Free, FreeEntries, FreeEntries-all,
  FreeEntries-written, FreeEntries-entry, Free-folder,
}

module _ (S : Sealing) (text : ℕ → ℕ) (db : BlockDb) where
  write_children-append :
      (descend : List ℕ → Dir → List (List ℕ × Node) → Option (List (List ℕ × Node)))
      (path : List ℕ) (front back : List Child) (fs fs' : List (List ℕ × Node))
      → write_children S db descend path front fs ≡ some fs'
      → write_children S db descend path (front ++ back) fs
        ≡ write_children S db descend path back fs'
  unfolding write_children
  write_children-append descend path [] back fs fs' e =
      ap (write_children S db descend path back) (some-injective _ _ e)
  write_children-append descend path (c ∷ front) back fs fs' e =
      after (write_child S db descend (c.name ∷ path) c.kind c.blockref fs) e
        (λ fs1. write_children-append descend path front back fs1 fs')
    where
      after :
          (o : Option (List (List ℕ × Node)))
          → (do fs1 ← o; write_children S db descend path front fs1) ≡ some fs'
          → ((fs1 : List (List ℕ × Node))
              → write_children S db descend path front fs1 ≡ some fs'
              → write_children S db descend path (front ++ back) fs1
                ≡ write_children S db descend path back fs')
          → (do fs1 ← o; write_children S db descend path (front ++ back) fs1)
            ≡ write_children S db descend path back fs'
      after none h next = cc
      after (some fs1) h next = next fs1 h

  unpack_file :
      (descend : List ℕ → Dir → List (List ℕ × Node) → Option (List (List ℕ × Node)))
      (path bytes : List ℕ) (name : ℕ) (c : Child) (f : Full) (fs : List (List ℕ × Node))
      → c.name ≡ name
      → c.kind ≡ leaf
      → get (blockid c.blockref) db ≡ some (full_block f)
      → leaf_from_full S f (key c.blockref) ≡ some (record { bytes = bytes })
      → find path fs ≡ some folder_node
      → find (name ∷ path) fs ≡ none
      → write_children S db descend path (c ∷ []) fs ≡ some ((name ∷ path, file_node bytes) ∷ fs)
  unfolding write_children write_child write_leaf write_all
  unpack_file descend path bytes name c f fs named kind g d top free =
      rw (named, kind, free, top, g, d, path_eq_self (name ∷ path)) refl

  -- A directory: its folder is made, and its children are written there.
  unpack_dir :
      (descend : List ℕ → Dir → List (List ℕ × Node) → Option (List (List ℕ × Node)))
      (path : List ℕ) (name : ℕ) (c : Child) (f : Full) (dir : Dir) (fs : List (List ℕ × Node))
      → c.name ≡ name
      → c.kind ≡ directory
      → get (blockid c.blockref) db ≡ some (full_block f)
      → dir_from_full S f (key c.blockref) ≡ some dir
      → find path fs ≡ some folder_node
      → find (name ∷ path) fs ≡ none
      → write_children S db descend path (c ∷ []) fs
        ≡ descend (name ∷ path) dir ((name ∷ path, folder_node) ∷ fs)
  unfolding write_children write_child
  unpack_dir descend path name c f dir fs named kind g d top free =
      rw (named, kind, free, top, g, d)
        (again (descend (name ∷ path) dir ((name ∷ path, folder_node) ∷ fs)))
    where
      again : (o : Option (List (List ℕ × Node))) → (do fs' ← o; some fs') ≡ o
      again none = refl
      again (some fs') = refl

  unpack_none :
      (descend : List ℕ → Dir → List (List ℕ × Node) → Option (List (List ℕ × Node)))
      (path : List ℕ) (fs : List (List ℕ × Node))
      → write_children S db descend path [] fs ≡ some fs
  unfolding write_children
  unpack_none descend path fs = refl

  rec_lem :
      (n : ℕ) (path : List ℕ) (dir : Dir) (fs : List (List ℕ × Node))
      → write_to_dir_rec S db (suc n) path dir fs
        ≡ write_children S db (write_to_dir_rec S db n) path dir.children fs
  unfolding write_to_dir_rec
  rec_lem n path dir fs = refl

  get_lem : (id : ℕ) (b : Block) → lookup id db.blocks ≡ some b → get id db ≡ some b
  unfolding get
  get_lem id b e = e

  mutual
    unfolding written StoredAs depth Proper

    unpack :
        (n : ℕ) (t : Tree) (name : ℕ) (path : List ℕ) (fs : List (List ℕ × Node)) (cs : List Child)
        → StoredAs S text db.blocks t name cs
        → text name ≡ name
        → Proper text t
        → depth t ≤ n
        → find path fs ≡ some folder_node
        → Free (name ∷ path) fs
        → write_children S db (write_to_dir_rec S db n) path cs fs
          ≡ some (written (name ∷ path) t fs)
    unpack n link name path fs cs none_of valid proper deep top free =
        ap (λ cs'. write_children S db (write_to_dir_rec S db n) path cs' fs) none_of
        ∙ unpack_none (write_to_dir_rec S db n) path fs
    unpack n (content bytes) name path fs cs (c, f, e, named, kind, g, d) valid proper deep top
          free =
        ap (λ cs'. write_children S db (write_to_dir_rec S db n) path cs' fs) e
        ∙ unpack_file (write_to_dir_rec S db n) path bytes name c f fs (named ∙ valid) kind
            (get_lem (blockid c.blockref) (full_block f) g) d top (free [])
    unpack zero (entries es) name path fs cs (c, f, dir, e, named, kind, g, d, all) valid proper
          deep top free =
        absurd (omega (arith, deep))
    unpack (suc n) (entries es) name path fs cs (c, f, dir, e, named, kind, g, d, all) valid proper
          deep top free =
        ap (λ cs'. write_children S db (write_to_dir_rec S db (suc n)) path cs' fs) e
        ∙ unpack_dir (write_to_dir_rec S db (suc n)) path name c f dir fs (named ∙ valid) kind
            (get_lem (blockid c.blockref) (full_block f) g) d top (free [])
        ∙ rec_lem n (name ∷ path) dir ((name ∷ path, folder_node) ∷ fs)
        ∙ unpack_entries n es (name ∷ path) ((name ∷ path, folder_node) ∷ fs) dir.children all
            proper (omega (arith, deep)) (find_self (name ∷ path) folder_node fs)
            (FreeEntries-all es (name ∷ path) ((name ∷ path, folder_node) ∷ fs)
              (Free-folder name path fs free))

    unpack_entries :
        (n : ℕ) (es : Entries) (path : List ℕ) (fs : List (List ℕ × Node)) (cs : List Child)
        → StoredAll S text db.blocks es cs
        → ProperEntries text es
        → depth_entries es ≤ n
        → find path fs ≡ some folder_node
        → FreeEntries es path fs
        → write_children S db (write_to_dir_rec S db n) path cs fs
          ≡ some (written_entries path es fs)
    unpack_entries n nil path fs cs none_of proper deep top free =
        ap (λ cs'. write_children S db (write_to_dir_rec S db n) path cs' fs) none_of
        ∙ unpack_none (write_to_dir_rec S db n) path fs
    unpack_entries n (entry name t es) path fs cs (front, back, e, one, all)
          (valid, unnamed, proper, rest) deep top free =
        let (mine, others) = FreeEntries-entry name t es path fs free in
        ap (λ cs'. write_children S db (write_to_dir_rec S db n) path cs' fs) e
        ∙ write_children-append (write_to_dir_rec S db n) path front back fs
            (written (name ∷ path) t fs)
            (unpack n t name path fs front one valid proper (omega (arith, deep)) top mine)
        ∙ unpack_entries n es path (written (name ∷ path) t fs) back all rest (omega (arith, deep))
            (find-written t (name ∷ path) path fs (λ r. Fresh-ne r name path) ∙ top)
            (FreeEntries-written es t name path fs unnamed others)

-- `write_to_dir` of a store whose root is a directory that holds a folder does not panic, with as much
-- fuel as the folder has levels: it clears the target, which has to be a folder in a folder, and writes
-- there exactly the files, with their contents, and the folders; the rest of the file system stays as it
-- is. The names in a folder have to differ.
pub write_to_dir-written :
    (S : Sealing) (text : ℕ → ℕ) (n : ℕ) (db : BlockDb) (name : ℕ) (parent : List ℕ)
    (fs : List (List ℕ × Node)) (es : Entries) (f : Full) (d : Dir)
    → get (blockid db.root) db ≡ some (full_block f)
    → dir_from_full S f (key db.root) ≡ some d
    → StoredAll S text db.blocks es d.children
    → ProperEntries text es
    → depth (entries es) ≤ n
    → find (name ∷ parent) fs ≡ some folder_node
    → find parent fs ≡ some folder_node
    → write_to_dir S db n (name ∷ parent) fs
      ≡ some (written (name ∷ parent) (entries es) (remove_under (name ∷ parent) fs))
unfolding write_to_dir written depth
write_to_dir-written S text zero db name parent fs es f d g e all proper deep top up =
    absurd (omega (arith, deep))
write_to_dir-written S text (suc n) db name parent fs es f d g e all proper deep top up =
    let cleared : Free (name ∷ parent) (remove_under (name ∷ parent) fs) = λ r.
      (find-remove_under (name ∷ parent) (r ++ name ∷ parent) fs).0
        (under_below r (name ∷ parent)) in
    let made = (name ∷ parent, folder_node) ∷ remove_under (name ∷ parent) fs in
    let outside : under (name ∷ parent) parent ≡ false =
      elim (Bool-cases (under (name ∷ parent) parent)) [
        | inl inside ↦
            let l = under_longer parent (name ∷ parent) inside in absurd (omega (arith, l))
        | inr out ↦ out
      ] in
    let has_parent : find parent (remove_under (name ∷ parent) fs) ≡ some folder_node =
      (find-remove_under (name ∷ parent) parent fs).1 outside ∙ up in
    let gone : find (name ∷ parent) (remove_under (name ∷ parent) fs) ≡ none = cleared [] in
    rw (top, has_parent, gone, g, e)
      (rec_lem S text db n (name ∷ parent) d made
        ∙ unpack_entries S text db n es (name ∷ parent) made d.children all proper
            (omega (arith, deep))
            (find_self (name ∷ parent) folder_node (remove_under (name ∷ parent) fs))
            (FreeEntries-all es (name ∷ parent) made
              (Free-folder name parent (remove_under (name ∷ parent) fs) cleared)))
