-- ===== src/Scsync/Frontend/Disk/Written.antt =====
-- v2/scsync/src/frontend/mod.rs: the files and folders of a tree below a path, which `write_to_dir` is to write.
use das_protokoll.Base.{
  ℕ, ◌≡◌, ◌≢◌, refl, sym, ◌∙◌, ap, none, some, List, [], ◌∷◌, ◌++◌, get_elem?, drop, append_assoc,
}
use mathlib.Core.Option.{some-injective}
use das_protokoll.Scsync.Frontend.Folder.Paths.{ne→path_eq, path_eq_self, Fresh-ne}
use das_protokoll.Scsync.Frontend.Folder.Tree.{
  Tree, link, content, entries, Entries, nil, entry, Unnamed,
}
use das_protokoll.Scsync.Frontend.Disk.{Node, folder_node, file_node, find}

unfoldable mutual
  -- The file system with the tree at the path: a file with its content, a folder with its entries.
  pub written : List ℕ → Tree → List (List ℕ × Node) → List (List ℕ × Node)
  written path link fs = fs
  written path (content bytes) fs = (path, file_node bytes) ∷ fs
  written path (entries es) fs = written_entries path es ((path, folder_node) ∷ fs)

  pub written_entries : List ℕ → Entries → List (List ℕ × Node) → List (List ℕ × Node)
  written_entries path nil fs = fs
  written_entries path (entry name t es) fs = written_entries path es (written (name ∷ path) t fs)

find_ne :
    (p q : List ℕ) (node : Node) (fs : List (List ℕ × Node))
    → p ≢ q
    → find q ((p, node) ∷ fs) ≡ find q fs
unfolding find
find_ne p q node fs ne = rw (ne→path_eq p q ne) refl

pub find_self :
    (p : List ℕ) (node : Node) (fs : List (List ℕ × Node)) → find p ((p, node) ∷ fs) ≡ some node
unfolding find
find_self p node fs = rw (path_eq_self p) refl

-- Paths below two entries of a folder differ.
same_entry : (r s : List ℕ) (n m : ℕ) (p : List ℕ) → r ++ n ∷ p ≡ s ++ m ∷ p → n ≡ m
same_entry [] [] n m p e = some-injective _ _ (ap (λ l. get_elem? l 0) e)
same_entry [] (y ∷ s) n m p e = absurd (Fresh-ne s m p (ap (drop 1) e))
same_entry (x ∷ r) [] n m p e = absurd (Fresh-ne r n p (sym (ap (drop 1) e)))
same_entry (x ∷ r) (y ∷ s) n m p e = same_entry r s n m p (ap (drop 1) e)

mutual
  unfolding written

  -- What is written below a path is found only there.
  pub find-written :
      (t : Tree) (p q : List ℕ) (fs : List (List ℕ × Node))
      → ((r : List ℕ) → q ≢ r ++ p)
      → find q (written p t fs) ≡ find q fs
  find-written link p q fs away = refl
  find-written (content bytes) p q fs away = find_ne p q (file_node bytes) fs (λ e. away [] (sym e))
  find-written (entries es) p q fs away =
      find-written_entries es p q ((p, folder_node) ∷ fs)
        (λ n r e. away (r ++ n ∷ []) (e ∙ sym (append_assoc r (n ∷ []) p)))
      ∙ find_ne p q folder_node fs (λ e. away [] (sym e))

  find-written_entries :
      (es : Entries) (p q : List ℕ) (fs : List (List ℕ × Node))
      → ((n : ℕ) (r : List ℕ) → q ≢ r ++ n ∷ p)
      → find q (written_entries p es fs) ≡ find q fs
  find-written_entries nil p q fs away = refl
  find-written_entries (entry name t es) p q fs away =
      find-written_entries es p q (written (name ∷ p) t fs) away
      ∙ find-written t (name ∷ p) q fs (away name)

-- There is nothing at the path, nor below it.
abbrev pub Free : List ℕ → List (List ℕ × Node) → Type 0
Free p fs = (r : List ℕ) → find (r ++ p) fs ≡ none

unfoldable pub FreeEntries : Entries → List ℕ → List (List ℕ × Node) → Type 0
FreeEntries nil p fs = Unit {0}
FreeEntries (entry name t es) p fs = Free (name ∷ p) fs × FreeEntries es p fs

pub FreeEntries-all :
    (es : Entries) (p : List ℕ) (fs : List (List ℕ × Node))
    → ((name : ℕ) → Free (name ∷ p) fs)
    → FreeEntries es p fs
unfolding FreeEntries
FreeEntries-all nil p fs free = tt
FreeEntries-all (entry name t es) p fs free = (free name, FreeEntries-all es p fs free)

pub FreeEntries-written :
    (es : Entries) (t : Tree) (name : ℕ) (p : List ℕ) (fs : List (List ℕ × Node))
    → Unnamed name es
    → FreeEntries es p fs
    → FreeEntries es p (written (name ∷ p) t fs)
unfolding FreeEntries Unnamed
FreeEntries-written nil t name p fs other free = tt
FreeEntries-written (entry n u es) t name p fs (ne, other) (free, rest) = (
  λ r. find-written t (name ∷ p) (r ++ n ∷ p) fs (λ s e. ne (same_entry r s n name p e)) ∙ free r,
  FreeEntries-written es t name p fs other rest,
)

pub FreeEntries-entry :
    (name : ℕ) (t : Tree) (es : Entries) (p : List ℕ) (fs : List (List ℕ × Node))
    → FreeEntries (entry name t es) p fs
    → Free (name ∷ p) fs × FreeEntries es p fs
unfolding FreeEntries
FreeEntries-entry name t es p fs free = free

-- A folder that was just made is empty.
pub Free-folder :
    (name : ℕ) (path : List ℕ) (fs : List (List ℕ × Node))
    → Free (name ∷ path) fs
    → (n : ℕ) → Free (n ∷ name ∷ path) ((name ∷ path, folder_node) ∷ fs)
Free-folder name path fs free n r =
    find_ne (name ∷ path) (r ++ n ∷ name ∷ path) folder_node fs (Fresh-ne r n (name ∷ path))
    ∙ ap (λ q. find q fs) (sym (append_assoc r (n ∷ []) (name ∷ path)))
    ∙ free (r ++ n ∷ [])
