-- ===== src/Scsync/Frontend/Folder/Stored.antt =====
-- v2/scsync/src/frontend/mod.rs: what it means that a store of blocks holds a folder.
use das_protokoll.Base.{
  ℕ, suc, ◌≤◌, ◌≡◌, refl, sym, ◌∙◌, ap, none, some, List, [], ◌∷◌, ◌++◌, ◌==◌, arith, Bool-cases,
  inl, inr, length,
}
use das_protokoll.Scsync.BlockDb.{blockid, key, Block, Full, full_block, lookup, insert}
use das_protokoll.Scsync.BlockDb.Store.{lookup-insert_ne}
use das_protokoll.Scsync.Frontend.{
  directory, leaf, Child, Dir, Sealing, leaf_from_full, dir_from_full,
}
use das_protokoll.Scsync.Frontend.Folder.Tree.{Tree, link, content, entries, Entries, nil, entry}

module _ (S : Sealing) (text : ℕ → ℕ) where
  unfoldable mutual
    -- The children, one or none, that stand for a tree with the name: a leaf with the content of a file,
    -- a directory with the entries of a folder, and none for a symbolic link.
    pub StoredAs : List (ℕ × Block) → Tree → ℕ → List Child → Type 0
    StoredAs blocks link name cs = cs ≡ []
    StoredAs blocks (content bytes) name cs =
        (c : Child) × (f : Full) × (cs ≡ c ∷ [])
        × (c.name ≡ text name)
        × (c.kind ≡ leaf)
        × (lookup (blockid c.blockref) blocks ≡ some (full_block f))
        × (leaf_from_full S f (key c.blockref) ≡ some (record { bytes = bytes }))
    StoredAs blocks (entries es) name cs =
        (c : Child) × (f : Full) × (d : Dir) × (cs ≡ c ∷ [])
        × (c.name ≡ text name)
        × (c.kind ≡ directory)
        × (lookup (blockid c.blockref) blocks ≡ some (full_block f))
        × (dir_from_full S f (key c.blockref) ≡ some d)
        × StoredAll blocks es d.children

    pub StoredAll : List (ℕ × Block) → Entries → List Child → Type 0
    StoredAll blocks nil cs = cs ≡ []
    StoredAll blocks (entry name t es) cs =
        (front : List Child) × (back : List Child) × (cs ≡ front ++ back)
        × StoredAs blocks t name front
        × StoredAll blocks es back

-- No block is lost.
abbrev pub Keeps : List (ℕ × Block) → List (ℕ × Block) → Type 0
Keeps m m' = (id : ℕ) (b : Block) → lookup id m ≡ some b → lookup id m' ≡ some b

module _ (S : Sealing) (text : ℕ → ℕ) (m m' : List (ℕ × Block)) (k : Keeps m m') where
  mutual
    unfolding StoredAs

    pub StoredAs-Keeps :
        (t : Tree) (name : ℕ) (cs : List Child)
        → StoredAs S text m t name cs
        → StoredAs S text m' t name cs
    StoredAs-Keeps link name cs h = h
    StoredAs-Keeps (content bytes) name cs (c, f, e, n, kind, l, d) =
        (c, f, e, n, kind, k (blockid c.blockref) (full_block f) l, d)
    StoredAs-Keeps (entries es) name cs (c, f, dir, e, n, kind, l, d, all) = (
      c,
      f,
      dir,
      e,
      n,
      kind,
      k (blockid c.blockref) (full_block f) l,
      d,
      StoredAll-Keeps es dir.children all,
    )

    pub StoredAll-Keeps :
        (es : Entries) (cs : List Child) → StoredAll S text m es cs → StoredAll S text m' es cs
    StoredAll-Keeps nil cs h = h
    StoredAll-Keeps (entry name t es) cs (front, back, e, one, all) =
        (front, back, e, StoredAs-Keeps t name front one, StoredAll-Keeps es back all)

pub length-insert :
    (id : ℕ) (b : Block) (m : List (ℕ × Block))
    → (length (insert id b m) ≤ suc (length m))
      × (length (insert id b m) ≡ suc (length m) → lookup id m ≡ none)
unfolding insert lookup
length-insert id b [] = (omega arith, λ h. refl)
length-insert id b ((i, c) ∷ m) = elim (Bool-cases (i == id)) [
  | inl here ↦ rw here (omega arith, λ h. absurd (omega (arith, h)))
  | inr later ↦
      let (most, fresh) = length-insert id b m in
      rw later (omega (arith, most), λ h. fresh (omega (arith, h)))
]

-- A block with an id that the store does not have yet replaces none.
pub insert-Keeps :
    (id : ℕ) (b : Block) (m : List (ℕ × Block)) → lookup id m ≡ none → Keeps m (insert id b m)
insert-Keeps id b m absent i c e =
    lookup-insert_ne id i b m (λ (same : id ≡ i). cc (sym absent ∙ ap (λ j. lookup j m) same ∙ e))
    ∙ e
