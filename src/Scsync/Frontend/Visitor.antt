-- ===== src/Scsync/Frontend/Visitor.antt =====
-- v2/scsync/src/frontend/visitor.rs, and `resolve` and `verify` of frontend/mod.rs: the traversal of the
-- tree of blocks below a root. A path is the list of its names, the deepest first. `none` is a panic, or
-- more levels than there is fuel; a visitor's answer is an `Option` within.
pub mod Answers
mod Tests
pub mod Whole
pub mod Finding
pub mod Resolving
use das_protokoll.Base.{
  ℕ, zero, suc, Bool, Option, none, some, List, [], ◌∷◌, ◌==◌, if◌then◌else◌, ◌>>=◌, not,
}
use das_protokoll.Scsync.BlockDb.{
  BlockRef, BlockDb, Block, blockid, key, Full, Partial, partial_block, full_block, full, get,
  is_some,
}
use das_protokoll.Scsync.Frontend.{
  Child, Dir, Meta, Leaf, Decoded, decoded_dir, decoded_meta, decoded_leaf, Sealing, dir_from_full,
  decode_as,
}

-- The trait; neither visitor of the code changes itself.
pub record Visitor (T : Type 0) : Type 0 where
  pub visit_dir : List ℕ → Full → Dir → Option T
  pub visit_meta : BlockDb → List ℕ → Full → Meta → Option T
  pub visit_leaf : List ℕ → Full → Leaf → Option T
  pub visit_partial : List ℕ → Partial → Option T
  pub visit_missing : List ℕ → ℕ → Option T

-- `if let Some(t) = … { return Some(t); }`
abbrev pub or_continue : {T : Type 0} → Option T → Option (Option T) → Option (Option T)
or_continue none rest = rest
or_continue (some t) rest = some (some t)

module _ (S : Sealing) {T : Type 0} (V : Visitor T) (db : BlockDb) where
  open V use {visit_dir, visit_meta, visit_leaf, visit_partial, visit_missing}

  -- A child of a directory, whose block is or is not in the store; `descend` is the call of
  -- `traverse_rec`, and `rest` the visit of the children that follow.
  abbrev pub visit_child :
      (List ℕ → BlockRef → Decoded → Option (Option T))
      → List ℕ
      → BlockRef
      → Child
      → Option (Option T)
      → Option Block
      → Option (Option T)
  visit_child descend path bref c rest none = or_continue (visit_missing path (blockid bref)) rest
  visit_child descend path bref c rest (some (partial_block p)) =
      or_continue (visit_partial path p) rest
  visit_child descend path bref c rest (some (full_block f)) = do
    dec ← decode_as S c.kind f (key c.blockref)
    r ← descend (c.name ∷ path) c.blockref dec
    or_continue r rest

  unfoldable pub traverse_children :
      (List ℕ → BlockRef → Decoded → Option (Option T))
      → List ℕ
      → BlockRef
      → List Child
      → Option (Option T)
  traverse_children descend path bref [] = some none
  traverse_children descend path bref (c ∷ cs) =
      let rest = traverse_children descend path bref cs in
      visit_child descend path bref c rest (get (blockid c.blockref) db)

  -- The `match dec`.
  abbrev pub enter :
      (List ℕ → BlockRef → Decoded → Option (Option T))
      → List ℕ
      → BlockRef
      → Full
      → Decoded
      → Option (Option T)
  enter descend path bref f (decoded_dir d) =
      or_continue (visit_dir path f d) (traverse_children descend path bref d.children)
  enter descend path bref f (decoded_meta m) = some (visit_meta db path f m)
  enter descend path bref f (decoded_leaf l) = some (visit_leaf path f l)

  abbrev pub visit_block :
      (List ℕ → BlockRef → Decoded → Option (Option T))
      → List ℕ
      → BlockRef
      → Decoded
      → Option Block
      → Option (Option T)
  visit_block descend path bref dec none = some (visit_missing path (blockid bref))
  visit_block descend path bref dec (some (partial_block p)) = some (visit_partial path p)
  visit_block descend path bref dec (some (full_block f)) = enter descend path bref f dec

  unfoldable pub traverse_rec : ℕ → List ℕ → BlockRef → Decoded → Option (Option T)
  traverse_rec zero path bref dec = none
  traverse_rec (suc fuel) path bref dec =
      visit_block (traverse_rec fuel) path bref dec (get (blockid bref) db)

  unfoldable pub traverse : ℕ → BlockRef → Option (Option T)
  traverse fuel root = do
    block ← get (blockid root) db
    f ← full block
    d ← dir_from_full S f (key root)
    or_continue (visit_dir [] f d) (traverse_rec fuel [] root (decoded_dir d))

-- `ResolveBlockVisitor`
abbrev found : ℕ → Full → Decoded → Option Decoded
found id block dec = if block.id == id then some dec else none

abbrev pub resolve_block_visitor : ℕ → Visitor Decoded
resolve_block_visitor id = record {
  visit_dir = λ path block dir. found id block (decoded_dir dir);
  visit_meta = λ db path block meta. found id block (decoded_meta meta);
  visit_leaf = λ path block leaf. found id block (decoded_leaf leaf);
  visit_partial = λ path block. none;
  visit_missing = λ path id. none;
}

-- `VerifyVisitor`
abbrev pub verify_visitor : Visitor (Unit {0})
verify_visitor = record {
  visit_dir = λ path block dir. none;
  visit_meta = λ db path block meta. none;
  visit_leaf = λ path block leaf. none;
  visit_partial = λ path block. some tt;
  visit_missing = λ path id. some tt;
}

abbrev pub root_of : Bool → BlockDb → Option BlockRef
root_of pending db = if pending then db.pending_root else some db.root

module _ (S : Sealing) where
  unfoldable pub resolve : ℕ → BlockDb → ℕ → Bool → Option Decoded
  resolve fuel db id pending = do
    root ← root_of pending db
    r ← traverse S (resolve_block_visitor id) db fuel root
    r

  unfoldable pub verify : ℕ → BlockDb → Bool → Option Bool
  verify fuel db pending = do
    root ← root_of pending db
    r ← traverse S verify_visitor db fuel root
    some (not (is_some r))
