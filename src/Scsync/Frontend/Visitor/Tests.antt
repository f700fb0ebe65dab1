-- ===== src/Scsync/Frontend/Visitor/Tests.antt =====
-- A directory with a leaf and a file whose meta block lists another leaf.
use das_protokoll.Base.{◌≡◌, ◌↔◌, refl, true, false, none, some, [], ◌∷◌, inl, inr}
use das_protokoll.Scsync.BlockDb.{
  BlockRef, block_ref, no_hint, blockid, Full, full_block, BlockDb, get, lookup,
}
use das_protokoll.Scsync.Frontend.{
  BlockType, directory, file_meta, leaf, Child, Dir, Meta, Decoded, decoded_dir, decoded_leaf,
  to_block, decode_as, from_full,
}
use das_protokoll.Scsync.Frontend.Instances.{
  sealing, dir_cbor, meta_cbor, leaf_cbor, read_children, read_ref, read_refs, write_children,
  write_ref, write_refs,
}
use das_protokoll.Scsync.Frontend.Visitor.{
  verify, resolve, traverse, traverse_children, traverse_rec,
}
use das_protokoll.Scsync.Frontend.Visitor.Whole.{Whole, verify-Whole}
use das_protokoll.Scsync.Frontend.Visitor.Finding.{Lacks, verify-Lacks, Resolves, resolve-Resolves}
use das_protokoll.Scsync.Frontend.Visitor.Answers.{Reaches, at_root, child}
use das_protokoll.Scsync.Frontend.Visitor.Resolving.{Readable, resolve_reached}

abbrev leaf_block : Full
leaf_block = (to_block sealing leaf_cbor (8 ∷ []) 1 1).1

abbrev listed_block : Full
listed_block = (to_block sealing leaf_cbor (9 ∷ []) 2 2).1

abbrev listed : Meta
listed = record { blocks = block_ref listed_block.id 2 no_hint ∷ [] }

abbrev meta_block : Full
meta_block = (to_block sealing meta_cbor listed 3 3).1

abbrev leaf_child : Child
leaf_child = record { name = 4; kind = leaf; blockref = block_ref leaf_block.id 1 no_hint }

abbrev meta_child : Child
meta_child = record { name = 5; kind = file_meta; blockref = block_ref meta_block.id 3 no_hint }

abbrev top : Dir
top = record { children = leaf_child ∷ meta_child ∷ [] }

abbrev top_block : Full
top_block = (to_block sealing dir_cbor top 6 6).1

abbrev root : BlockRef
root = block_ref top_block.id 6 no_hint

-- The leaf that the meta block lists is not there.
abbrev store : BlockDb
store = record {
  root = root;
  pending_root = none;
  blocks =
      (top_block.id, full_block top_block)
      ∷ (leaf_block.id, full_block leaf_block)
      ∷ (meta_block.id, full_block meta_block)
      ∷ [];
}

abbrev without_meta : BlockDb
without_meta = record store {
  blocks = (top_block.id, full_block top_block) ∷ (leaf_block.id, full_block leaf_block) ∷ [];
}

verify-Whole_example :
    (verify sealing 2 store false ≡ some true) ↔ Whole sealing store 2 root directory
verify-Whole_example = verify-Whole sealing 2 store false root refl

-- `verify` says yes although a leaf of the file is missing.
yes_without_leaf : verify sealing 2 store false ≡ some true
unfolding verify traverse get lookup to_block write_children write_ref write_refs from_full
    read_children read_ref traverse_rec traverse_children decode_as read_refs
yes_without_leaf = refl

says_no : verify sealing 2 without_meta false ≡ some false
unfolding verify traverse get lookup to_block write_children write_ref write_refs from_full
    read_children read_ref traverse_rec traverse_children decode_as
says_no = refl

verify-Lacks_example :
    (ref : BlockRef) × (kind : BlockType) × Reaches sealing without_meta root ref kind
    × Lacks without_meta ref
verify-Lacks_example = verify-Lacks sealing 2 without_meta false root refl says_no

resolves_leaf :
    resolve sealing 2 without_meta leaf_block.id false
    ≡ some (decoded_leaf (record { bytes = 8 ∷ [] }))
unfolding resolve traverse get lookup to_block write_children write_ref write_refs from_full
    read_children read_ref traverse_rec traverse_children decode_as
resolves_leaf = refl

resolve-Resolves_example :
    Resolves sealing without_meta root leaf_block.id (decoded_leaf (record { bytes = 8 ∷ [] }))
resolve-Resolves_example =
    resolve-Resolves sealing 2 without_meta leaf_block.id false root
      (decoded_leaf (record { bytes = 8 ∷ [] })) refl resolves_leaf

has_top : get (blockid root) without_meta ≡ some (full_block top_block)
unfolding get lookup to_block write_children write_ref write_refs
has_top = refl

lacks_meta : get (blockid meta_child.blockref) without_meta ≡ none
unfolding get lookup to_block write_children write_ref write_refs
lacks_meta = refl

has_leaf : get (blockid leaf_child.blockref) without_meta ≡ some (full_block leaf_block)
unfolding get lookup to_block write_children write_ref write_refs
has_leaf = refl

reads_top : decode_as sealing directory top_block 6 ≡ some (decoded_dir top)
unfolding decode_as from_full to_block read_children write_children read_ref write_ref
reads_top = refl

reads_leaf : decode_as sealing leaf leaf_block 1 ≡ some (decoded_leaf (record { bytes = 8 ∷ [] }))
unfolding decode_as from_full to_block
reads_leaf = refl

is_readable : Readable sealing without_meta 2 root directory
unfolding Readable
is_readable = inr (
  top_block,
  decoded_dir top,
  has_top,
  reads_top,
  (
    inr (leaf_block, decoded_leaf (record { bytes = 8 ∷ [] }), has_leaf, reads_leaf, tt),
    (inl (inl lacks_meta), tt),
  ),
)

resolve_reached_example :
    (dec' : Decoded) × (resolve sealing 2 without_meta leaf_block.id false ≡ some dec')
resolve_reached_example =
    resolve_reached sealing 2 without_meta leaf_block.id false root top_block
      (decoded_leaf (record { bytes = 8 ∷ [] })) refl has_top is_readable
      (
        leaf_child.blockref,
        leaf,
        leaf_block,
        child at_root top_block top has_top reads_top leaf_child (inl refl),
        has_leaf,
        refl,
        reads_leaf,
      )
