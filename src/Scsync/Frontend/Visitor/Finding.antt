-- ===== src/Scsync/Frontend/Visitor/Finding.antt =====
-- v2/scsync/src/frontend/visitor.rs: what `verify` and `resolve` find.
use das_protokoll.Base.{
  ℕ, ◌≡◌, refl, ◌∙◌, ap, Bool, false, not, Option, none, some, ◌>>=◌, ◌==◌, ==_iff, Bool-cases, inl,
  inr, ◌⊎◌, if◌then◌else◌,
}
use mathlib.Core.Option.{some-injective}
use das_protokoll.Scsync.BlockDb.{
  BlockRef, BlockDb, blockid, key, Full, Partial, partial_block, full_block, get, is_some,
}
use das_protokoll.Scsync.Frontend.{
  BlockType, Decoded, decoded_dir, decoded_meta, decoded_leaf, Sealing, decode_as,
}
use das_protokoll.Scsync.Frontend.Visitor.{
  verify_visitor, resolve_block_visitor, traverse, root_of, verify, resolve,
}
use das_protokoll.Scsync.Frontend.Visitor.Answers.{
  Reaches, Answered, by_full, by_partial, by_missing, traverse-Answered,
}

-- The block is partial or not in the store at all.
abbrev pub Lacks : BlockDb → BlockRef → Type 0
Lacks db ref =
    (get (blockid ref) db ≡ none)
    ⊎ ((p : Partial) × (get (blockid ref) db ≡ some (partial_block p)))

says_no :
    (r : Option (Option (Unit {0})))
    → (do t ← r; some (not (is_some t))) ≡ some false
    → r ≡ some (some tt)
says_no none h = cc
says_no (some none) h = cc
says_no (some (some tt)) h = refl

-- If `verify` says no, a block that the root leads to through full directories is partial or missing.
pub verify-Lacks :
    (S : Sealing) (n : ℕ) (db : BlockDb) (pending : Bool) (root : BlockRef)
    → root_of pending db ≡ some root
    → verify S n db pending ≡ some false
    → (ref : BlockRef) × (kind : BlockType) × Reaches S db root ref kind × Lacks db ref
unfolding verify
verify-Lacks S n db pending root e h =
    let t : traverse S verify_visitor db n root ≡ some (some tt) =
      says_no (traverse S verify_visitor db n root) (rw e at h) in
    lacking (traverse-Answered S db root verify_visitor n tt t)
  where
    lacking :
        Answered S db root verify_visitor tt
        → (ref : BlockRef) × (kind : BlockType) × Reaches S db root ref kind × Lacks db ref
    lacking (by_full path ref kind f (decoded_dir d) r g dec v) = cc
    lacking (by_full path ref kind f (decoded_meta m) r g dec v) = cc
    lacking (by_full path ref kind f (decoded_leaf l) r g dec v) = cc
    lacking (by_partial path ref kind p r g v) = (ref, kind, r, inr (p, g))
    lacking (by_missing path ref kind id r g v) = (ref, kind, r, inl g)

found_lem :
    (id : ℕ) (f : Full) (dec t : Decoded)
    → (if f.id == id then some dec else none) ≡ some t
    → (f.id ≡ id) × (dec ≡ t)
found_lem id f dec t h = elim (Bool-cases (f.id == id)) [
  | inl same ↦ ((==_iff f.id id).0 same, some-injective _ _ (rw same at h))
  | inr other ↦ cc (rw other at h)
]

-- A full block with the id, which the root leads to, that holds the value.
abbrev pub Resolves : Sealing → BlockDb → BlockRef → ℕ → Decoded → Type 0
Resolves S db root id dec =
    (ref : BlockRef) × (kind : BlockType) × (f : Full) × Reaches S db root ref kind
    × (get (blockid ref) db ≡ some (full_block f))
    × (f.id ≡ id)
    × (decode_as S kind f (key ref) ≡ some dec)

-- What `resolve` returns is the value of a full block that has the id and that the root leads to; it
-- panics if there is none, and so for a block that only a file's meta block lists.
pub resolve-Resolves :
    (S : Sealing) (n : ℕ) (db : BlockDb) (id : ℕ) (pending : Bool) (root : BlockRef) (dec : Decoded)
    → root_of pending db ≡ some root
    → resolve S n db id pending ≡ some dec
    → Resolves S db root id dec
unfolding resolve
resolve-Resolves S n db id pending root dec e h = resolving (
    traverse-Answered S db root (resolve_block_visitor id) n dec
      (answered (traverse S (resolve_block_visitor id) db n root) (rw e at h)))
  where
    answered : (r : Option (Option Decoded)) → (do t ← r; t) ≡ some dec → r ≡ some (some dec)
    answered none h = cc
    answered (some t) h = ap some h

    resolving : Answered S db root (resolve_block_visitor id) dec → Resolves S db root id dec
    resolving (by_full path ref kind f (decoded_dir d) r g dec v) =
        let (same, eq) = found_lem id f (decoded_dir d) _ v in
        (ref, kind, f, r, g, same, dec ∙ ap some eq)
    resolving (by_full path ref kind f (decoded_meta m) r g dec v) =
        let (same, eq) = found_lem id f (decoded_meta m) _ v in
        (ref, kind, f, r, g, same, dec ∙ ap some eq)
    resolving (by_full path ref kind f (decoded_leaf l) r g dec v) =
        let (same, eq) = found_lem id f (decoded_leaf l) _ v in
        (ref, kind, f, r, g, same, dec ∙ ap some eq)
    resolving (by_partial path ref kind p r g v) = cc
    resolving (by_missing path ref kind id r g v) = cc
