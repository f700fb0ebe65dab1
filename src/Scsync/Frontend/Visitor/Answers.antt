-- ===== src/Scsync/Frontend/Visitor/Answers.antt =====
-- v2/scsync/src/frontend/visitor.rs: the blocks that a root leads to, and the answers of a traversal.
use das_protokoll.Base.{
  ℕ, zero, suc, ◌≡◌, refl, Option, none, some, List, [], ◌∷◌, ◌>>=◌, Option-cases, inl, inr, ◌⊎◌,
  In,
}
use mathlib.Core.Option.{some-injective}
use das_protokoll.Scsync.BlockDb.{
  BlockRef, BlockDb, Block, blockid, key, Full, Partial, partial_block, full_block, full, get,
}
use das_protokoll.Scsync.Frontend.{
  BlockType, directory, Child, Dir, Decoded, decoded_dir, decoded_meta, decoded_leaf, Sealing,
  dir_from_full, decode_as,
}
use das_protokoll.Scsync.Frontend.Visitor.{
  Visitor, or_continue, visit_child, traverse_children, traverse_rec, traverse,
}

module _ (S : Sealing) (db : BlockDb) (root : BlockRef) where
  -- The references that lead from the root through full directories.
  pub data Reaches : BlockRef → BlockType → Type 0 where
    at_root : Reaches root directory
    child :
        {ref : BlockRef} {kind : BlockType}
        → Reaches ref kind
        → (f : Full) (d : Dir) → get (blockid ref) db ≡ some (full_block f)
        → decode_as S kind f (key ref) ≡ some (decoded_dir d)
        → (c : Child) → In c d.children
        → Reaches c.blockref c.kind

  module _ {T : Type 0} (V : Visitor T) where
    -- The call for a full block.
    abbrev pub visited : List ℕ → Full → Decoded → Option T
    visited path f (decoded_dir d) = V.visit_dir path f d
    visited path f (decoded_meta m) = V.visit_meta db path f m
    visited path f (decoded_leaf l) = V.visit_leaf path f l

    -- A call of the visitor, about a reference that the root leads to, that answered with `t`.
    pub data Answered (t : T) : Type 0 where
      by_full :
          (path : List ℕ) (ref : BlockRef) (kind : BlockType) (f : Full) (dec : Decoded)
          → Reaches ref kind
          → get (blockid ref) db ≡ some (full_block f)
          → decode_as S kind f (key ref) ≡ some dec
          → visited path f dec ≡ some t
          → Answered t
      by_partial :
          (path : List ℕ) (ref : BlockRef) (kind : BlockType) (p : Partial)
          → Reaches ref kind
          → get (blockid ref) db ≡ some (partial_block p)
          → V.visit_partial path p ≡ some t
          → Answered t
      by_missing :
          (path : List ℕ) (ref : BlockRef) (kind : BlockType) (id : ℕ)
          → Reaches ref kind
          → get (blockid ref) db ≡ none
          → V.visit_missing path id ≡ some t
          → Answered t

    abbrev Answers : (List ℕ → BlockRef → Decoded → Option (Option T)) → Type 0
    Answers descend =
        (path : List ℕ) (ref : BlockRef) (kind : BlockType) (f : Full) (dec : Decoded) (t : T)
        → Reaches ref kind
        → get (blockid ref) db ≡ some (full_block f)
        → decode_as S kind f (key ref) ≡ some dec
        → descend path ref dec ≡ some (some t)
        → Answered t

    -- The first answer, or that of the rest.
    or_continue-some :
        (o : Option T) (rest : Option (Option T)) (t : T)
        → or_continue o rest ≡ some (some t)
        → (o ≡ some t) ⊎ (rest ≡ some (some t))
    or_continue-some none rest t h = inr h
    or_continue-some (some u) rest t h = inl (some-injective _ _ h)

    bind_some :
        (r : Option (Option T)) (rest : Option (Option T)) (t : T)
        → (do u ← r; or_continue u rest) ≡ some (some t)
        → (r ≡ some (some t)) ⊎ (rest ≡ some (some t))
    bind_some none rest t h = cc
    bind_some (some none) rest t h = inr h
    bind_some (some (some u)) rest t h = inl h

    child_Answered :
        (descend : List ℕ → BlockRef → Decoded → Option (Option T))
        → Answers descend
        → (path : List ℕ) (ref : BlockRef) (c : Child) (rest : Option (Option T)) (t : T)
        → Reaches c.blockref c.kind
        → (o : Option Block) → get (blockid c.blockref) db ≡ o
        → visit_child S V db descend path ref c rest o ≡ some (some t)
        → Answered t ⊎ (rest ≡ some (some t))
    child_Answered descend a path ref c rest t r none e h =
        elim (or_continue-some (V.visit_missing path (blockid ref)) rest t h) [
          | inl here ↦ inl (by_missing path c.blockref c.kind (blockid ref) r e here)
          | inr later ↦ inr later
        ]
    child_Answered descend a path ref c rest t r (some (partial_block p)) e h =
        elim (or_continue-some (V.visit_partial path p) rest t h) [
          | inl here ↦ inl (by_partial path c.blockref c.kind p r e here)
          | inr later ↦ inr later
        ]
    child_Answered descend a path ref c rest t r (some (full_block f)) e h =
        elim (Option-cases (decode_as S c.kind f (key c.blockref))) [
          | inl bad ↦ cc (rw bad at h)
          | inr (dec, d) ↦
              elim (bind_some (descend (c.name ∷ path) c.blockref dec) rest t (rw d at h)) [
                | inl here ↦ inl (a (c.name ∷ path) c.blockref c.kind f dec t r e d here)
                | inr later ↦ inr later
              ]
        ]

    children_Answered :
        (descend : List ℕ → BlockRef → Decoded → Option (Option T))
        → Answers descend
        → (path : List ℕ) (ref : BlockRef) (cs : List Child) (t : T)
        → ((c : Child) → In c cs → Reaches c.blockref c.kind)
        → traverse_children S V db descend path ref cs ≡ some (some t)
        → Answered t
    unfolding traverse_children
    children_Answered descend a path ref [] t r h = cc
    children_Answered descend a path ref (c ∷ cs) t r h =
        elim (child_Answered descend a path ref c (traverse_children S V db descend path ref cs) t
          (r c (inl refl)) (get (blockid c.blockref) db) refl h) [
            | inl here ↦ here
            | inr later ↦ children_Answered descend a path ref cs t (λ c' m. r c' (inr m)) later
          ]

    traverse_rec-Answered : (n : ℕ) → Answers (traverse_rec S V db n)
    unfolding traverse_rec
    traverse_rec-Answered zero path ref kind f dec t r e d h = cc
    traverse_rec-Answered (suc n) path ref kind f (decoded_dir dir) t r e d h =
        elim (or_continue-some (V.visit_dir path f dir)
          (traverse_children S V db (traverse_rec S V db n) path ref dir.children) t (rw e at h)) [
            | inl here ↦ by_full path ref kind f (decoded_dir dir) r e d here
            | inr later ↦
                children_Answered (traverse_rec S V db n) (traverse_rec-Answered n) path ref
                  dir.children t (λ c m. child r f dir e d c m) later
          ]
    traverse_rec-Answered (suc n) path ref kind f (decoded_meta m) t r e d h =
        by_full path ref kind f (decoded_meta m) r e d (some-injective _ _ (rw e at h))
    traverse_rec-Answered (suc n) path ref kind f (decoded_leaf l) t r e d h =
        by_full path ref kind f (decoded_leaf l) r e d (some-injective _ _ (rw e at h))

    started_Answered :
        (n : ℕ) (t : T) (o : Option Block)
        → get (blockid root) db ≡ o
        → (do
          block ← o
          f ← full block
          d ← dir_from_full S f (key root)
          or_continue (V.visit_dir [] f d) (traverse_rec S V db n [] root (decoded_dir d)))
          ≡ some (some t)
        → Answered t
    started_Answered n t none e h = cc
    started_Answered n t (some (partial_block p)) e h = cc
    started_Answered n t (some (full_block f)) e h =
        elim (Option-cases (dir_from_full S f (key root))) [
          | inl bad ↦ cc (rw bad at h)
          | inr (d, ed) ↦
              let dec : decode_as S directory f (key root) ≡ some (decoded_dir d) =
                unfold decode_as in rw ed refl in
              elim (or_continue-some (V.visit_dir [] f d)
                (traverse_rec S V db n [] root (decoded_dir d)) t (rw ed at h)) [
                  | inl here ↦ by_full [] root directory f (decoded_dir d) at_root e dec here
                  | inr later ↦
                      traverse_rec-Answered n [] root directory f (decoded_dir d) t at_root e dec
                        later
                ]
        ]

    -- An answer of a traversal is the answer of one call of the visitor, about a block that is reached
    -- from the root: about its value, if it is full, or about a block that is partial or missing.
    pub traverse-Answered : (n : ℕ) (t : T) → traverse S V db n root ≡ some (some t) → Answered t
    unfolding traverse
    traverse-Answered n t h = started_Answered n t (get (blockid root) db) refl h
