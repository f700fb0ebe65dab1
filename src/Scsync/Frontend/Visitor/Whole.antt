-- ===== src/Scsync/Frontend/Visitor/Whole.antt =====
-- v2/scsync/src/frontend/visitor.rs: when all blocks below a root are there, and what `verify` says.
use das_protokoll.Base.{
  ℕ, zero, suc, ◌≡◌, ◌↔◌, refl, sym, ◌∙◌, Bool, true, not, Option, none, some, List, [], ◌∷◌, ◌>>=◌,
  All, Option-cases, inl, inr, >>=-eq-some,
}
use mathlib.Core.Path.{subst}
use das_protokoll.Scsync.BlockDb.{
  BlockRef, BlockDb, Block, blockid, key, Full, partial_block, full_block, full, get, is_some,
}
use das_protokoll.Scsync.Frontend.{
  BlockType, directory, Child, Decoded, decoded_dir, decoded_meta, decoded_leaf, Sealing,
  dir_from_full, decode_as,
}
use das_protokoll.Scsync.Frontend.Visitor.{
  verify_visitor, or_continue, visit_child, traverse_children, traverse_rec, traverse, root_of,
  verify,
}

-- The relation holds of the children of a directory; below anything else there is nothing to ask.
abbrev pub Below : (BlockRef → BlockType → Type 0) → Decoded → Type 0
Below R (decoded_dir d) = All (λ c. R c.blockref c.kind) d.children
Below R (decoded_meta m) = Unit {0}
Below R (decoded_leaf l) = Unit {0}

or_continue_lem :
    (r rest : Option (Option (Unit {0})))
    → ((do t ← r; or_continue t rest) ≡ some none) ↔ ((r ≡ some none) × (rest ≡ some none))
or_continue_lem none rest = (λ h. cc, λ h. cc (h.0))
or_continue_lem (some none) rest = (λ h. (refl, h), λ h. h.1)
or_continue_lem (some (some t)) rest = (λ h. cc, λ h. cc (h.0))

module _ (S : Sealing) (db : BlockDb) where
  -- The block is in the store and full, holds what its type says, and so do, for a directory, all of its
  -- children, through at most as many levels. What a file's meta block lists is not part of it.
  unfoldable pub Whole : ℕ → BlockRef → BlockType → Type 0
  Whole zero ref kind = ⊥
  Whole (suc n) ref kind =
      (f : Full) × (dec : Decoded) × (get (blockid ref) db ≡ some (full_block f))
      × (decode_as S kind f (key ref) ≡ some dec)
      × Below (Whole n) dec

  abbrev Visits : (List ℕ → BlockRef → Decoded → Option (Option (Unit {0}))) → ℕ → Type 0
  Visits descend n =
      (path : List ℕ) (ref : BlockRef) (kind : BlockType) (f : Full) (dec : Decoded)
      → get (blockid ref) db ≡ some (full_block f)
      → decode_as S kind f (key ref) ≡ some dec
      → (descend path ref dec ≡ some none) ↔ Whole n ref kind

  Whole-get :
      (n : ℕ) (ref : BlockRef) (kind : BlockType)
      → Whole n ref kind
      → (f : Full) × (dec : Decoded) × (get (blockid ref) db ≡ some (full_block f))
        × (decode_as S kind f (key ref) ≡ some dec)
  unfolding Whole
  Whole-get zero ref kind w = absurd w
  Whole-get (suc n) ref kind (f, dec, e, d, below) = (f, dec, e, d)

  child_lem :
      (descend : List ℕ → BlockRef → Decoded → Option (Option (Unit {0}))) (n : ℕ)
      → Visits descend n
      → (path : List ℕ) (ref : BlockRef) (c : Child) (rest : Option (Option (Unit {0})))
        (o : Option Block)
      → get (blockid c.blockref) db ≡ o
      → (visit_child S verify_visitor db descend path ref c rest o ≡ some none)
        ↔ (Whole n c.blockref c.kind × (rest ≡ some none))
  child_lem descend n v path ref c rest none e =
      (λ h. cc, λ w. let (f, dec, g, d) = Whole-get n c.blockref c.kind w.0 in cc)
  child_lem descend n v path ref c rest (some (partial_block p)) e =
      (λ h. cc, λ w. let (f, dec, g, d) = Whole-get n c.blockref c.kind w.0 in cc)
  child_lem descend n v path ref c rest (some (full_block f)) e =
      elim (Option-cases (decode_as S c.kind f (key c.blockref))) [
        | inl bad ↦ (
          λ h. cc (rw bad at h),
          λ w. let (f', dec, g, d) = Whole-get n c.blockref c.kind w.0 in cc,
        )
        | inr (dec, d) ↦
            let (to, from) = v (c.name ∷ path) c.blockref c.kind f dec e d in
            let (both, back) = or_continue_lem (descend (c.name ∷ path) c.blockref dec) rest in
            rw d (λ h. (to ((both h).0), (both h).1), λ w. back (from w.0, w.1))
      ]

  Whole-Below :
      (n : ℕ) (ref : BlockRef) (kind : BlockType) (f : Full) (dec : Decoded)
      → get (blockid ref) db ≡ some (full_block f)
      → decode_as S kind f (key ref) ≡ some dec
      → Whole (suc n) ref kind
      → Below (Whole n) dec
  unfolding Whole
  Whole-Below n ref kind f dec e d (f', dec', e', d', below) =
      let same_block : f' ≡ f = cc in
      let same : dec' ≡ dec = cc in subst (Below (Whole n)) same below

  children_lem :
      (descend : List ℕ → BlockRef → Decoded → Option (Option (Unit {0}))) (n : ℕ)
      → Visits descend n
      → (path : List ℕ) (ref : BlockRef) (cs : List Child)
      → (traverse_children S verify_visitor db descend path ref cs ≡ some none)
        ↔ All (λ c. Whole n c.blockref c.kind) cs
  unfolding traverse_children
  children_lem descend n v path ref [] = (λ h. tt, λ h. refl)
  children_lem descend n v path ref (c ∷ cs) =
      let (to, from) = children_lem descend n v path ref cs in
      let (to_child, from_child) =
        child_lem descend n v path ref c (traverse_children S verify_visitor db descend path ref cs)
          (get (blockid c.blockref) db) refl in
      (λ h. ((to_child h).0, to ((to_child h).1)), λ all. from_child (all.0, from all.1))

  -- A traversal from a full block finds nothing missing exactly if the block is whole.
  traverse_rec-Whole : (n : ℕ) → Visits (traverse_rec S verify_visitor db n) n
  unfolding traverse_rec Whole
  traverse_rec-Whole zero path ref kind f dec e d = (λ h. cc, λ w. absurd w)
  traverse_rec-Whole (suc n) path ref kind f (decoded_dir dir) e d =
      let (to, from) =
        children_lem (traverse_rec S verify_visitor db n) n (traverse_rec-Whole n) path ref
          dir.children in
      (
        λ h. (f, decoded_dir dir, e, d, to (rw e at h)),
        λ w. rw e (from (Whole-Below n ref kind f (decoded_dir dir) e d w)),
      )
  traverse_rec-Whole (suc n) path ref kind f (decoded_meta m) e d =
      rw e (λ h. (f, decoded_meta m, refl, d, tt), λ w. refl)
  traverse_rec-Whole (suc n) path ref kind f (decoded_leaf l) e d =
      rw e (λ h. (f, decoded_leaf l, refl, d, tt), λ w. refl)

  started :
      (n : ℕ) (root : BlockRef) (o : Option Block)
      → get (blockid root) db ≡ o
      → ((do
        block ← o
        f ← full block
        d ← dir_from_full S f (key root)
        traverse_rec S verify_visitor db n [] root (decoded_dir d))
          ≡ some none)
        ↔ Whole n root directory
  started n root none e =
      (λ h. cc, λ w. cc (let (f, dec, g, d) = Whole-get n root directory w in sym e ∙ g))
  started n root (some (partial_block p)) e =
      (λ h. cc, λ w. cc (let (f, dec, g, d) = Whole-get n root directory w in sym e ∙ g))
  started n root (some (full_block f)) e = elim (Option-cases (dir_from_full S f (key root))) [
    | inl bad ↦
        let undecoded : decode_as S directory f (key root) ≡ none =
          unfold decode_as in rw bad refl in
        rw bad (λ h. cc, λ w. let (f', dec, g, d) = Whole-get n root directory w in cc)
    | inr (d, ed) ↦ rw ed (
        traverse_rec-Whole n [] root directory f (decoded_dir d) e (unfold decode_as in rw ed refl))
  ]

  traverse-Whole :
      (n : ℕ) (root : BlockRef)
      → (traverse S verify_visitor db n root ≡ some none) ↔ Whole n root directory
  unfolding traverse
  traverse-Whole n root = started n root (get (blockid root) db) refl

says_yes :
    (r : Option (Option (Unit {0})))
    → (do t ← r; some (not (is_some t))) ≡ some true
    → r ≡ some none
says_yes none h = cc
says_yes (some none) h = refl
says_yes (some (some t)) h = cc

-- `verify` says yes exactly if the root is a full directory, and every child of it and of the directories
-- below it is in the store, full, and holds what its type says, through no more levels than there is
-- fuel. It does not ask for the leaves that a child's meta block lists.
pub verify-Whole :
    (S : Sealing) (n : ℕ) (db : BlockDb) (pending : Bool) (root : BlockRef)
    → root_of pending db ≡ some root
    → (verify S n db pending ≡ some true) ↔ Whole S db n root directory
unfolding verify
verify-Whole S n db pending root e =
    let (to, from) = traverse-Whole S db n root in
    rw e (λ h. to (says_yes (traverse S verify_visitor db n root) h), λ w. rw (from w) refl)

-- Whoever asks for the pending root has one.
pub verify-root_of :
    (S : Sealing) (n : ℕ) (db : BlockDb) (pending answer : Bool)
    → verify S n db pending ≡ some answer
    → (root : BlockRef) × (root_of pending db ≡ some root)
unfolding verify
verify-root_of S n db pending answer h =
    let (root, e, rest) = >>=-eq-some (root_of pending db) _ h in (root, e)
