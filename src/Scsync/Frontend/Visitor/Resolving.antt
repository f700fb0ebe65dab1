-- ===== src/Scsync/Frontend/Visitor/Resolving.antt =====
-- v2/scsync/src/frontend/visitor.rs: when `resolve` finds a block.
use das_protokoll.Base.{
  ℕ, zero, suc, ◌≡◌, ◌≢◌, refl, sym, ◌∙◌, ap, Bool, Option, none, some, List, [], ◌∷◌, ◌>>=◌, ◌==◌,
  ==_iff, All, inl, inr, ◌⊎◌, if◌then◌else◌, All-In,
}
use mathlib.Core.Path.{subst}
use das_protokoll.Scsync.BlockDb.{
  BlockRef, BlockDb, Block, blockid, key, Full, partial_block, full_block, get,
}
use das_protokoll.Scsync.Frontend.{
  BlockType, directory, Child, Decoded, decoded_dir, decoded_meta, decoded_leaf, Sealing, decode_as,
}
use das_protokoll.Scsync.Frontend.Sealed.{decode_as-directory}
use das_protokoll.Scsync.Frontend.Visitor.{
  resolve_block_visitor, or_continue, visit_child, traverse_children, traverse_rec, traverse,
  root_of, resolve,
}
use das_protokoll.Scsync.Frontend.Visitor.Whole.{Below}
use das_protokoll.Scsync.Frontend.Visitor.Finding.{Lacks, Resolves}
use das_protokoll.Scsync.Frontend.Visitor.Answers.{Reaches, at_root, child}

-- The result is an answer, or there is none and then `Q`.
abbrev Ended : Option (Option Decoded) → Type 0 → Type 0
Ended r Q = ((r ≡ some none) × Q) ⊎ ((t : Decoded) × (r ≡ some (some t)))

Ended-continue :
    (o : Option Decoded) (rest : Option (Option Decoded)) (P Q : Type 0)
    → (o ≡ none → P)
    → Ended rest Q
    → Ended (or_continue o rest) (P × Q)
Ended-continue none rest P Q p (inl (e, q)) = inl (e, (p refl, q))
Ended-continue none rest P Q p (inr (t, e)) = inr (t, e)
Ended-continue (some t) rest P Q p r = inr (t, refl)

Ended-bind :
    (r rest : Option (Option Decoded)) (P Q : Type 0)
    → Ended r P
    → Ended rest Q
    → Ended (do u ← r; or_continue u rest) (P × Q)
Ended-bind r rest P Q (inl (e, p)) (inl (e', q)) = rw e (inl (e', (p, q)))
Ended-bind r rest P Q (inl (e, p)) (inr (t, e')) = rw e (inr (t, e'))
Ended-bind r rest P Q (inr (t, e)) end = rw e (inr (t, refl))

Ended-own : {Q : Type 0} (o : Option Decoded) → (o ≡ none → Q) → Ended (some o) Q
Ended-own none q = inl (refl, q refl)
Ended-own (some t) q = inr (t, refl)

Ended-map : {P Q : Type 0} (r : Option (Option Decoded)) → (P → Q) → Ended r P → Ended r Q
Ended-map r f (inl (e, p)) = inl (e, f p)
Ended-map r f (inr t) = inr t

module _ (S : Sealing) (db : BlockDb) where
  -- Every full block, through at most as many levels, holds what its type says; a block that is partial
  -- or missing is not entered.
  unfoldable pub Readable : ℕ → BlockRef → BlockType → Type 0
  Readable zero ref kind = ⊥
  Readable (suc n) ref kind =
      Lacks db ref
      ⊎ ((f : Full) × (dec : Decoded) × (get (blockid ref) db ≡ some (full_block f))
          × (decode_as S kind f (key ref) ≡ some dec)
          × Below (Readable n) dec)

  Readable-Below :
      (n : ℕ) (ref : BlockRef) (kind : BlockType) (f : Full) (dec : Decoded)
      → get (blockid ref) db ≡ some (full_block f)
      → decode_as S kind f (key ref) ≡ some dec
      → Readable (suc n) ref kind
      → Below (Readable n) dec
  unfolding Readable
  Readable-Below n ref kind f dec e d (inl (inl g)) = cc
  Readable-Below n ref kind f dec e d (inl (inr (p, g))) = cc
  Readable-Below n ref kind f dec e d (inr (f', dec', e', d', below)) =
      let same_block : f' ≡ f = cc in
      let same : dec' ≡ dec = cc in subst (Below (Readable n)) same below

  Readable-decode :
      (n : ℕ) (ref : BlockRef) (kind : BlockType) (f : Full)
      → get (blockid ref) db ≡ some (full_block f)
      → Readable n ref kind
      → (dec : Decoded) × (decode_as S kind f (key ref) ≡ some dec)
  unfolding Readable
  Readable-decode zero ref kind f e r = absurd r
  Readable-decode (suc n) ref kind f e (inl (inl g)) = cc
  Readable-decode (suc n) ref kind f e (inl (inr (p, g))) = cc
  Readable-decode (suc n) ref kind f e (inr (f', dec, e', d, below)) =
      let same_block : f' ≡ f = cc in (dec, rw (← same_block) d)

  module _ (id : ℕ) where
    -- No full block has the id.
    unfoldable Quiet : ℕ → BlockRef → BlockType → Type 0
    Quiet zero ref kind = Unit {0}
    Quiet (suc n) ref kind =
        (f : Full) (dec : Decoded)
        → get (blockid ref) db ≡ some (full_block f)
        → decode_as S kind f (key ref) ≡ some dec
        → (f.id ≢ id) × Below (Quiet n) dec

    Quiet-lacking : (n : ℕ) (ref : BlockRef) (kind : BlockType) → Lacks db ref → Quiet n ref kind
    unfolding Quiet
    Quiet-lacking zero ref kind l = tt
    Quiet-lacking (suc n) ref kind (inl g) = λ f dec e d. cc
    Quiet-lacking (suc n) ref kind (inr (p, g)) = λ f dec e d. cc

    abbrev Ends : (List ℕ → BlockRef → Decoded → Option (Option Decoded)) → ℕ → Type 0
    Ends descend n =
        (path : List ℕ) (ref : BlockRef) (kind : BlockType) (f : Full) (dec : Decoded)
        → Readable n ref kind
        → get (blockid ref) db ≡ some (full_block f)
        → decode_as S kind f (key ref) ≡ some dec
        → Ended (descend path ref dec) (Quiet n ref kind)

    child_Ended :
        (descend : List ℕ → BlockRef → Decoded → Option (Option Decoded)) (n : ℕ)
        → Ends descend n
        → (path : List ℕ) (ref : BlockRef) (c : Child) (rest : Option (Option Decoded)) (Q : Type 0)
        → Readable n c.blockref c.kind
        → Ended rest Q
        → (o : Option Block) → get (blockid c.blockref) db ≡ o
        → Ended
            (visit_child S (resolve_block_visitor id) db descend path ref c rest o)
            (Quiet n c.blockref c.kind × Q)
    child_Ended descend n v path ref c rest Q r end none e =
        Ended-continue none rest (Quiet n c.blockref c.kind) Q
          (λ h. Quiet-lacking n c.blockref c.kind (inl e)) end
    child_Ended descend n v path ref c rest Q r end (some (partial_block p)) e =
        Ended-continue none rest (Quiet n c.blockref c.kind) Q
          (λ h. Quiet-lacking n c.blockref c.kind (inr (p, e))) end
    child_Ended descend n v path ref c rest Q r end (some (full_block f)) e =
        let (dec, d) = Readable-decode n c.blockref c.kind f e r in
        rw d (
          Ended-bind (descend (c.name ∷ path) c.blockref dec) rest (Quiet n c.blockref c.kind) Q
            (v (c.name ∷ path) c.blockref c.kind f dec r e d) end)

    children_Ended :
        (descend : List ℕ → BlockRef → Decoded → Option (Option Decoded)) (n : ℕ)
        → Ends descend n
        → (path : List ℕ) (ref : BlockRef) (cs : List Child)
        → All (λ c. Readable n c.blockref c.kind) cs
        → Ended
            (traverse_children S (resolve_block_visitor id) db descend path ref cs)
            (All (λ c. Quiet n c.blockref c.kind) cs)
    unfolding traverse_children
    children_Ended descend n v path ref [] r = inl (refl, tt)
    children_Ended descend n v path ref (c ∷ cs) (r, rs) =
        child_Ended descend n v path ref c
          (traverse_children S (resolve_block_visitor id) db descend path ref cs)
          (All (λ c'. Quiet n c'.blockref c'.kind) cs) r (children_Ended descend n v path ref cs rs)
          (get (blockid c.blockref) db) refl

    other_id :
        (f : Full) (dec : Decoded) → (if f.id == id then some dec else none) ≡ none → f.id ≢ id
    other_id f dec h same = cc (rw ((==_iff f.id id).1 same) at h)

    quiet :
        (n : ℕ) (ref : BlockRef) (kind : BlockType) (f : Full) (dec : Decoded)
        → get (blockid ref) db ≡ some (full_block f)
        → decode_as S kind f (key ref) ≡ some dec
        → f.id ≢ id
        → Below (Quiet n) dec
        → Quiet (suc n) ref kind
    unfolding Quiet
    quiet n ref kind f dec e d ne below f' dec' e' d' =
        let same_block : f ≡ f' = cc in
        let same : dec ≡ dec' = cc in
        (λ eq. ne (ap (λ (g : Full). g.id) same_block ∙ eq), subst (Below (Quiet n)) same below)

    traverse_rec-Ended : (n : ℕ) → Ends (traverse_rec S (resolve_block_visitor id) db n) n
    unfolding traverse_rec
    traverse_rec-Ended zero path ref kind f dec r e d = absurd (unfold Readable in r)
    traverse_rec-Ended (suc n) path ref kind f (decoded_dir dir) r e d = rw e (
        Ended-map _ (λ (ne, below). quiet n ref kind f (decoded_dir dir) e d ne below)
          (Ended-continue (if f.id == id then some (decoded_dir dir) else none)
            (traverse_children S (resolve_block_visitor id) db
              (traverse_rec S (resolve_block_visitor id) db n) path ref dir.children)
            (f.id ≢ id) (All (λ c. Quiet n c.blockref c.kind) dir.children)
            (other_id f (decoded_dir dir))
            (children_Ended (traverse_rec S (resolve_block_visitor id) db n) n
              (traverse_rec-Ended n) path ref dir.children
              (Readable-Below n ref kind f (decoded_dir dir) e d r))))
    traverse_rec-Ended (suc n) path ref kind f (decoded_meta m) r e d = rw e (
        Ended-own (if f.id == id then some (decoded_meta m) else none)
          (λ h. quiet n ref kind f (decoded_meta m) e d (other_id f (decoded_meta m) h) tt))
    traverse_rec-Ended (suc n) path ref kind f (decoded_leaf l) r e d = rw e (
        Ended-own (if f.id == id then some (decoded_leaf l) else none)
          (λ h. quiet n ref kind f (decoded_leaf l) e d (other_id f (decoded_leaf l) h) tt))

    Quiet-Below :
        (n : ℕ) (ref : BlockRef) (kind : BlockType) (f : Full) (dec : Decoded)
        → get (blockid ref) db ≡ some (full_block f)
        → decode_as S kind f (key ref) ≡ some dec
        → Quiet (suc n) ref kind
        → Below (Quiet n) dec
    unfolding Quiet
    Quiet-Below n ref kind f dec e d q = (q f dec e d).1

    -- What is reached from a readable and quiet root is readable and quiet.
    Reaches-Quiet :
        (n : ℕ) (root ref : BlockRef) (kind : BlockType)
        → Readable n root directory
        → Quiet n root directory
        → Reaches S db root ref kind
        → (m : ℕ) × Readable m ref kind × Quiet m ref kind
    Reaches-Quiet n root ref kind r q at_root = (n, r, q)
    Reaches-Quiet n root ref kind r q (child {ref = up} {kind = of} reach f d e dec c m) =
        below (Reaches-Quiet n root up of r q reach)
      where
        below :
            (k : ℕ) × Readable k up of × Quiet k up of
            → (k : ℕ) × Readable k c.blockref c.kind × Quiet k c.blockref c.kind
        below (zero, rk, qk) = absurd (unfold Readable in rk)
        below (suc k, rk, qk) = (
          k,
          All-In (λ c'. Readable k c'.blockref c'.kind) c d.children
              (Readable-Below k up of f (decoded_dir d) e dec rk) m,
          All-In (λ c'. Quiet k c'.blockref c'.kind) c d.children
              (Quiet-Below k up of f (decoded_dir d) e dec qk) m,
        )

    Quiet-id :
        (n : ℕ) (ref : BlockRef) (kind : BlockType) (f : Full) (dec : Decoded)
        → Readable n ref kind
        → Quiet n ref kind
        → get (blockid ref) db ≡ some (full_block f)
        → decode_as S kind f (key ref) ≡ some dec
        → f.id ≢ id
    unfolding Quiet Readable
    Quiet-id zero ref kind f dec r q e d = absurd r
    Quiet-id (suc n) ref kind f dec r q e d = (q f dec e d).0

at_least :
    (o : Option Decoded) (rest : Option (Option Decoded))
    → ((t : Decoded) × (rest ≡ some (some t)))
    → (t : Decoded) × ((do u ← or_continue o rest; u) ≡ some t)
at_least none rest (t, e) = (t, rw e refl)
at_least (some u) rest t = (u, refl)

-- `resolve` finds a block: if the root block is full, and every full block below it holds what its type
-- says, `resolve` does not panic for the id of a full block that the root leads to, however many others
-- are still partial or missing.
pub resolve_reached :
    (S : Sealing) (n : ℕ) (db : BlockDb) (id : ℕ) (pending : Bool) (root : BlockRef) (f : Full)
    (dec : Decoded)
    → root_of pending db ≡ some root
    → get (blockid root) db ≡ some (full_block f)
    → Readable S db n root directory
    → Resolves S db root id dec
    → (dec' : Decoded) × (resolve S n db id pending ≡ some dec')
unfolding resolve traverse
resolve_reached S n db id pending root f dec e ef r (ref, kind, g, reach, eg, same, d) =
    let (top, et) = Readable-decode S db n root directory f ef r in
    let (dir, ed, et') = decode_as-directory S f (key root) top et in
    let top_dir : decode_as S directory f (key root) ≡ some (decoded_dir dir) =
      et ∙ ap some (sym et') in
    let not_quiet : ¬ Quiet S db id n root directory = λ q.
      let (m, rm, qm) = Reaches-Quiet S db id n root ref kind r q reach in
      Quiet-id S db id m ref kind g dec rm qm eg d same in
    rw (e, ef, ed)
      (at_least (if f.id == id then some (decoded_dir dir) else none)
        (traverse_rec S (resolve_block_visitor id) db n [] root (decoded_dir dir))
        (elim (traverse_rec-Ended S db id n [] root directory f (decoded_dir dir) r ef top_dir) [
          | inl (none_found, q) ↦ absurd (not_quiet q)
          | inr t ↦ t
        ]))
