-- ===== src/Scsync/BlockDb/Store.antt =====
-- v2/scsync/src/blockdb.rs: what the store keeps.
use das_protokoll.Base.{
  ℕ, ◌≡◌, ◌≢◌, refl, ◌∙◌, Bool, true, false, Option, none, some, List, [], ◌∷◌, ◌==◌, if◌then◌else◌,
  arith, Bool-cases, inl, inr, ◌⊎◌, All, ==_iff, ◌↔◌, sym, ap, >>=-eq-some,
}
use mathlib.Core.Option.{some-injective}
use das_protokoll.Scsync.BlockDb.{
  Block, Partial, partial_block, full_block, id_of, lookup, insert, remove, BlockDb, BlockRef, get,
  add, apply_pending, contains, is_some, all_available, try_promote,
}

pub lookup-insert_self :
    (id : ℕ) (b : Block) (m : List (ℕ × Block)) → lookup id (insert id b m) ≡ some b
unfolding lookup insert
lookup-insert_self id b [] = ground (arith, ==_iff id id)
lookup-insert_self id b ((k, c) ∷ m) = elim (Bool-cases (k == id)) [
  | inl here ↦ ground (arith, here, ==_iff id id)
  | inr later ↦ ground (arith, later, lookup-insert_self id b m)
]

pub lookup-insert_ne :
    (id other : ℕ) (b : Block) (m : List (ℕ × Block))
    → id ≢ other
    → lookup other (insert id b m) ≡ lookup other m
unfolding lookup insert
lookup-insert_ne id other b [] ne = ground (arith, ne)
lookup-insert_ne id other b ((k, c) ∷ m) ne = elim (Bool-cases (k == id)) [
  | inl here ↦ ground (arith, here, ne)
  | inr later ↦ ground (arith, later, lookup-insert_ne id other b m ne)
]

pub lookup-remove_ne :
    (id other : ℕ) (m : List (ℕ × Block)) → id ≢ other → lookup other (remove id m) ≡ lookup other m
unfolding lookup remove
lookup-remove_ne id other [] ne = refl
lookup-remove_ne id other ((k, c) ∷ m) ne = elim (Bool-cases (k == id)) [
  | inl here ↦ ground (arith, here, ne, lookup-remove_ne id other m ne)
  | inr later ↦ ground (arith, later, lookup-remove_ne id other m ne)
]

abbrev pub or_else : Option Block → Block → Block
or_else none b = b
or_else (some a) b = a

-- `add` files a block under its id, unless there is one, which it never replaces; it changes no other.
pub add_lem :
    (block : Block) (db : BlockDb)
    → (get (id_of block) (add block db) ≡ some (or_else (get (id_of block) db) block))
      × ((other : ℕ) → id_of block ≢ other → get other (add block db) ≡ get other db)
unfolding get add contains
add_lem block db = by_case (lookup (id_of block) db.blocks) refl
  where
    by_case :
        (o : Option Block)
        → lookup (id_of block) db.blocks ≡ o
        → (lookup (id_of block) (
              (if is_some (lookup (id_of block) db.blocks)
                then db
                else record db { blocks = insert (id_of block) block db.blocks }).blocks)
            ≡ some (or_else (lookup (id_of block) db.blocks) block))
          × ((other : ℕ)
              → id_of block ≢ other
              → lookup other (
                  (if is_some (lookup (id_of block) db.blocks)
                    then db
                    else record db { blocks = insert (id_of block) block db.blocks }).blocks)
                ≡ lookup other db.blocks)
    by_case none e = rw e (
      lookup-insert_self (id_of block) block db.blocks,
      λ other ne. lookup-insert_ne (id_of block) other block db.blocks ne,
    )
    by_case (some b) e = (ground (arith, e), λ other ne. ground (arith, e))

all_available_iff : (bs : List Bool) → (all_available bs ≡ true) ↔ All (λ b. b ≡ true) bs
all_available_iff [] = (λ h. tt, λ h. refl)
all_available_iff (true ∷ bs) =
    (λ h. (refl, (all_available_iff bs).0 h), λ h. (all_available_iff bs).1 h.1)
all_available_iff (false ∷ bs) = (λ h. cc, λ h. cc (h.0))

-- A partial block is promoted exactly if all of its chunks are available: it is then a full block with
-- the same bytes, and no other block, nor a root, has changed. Otherwise nothing changes.
pub try_promote_lem :
    (id : ℕ) (p : Partial) (db : BlockDb)
    → get id db ≡ some (partial_block p)
    → (All (λ b. b ≡ true) p.available
        × (db' : BlockDb) × (try_promote id db ≡ some (db', true))
        × (get id db' ≡ some (full_block (record { id = p.id; bytes = p.bytes })))
        × ((other : ℕ) → id ≢ other → get other db' ≡ get other db)
        × (db'.root ≡ db.root)
        × (db'.pending_root ≡ db.pending_root))
      ⊎ ((¬ All (λ b. b ≡ true) p.available) × (try_promote id db ≡ some (db, false)))
unfolding get try_promote
try_promote_lem id p db e = elim (Bool-cases (all_available p.available)) [
  | inl every ↦
      let whole : Block = full_block (record { id = p.id; bytes = p.bytes }) in
      inl (
        (all_available_iff p.available).0 every,
        record db { blocks = insert id whole (remove id db.blocks) },
        ground (arith, e, every),
        lookup-insert_self id whole (remove id db.blocks),
        λ other ne.
            lookup-insert_ne id other whole (remove id db.blocks) ne
            ∙ lookup-remove_ne id other db.blocks ne,
        refl,
        refl,
      )
  | inr lacks ↦ inr (λ all. cc ((all_available_iff p.available).1 all), ground (arith, e, lacks))
]

pub is_some-none : {A : Type 0} (o : Option A) → is_some o ≡ false → o ≡ none
is_some-none none h = refl
is_some-none (some a) h = cc

pub is_some-some : {A : Type 0} (o : Option A) → is_some o ≡ true → (a : A) × (o ≡ some a)
is_some-some none h = cc
is_some-some (some a) h = (a, refl)

-- The pending root becomes the root, and the old root is returned.
pub apply_pending_lem :
    (db db' : BlockDb) (from : BlockRef)
    → apply_pending db ≡ some (db', from)
    → (db.pending_root ≡ some db'.root)
      × (db'.pending_root ≡ none)
      × (db'.blocks ≡ db.blocks)
      × (from ≡ db.root)
unfolding apply_pending
apply_pending_lem db db' from h =
    let (pending, e, r) = >>=-eq-some db.pending_root _ h in
    let same = some-injective _ _ r in
    (
      e ∙ ap (λ ((d, f) : BlockDb × BlockRef). some d.root) same,
      sym (ap (λ ((d, f) : BlockDb × BlockRef). d.pending_root) same),
      sym (ap (λ ((d, f) : BlockDb × BlockRef). d.blocks) same),
      sym (ap (λ ((d, f) : BlockDb × BlockRef). f) same),
    )
