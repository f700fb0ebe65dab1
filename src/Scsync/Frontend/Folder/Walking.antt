-- ===== src/Scsync/Frontend/Folder/Walking.antt =====
-- v2/scsync/src/frontend/mod.rs: what the steps of the loop in `blockdb_from_folder` do.
use das_protokoll.Base.{
  ℕ, suc, ◌+◌, ◌≤◌, ◌≡◌, ◌≢◌, refl, sym, ◌∙◌, ap, false, none, some, List, [], ◌∷◌, ◌++◌, arith,
  inl, inr, length, append-nil, append_assoc,
}
use mathlib.Core.Path.{subst}
use das_protokoll.Scsync.BlockDb.{block_ref, no_hint, Block, Full, full_block, lookup, insert}
use das_protokoll.Scsync.BlockDb.Store.{lookup-insert_self}
use das_protokoll.Scsync.Frontend.{
  directory, leaf, Child, Dir, Sealing, dir_from_full, leaf_to_block, dir_to_block,
}
use das_protokoll.Scsync.Frontend.Sealed.{from_full-to_block_own}
use das_protokoll.Scsync.Frontend.Folder.{path_eq, children_of, without, Walked, add_file, add_dir}
use das_protokoll.Scsync.Frontend.Folder.Tree.{
  Tree, link, content, entries, Entries, nil, entry, count_entries,
}
use das_protokoll.Scsync.Frontend.Folder.Paths.{
  ne→path_eq, path_eq_self, path-cases, longer_ne, children_of-push_self, children_of-push_ne,
  children_of-without_self, children_of-without_ne,
}
use das_protokoll.Scsync.Frontend.Folder.Stored.{
  StoredAs, StoredAll, Keeps, StoredAs-Keeps, StoredAll-Keeps, length-insert, insert-Keeps,
}

-- What a part of the walk, of `n` files and folders, does: the root stays open, the children are pushed
-- on their folder and on no other, and, if no two blocks had the same id, `P` holds of the blocks.
pub record Packed (w w' : Walked) (n : ℕ) (parent : List ℕ) (cs : List Child)
    (P : List (ℕ × Block) → Type 0) : Type 0 where
  pub open_root : w'.root ≡ none
  pub at_most : length w'.blocks ≤ length w.blocks + n
  pub others : (q : List ℕ) → parent ≢ q → children_of q w'.map ≡ children_of q w.map
  pub pushed : children_of parent w'.map ≡ children_of parent w.map ++ cs
  pub stored : length w'.blocks ≡ length w.blocks + n → Keeps w.blocks w'.blocks × P w'.blocks

module _ (S : Sealing) (text : ℕ → ℕ) (draws : ℕ → ℕ × ℕ) where
  pub add_file_lem :
      (name : ℕ) (parent bytes : List ℕ) (w : Walked)
      → w.root ≡ none
      → (w' : Walked) × (cs : List Child) × (add_file S text draws (name ∷ parent) bytes w
          ≡ some w')
        × Packed w w' 1 parent cs (λ blocks. StoredAs S text blocks (content bytes) name cs)
  unfolding add_file
  add_file_lem name parent bytes w unset =
      let made =
        leaf_to_block S (record { bytes = bytes }) ((draws w.drawn).0) ((draws w.drawn).1) in
      let k = made.0 in
      let block = made.1 in
      let c : Child = record {
        name = text name;
        kind = leaf;
        blockref = block_ref block.id k no_hint;
      } in
      let (most, fresh) = length-insert block.id (full_block block) w.blocks in
      (
        _,
        c ∷ [],
        refl,
        record {
          open_root = unset;
          at_most = omega (arith, most);
          others = λ q ne. children_of-push_ne parent q c w.map ne;
          pushed = children_of-push_self parent c w.map;
          stored = λ tight. (
            insert-Keeps block.id (full_block block) w.blocks (fresh (omega (arith, tight))),
            unfold StoredAs in
                (
                  c,
                  block,
                  refl,
                  refl,
                  refl,
                  lookup-insert_self block.id (full_block block) w.blocks,
                  rw
                      (from_full-to_block_own S S.leaf_cbor bytes ((draws w.drawn).0)
                        ((draws w.drawn).1))
                      refl,
                ),
          );
        },
      )

  -- The block of a folder whose entries have been packed: `w1` is what the walk through them has made
  -- of `w`.
  module _ (name : ℕ) (parent : List ℕ) (es : Entries) (w w1 : Walked) (cs : List Child)
      (fresh : children_of (name ∷ parent) w.map ≡ [])
      (p : Packed w w1
        (count_entries es)
        (name ∷ parent)
        cs
        (λ blocks. StoredAll S text blocks es cs)) where
    abbrev packed_dir : Dir
    packed_dir = record { children = children_of (name ∷ parent) w1.map }

    abbrev pub made : ℕ × Full
    made = dir_to_block S packed_dir ((draws w1.drawn).0) ((draws w1.drawn).1)

    abbrev pub blocks_with : List (ℕ × Block)
    blocks_with = insert (made.1.id) (full_block (made.1)) w1.blocks

    pub made_lem :
        (length blocks_with ≤ length w.blocks + suc (count_entries es))
        × (length blocks_with ≡ length w.blocks + suc (count_entries es)
            → Keeps w.blocks blocks_with
              × (lookup (made.1.id) blocks_with ≡ some (full_block (made.1)))
              × (dir_from_full S (made.1) (made.0) ≡ some packed_dir)
              × StoredAll S text blocks_with es packed_dir.children)
    made_lem =
        let (most, unused) = length-insert (made.1.id) (full_block (made.1)) w1.blocks in
        let same_children : packed_dir.children ≡ cs =
          p.pushed ∙ ap (λ (xs : List Child). xs ++ cs) fresh in
        (
          omega (arith, most, p.at_most),
          λ tight.
              let kept =
                insert-Keeps (made.1.id) (full_block (made.1)) w1.blocks
                  (unused (omega (arith, tight, most, p.at_most))) in
              let (before, all) = p.stored (omega (arith, tight, most, p.at_most)) in
              (
                λ id b e. kept id b (before id b e),
                lookup-insert_self (made.1.id) (full_block (made.1)) w1.blocks,
                from_full-to_block_own S S.dir_cbor packed_dir ((draws w1.drawn).0)
                    ((draws w1.drawn).1),
                subst (StoredAll S text blocks_with es) (sym same_children)
                    (StoredAll-Keeps S text w1.blocks blocks_with kept es cs all),
              ),
        )

    pub add_dir_top :
        (w' : Walked) × (add_dir S text draws (name ∷ parent) (name ∷ parent) w1 ≡ some w')
        × (w'.root ≡ some (block_ref (made.1.id) (made.0) no_hint))
        × (w'.blocks ≡ blocks_with)
    unfolding add_dir
    add_dir_top = rw (path_eq_self (name ∷ parent)) (_, refl, refl, refl)

    pub add_dir_lem :
        (top : List ℕ)
        → length top ≤ length parent
        → (w' : Walked) × (c : Child) × (add_dir S text draws top (name ∷ parent) w1 ≡ some w')
          × Packed w w'
              (suc (count_entries es))
              parent
              (c ∷ [])
              (λ blocks. StoredAs S text blocks (entries es) name (c ∷ []))
    unfolding add_dir
    add_dir_lem top deep =
        let c : Child = record {
          name = text name;
          kind = directory;
          blockref = block_ref (made.1.id) (made.0) no_hint;
        } in
        let rest = without (name ∷ parent) w1.map in
        let own : name ∷ parent ≢ parent = longer_ne (name ∷ parent) parent (omega arith) in
        let inner : path_eq (name ∷ parent) top ≡ false =
          ne→path_eq (name ∷ parent) top (longer_ne (name ∷ parent) top (omega (arith, deep))) in
        let (most, stored) = made_lem in
        rw inner (
          _,
          c,
          refl,
          record {
            open_root = p.open_root;
            at_most = most;
            others = λ q ne. children_of-push_ne parent q c rest ne ∙ taken q;
            pushed =
                children_of-push_self parent c rest
                ∙ ap (λ (xs : List Child). xs ++ c ∷ [])
                    (children_of-without_ne (name ∷ parent) parent w1.map own
                      ∙ p.others parent own);
            stored = λ tight.
                let (kept, has, holds, all) = stored tight in
                (
                  kept,
                  unfold StoredAs in (c, made.1, packed_dir, refl, refl, refl, has, holds, all),
                );
          },
        )
      where
        taken : (q : List ℕ) → children_of q (without (name ∷ parent) w1.map) ≡ children_of q w.map
        taken q = elim (path-cases (name ∷ parent) q) [
          | inl same ↦
              ap (λ q'. children_of q' (without (name ∷ parent) w1.map)) (sym same)
              ∙ children_of-without_self (name ∷ parent) w1.map
              ∙ sym fresh
              ∙ ap (λ q'. children_of q' w.map) same
          | inr ne ↦ children_of-without_ne (name ∷ parent) q w1.map ne ∙ p.others q ne
        ]

  pub unpacked :
      (w : Walked) (parent : List ℕ) (P : List (ℕ × Block) → Type 0)
      → w.root ≡ none
      → P w.blocks
      → Packed w w 0 parent [] P
  unpacked w parent P unset holds = record {
    open_root = unset;
    at_most = omega arith;
    others = λ q ne. refl;
    pushed = sym (append-nil (children_of parent w.map));
    stored = λ tight. (λ id b e. e, holds);
  }

  pub stored_link : (name : ℕ) (blocks : List (ℕ × Block)) → StoredAs S text blocks link name []
  unfolding StoredAs
  stored_link name blocks = refl

  pub stored_nil : (blocks : List (ℕ × Block)) → StoredAll S text blocks nil []
  unfolding StoredAs
  stored_nil blocks = refl

  pub Packed-then :
      (w w1 w2 : Walked) (n m : ℕ) (parent : List ℕ) (front back : List Child) (t : Tree) (name : ℕ)
      (es : Entries)
      → Packed w w1 n parent front (λ blocks. StoredAs S text blocks t name front)
      → Packed w1 w2 m parent back (λ blocks. StoredAll S text blocks es back)
      → Packed w w2
          (n + m)
          parent
          (front ++ back)
          (λ blocks. StoredAll S text blocks (entry name t es) (front ++ back))
  Packed-then w w1 w2 n m parent front back t name es p q = record {
    open_root = q.open_root;
    at_most = omega (arith, p.at_most, q.at_most);
    others = λ path ne. q.others path ne ∙ p.others path ne;
    pushed =
        q.pushed
        ∙ ap (λ (xs : List Child). xs ++ back) p.pushed
        ∙ append_assoc (children_of parent w.map) front back;
    stored = λ tight.
        let (kept, one) = p.stored (omega (arith, tight, p.at_most, q.at_most)) in
        let (kept', all) = q.stored (omega (arith, tight, p.at_most, q.at_most)) in
        (
          λ id b e. kept' id b (kept id b e),
          unfold StoredAs in
              (
                front,
                back,
                refl,
                StoredAs-Keeps S text w1.blocks w2.blocks kept' t name front one,
                all,
              ),
        );
  }
