-- ===== src/Scsync/Frontend/Folder/Looping.antt =====
-- v2/scsync/src/frontend/mod.rs: the loop of `blockdb_from_folder` on parts of its entries.
use das_protokoll.Base.{
  ℕ, ◌≡◌, refl, Bool, not, Option, none, some, List, [], ◌∷◌, ◌++◌, ◌>>=◌, ◌>>◌, assert,
}
use das_protokoll.Scsync.BlockDb.{BlockRef, is_some}
use das_protokoll.Scsync.Frontend.{Sealing}
use das_protokoll.Scsync.Frontend.Folder.{FileType, DirEntry, Walked, add_entry, walk_loop}

module _ (S : Sealing) (text : ℕ → ℕ) (draws : ℕ → ℕ × ℕ) where
  pub walk_loop-append :
      (top : List ℕ) (es fs : List (Option DirEntry)) (w : Walked)
      → walk_loop S text draws top (es ++ fs) w
        ≡ (do w' ← walk_loop S text draws top es w; walk_loop S text draws top fs w')
  unfolding walk_loop
  walk_loop-append top [] fs w = refl
  walk_loop-append top (e ∷ es) fs w =
      chained (assert (not (is_some w.root))) e (λ w'. walk_loop-append top es fs w')
    where
      added :
          (o : Option Walked)
          → ((w' : Walked)
              → walk_loop S text draws top (es ++ fs) w'
                ≡ (do w'' ← walk_loop S text draws top es w'; walk_loop S text draws top fs w''))
          → (do w' ← o; walk_loop S text draws top (es ++ fs) w') ≡ (do
            w'' ← (do w' ← o; walk_loop S text draws top es w')
            walk_loop S text draws top fs w'')
      added none h = refl
      added (some w') h = h w'

      chained :
          (o : Option Bool) (e' : Option DirEntry)
          → ((w' : Walked)
              → walk_loop S text draws top (es ++ fs) w'
                ≡ (do w'' ← walk_loop S text draws top es w'; walk_loop S text draws top fs w''))
          → (do
            o
            found ← e'
            w' ← add_entry S text draws top found.path found.file_type w
            walk_loop S text draws top (es ++ fs) w')
            ≡ (do
              w'' ← (do
                o
                found ← e'
                w' ← add_entry S text draws top found.path found.file_type w
                walk_loop S text draws top es w')
              walk_loop S text draws top fs w'')
      chained none e' h = refl
      chained (some b) none h = refl
      chained (some b) (some found) h =
          added (add_entry S text draws top found.path found.file_type w) h

  pub walk_one :
      (top path : List ℕ) (type : FileType) (w : Walked)
      → w.root ≡ none
      → walk_loop S text draws top (some (record { path = path; file_type = type }) ∷ []) w
        ≡ add_entry S text draws top path type w
  unfolding walk_loop
  walk_one top path type w unset = again w.root unset (add_entry S text draws top path type w)
    where
      again :
          (root : Option BlockRef)
          → root ≡ none
          → (o : Option Walked) → (do assert (not (is_some root)); w' ← o; some w') ≡ o
      again none e none = refl
      again none e (some w') = refl
      again (some root) e o = cc

  pub walk_none : (top : List ℕ) (w : Walked) → walk_loop S text draws top [] w ≡ some w
  unfolding walk_loop
  walk_none top w = refl
