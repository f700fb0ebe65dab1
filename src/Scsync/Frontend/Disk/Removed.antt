-- ===== src/Scsync/Frontend/Disk/Removed.antt =====
-- v2/scsync/src/frontend/mod.rs: what is left when `write_to_dir` has cleared its folder.
use das_protokoll.Base.{
  ℕ, ◌≤◌, ◌≡◌, refl, sym, ◌∙◌, ap, true, false, Option, none, some, List, [], ◌∷◌, ◌++◌, arith,
  Bool-cases, inl, inr, length, if◌then◌else◌,
}
use das_protokoll.Scsync.Frontend.Folder.{path_eq}
use das_protokoll.Scsync.Frontend.Folder.Paths.{ne→path_eq, path_eq_self, path_eq→eq, path-cases}
use das_protokoll.Scsync.Frontend.Disk.{Node, find, under, remove_under}

-- The path is the top or below it.
pub under_below : (r top : List ℕ) → under top (r ++ top) ≡ true
unfolding under
under_below [] top = under_top top
  where
    under_top : (top : List ℕ) → under top top ≡ true
    under_top [] = unfold path_eq in refl
    under_top (n ∷ p) = rw (path_eq_self (n ∷ p)) refl
under_below (n ∷ r) top = elim (Bool-cases (path_eq (n ∷ r ++ top) top)) [
  | inl same ↦ rw same refl
  | inr other ↦ rw other (under_below r top)
]

pub under_longer : (q top : List ℕ) → under top q ≡ true → length top ≤ length q
unfolding under
under_longer [] top h = let l = ap (length {A = ℕ}) (path_eq→eq [] top h) in omega (arith, l)
under_longer (n ∷ q) top h = elim (Bool-cases (path_eq (n ∷ q) top)) [
  | inl same ↦ let l = ap (length {A = ℕ}) (path_eq→eq (n ∷ q) top same) in omega (arith, l)
  | inr other ↦ let l = under_longer q top (rw other at h) in omega (arith, l)
]

parted : (top p q : List ℕ) → under top p ≡ true → under top q ≡ false → path_eq p q ≡ false
parted top p q below outside =
    ne→path_eq p q (λ (e : p ≡ q). cc (sym below ∙ ap (under top) e ∙ outside))

path_eq_comm : (p q : List ℕ) → path_eq p q ≡ path_eq q p
path_eq_comm p q = elim (path-cases p q) [
  | inl same ↦
      ap (path_eq p) (sym same)
      ∙ path_eq_self p
      ∙ sym (ap (λ r. path_eq r p) (sym same) ∙ path_eq_self p)
  | inr ne ↦ ne→path_eq p q ne ∙ sym (ne→path_eq q p (λ e. ne (sym e)))
]

pub find-remove_under :
    (top q : List ℕ) (fs : List (List ℕ × Node))
    → (under top q ≡ true → find q (remove_under top fs) ≡ none)
      × (under top q ≡ false → find q (remove_under top fs) ≡ find q fs)
unfolding find remove_under
find-remove_under top q [] = (λ h. refl, λ h. refl)
find-remove_under top q ((p, node) ∷ fs) =
    let (gone, kept) = find-remove_under top q fs in
    elim (Bool-cases (under top p)) [
      | inl below ↦ rw below (gone, λ h. rw (parted top p q below h) (kept h))
      | inr outside ↦ rw outside (
        λ h. rw (path_eq_comm p q ∙ parted top q p h outside) (gone h),
        λ h. ap (λ (o : Option Node). if path_eq p q then some node else o) (kept h),
      )
    ]
