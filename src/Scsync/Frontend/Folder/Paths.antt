-- ===== src/Scsync/Frontend/Folder/Paths.antt =====
-- v2/scsync/src/frontend/mod.rs: the comparison of paths, and the map from paths to children.
use das_protokoll.Base.{
  ℕ, ◌<◌, ◌≡◌, ◌≢◌, refl, sym, ◌∙◌, ap, true, false, List, [], ◌∷◌, ◌++◌, ◌==◌, ==_iff, arith,
  Bool-cases, inl, inr, ◌⊎◌, length, length-append, append_assoc,
}
use mathlib.Core.Path.{ap₂}
use das_protokoll.Scsync.Frontend.{Child}
use das_protokoll.Scsync.Frontend.Folder.{path_eq, children_of, without, push_child}

pub path_eq→eq : (p q : List ℕ) → path_eq p q ≡ true → p ≡ q
unfolding path_eq
path_eq→eq [] [] h = refl
path_eq→eq [] (y ∷ ys) h = cc
path_eq→eq (x ∷ xs) [] h = cc
path_eq→eq (x ∷ xs) (y ∷ ys) h = elim (Bool-cases (x == y)) [
  | inl same ↦ ap₂ ◌∷◌ ((==_iff x y).0 same) (path_eq→eq xs ys (rw same at h))
  | inr other ↦ cc (rw other at h)
]

pub path_eq_self : (p : List ℕ) → path_eq p p ≡ true
unfolding path_eq
path_eq_self [] = refl
path_eq_self (x ∷ xs) = rw ((==_iff x x).1 refl) (path_eq_self xs)

pub ne→path_eq : (p q : List ℕ) → p ≢ q → path_eq p q ≡ false
ne→path_eq p q ne = elim (Bool-cases (path_eq p q)) [
  | inl same ↦ absurd (ne (path_eq→eq p q same))
  | inr other ↦ other
]

pub path-cases : (p q : List ℕ) → (p ≡ q) ⊎ (p ≢ q)
path-cases p q = elim (Bool-cases (path_eq p q)) [
  | inl same ↦ inl (path_eq→eq p q same)
  | inr other ↦ inr (λ (e : p ≡ q). cc (sym other ∙ ap (path_eq p) (sym e) ∙ path_eq_self p))
]

-- A path that is longer than another is not that one.
pub longer_ne : (p q : List ℕ) → length q < length p → p ≢ q
longer_ne p q h e = let l = ap (length {A = ℕ}) e in omega (arith, l, h)

pub children_of-push_self :
    (p : List ℕ) (c : Child) (m : List (List ℕ × List Child))
    → children_of p (push_child p c m) ≡ children_of p m ++ c ∷ []
unfolding children_of push_child
children_of-push_self p c [] = rw (path_eq_self p) refl
children_of-push_self p c ((k, cs) ∷ m) = elim (Bool-cases (path_eq k p)) [
  | inl here ↦ rw (here, here) refl
  | inr later ↦ rw (later, later) (children_of-push_self p c m)
]

pub children_of-push_ne :
    (p q : List ℕ) (c : Child) (m : List (List ℕ × List Child))
    → p ≢ q
    → children_of q (push_child p c m) ≡ children_of q m
unfolding children_of push_child
children_of-push_ne p q c [] ne = rw (ne→path_eq p q ne) refl
children_of-push_ne p q c ((k, cs) ∷ m) ne = elim (Bool-cases (path_eq k p)) [
  | inl here ↦
      let apart : path_eq k q ≡ false =
        ap (λ k'. path_eq k' q) (path_eq→eq k p here) ∙ ne→path_eq p q ne in
      rw (here, apart) refl
  | inr later ↦ rw later (elim (Bool-cases (path_eq k q)) [
    | inl at_q ↦ rw at_q refl
    | inr past ↦ rw past (children_of-push_ne p q c m ne)
  ])
]

pub children_of-without_self :
    (p : List ℕ) (m : List (List ℕ × List Child)) → children_of p (without p m) ≡ []
unfolding children_of without
children_of-without_self p [] = refl
children_of-without_self p ((k, cs) ∷ m) = elim (Bool-cases (path_eq k p)) [
  | inl here ↦ rw here (children_of-without_self p m)
  | inr later ↦ rw (later, later) (children_of-without_self p m)
]

pub children_of-without_ne :
    (p q : List ℕ) (m : List (List ℕ × List Child))
    → p ≢ q
    → children_of q (without p m) ≡ children_of q m
unfolding children_of without
children_of-without_ne p q [] ne = refl
children_of-without_ne p q ((k, cs) ∷ m) ne = elim (Bool-cases (path_eq k p)) [
  | inl here ↦
      let apart : path_eq k q ≡ false =
        ap (λ k'. path_eq k' q) (path_eq→eq k p here) ∙ ne→path_eq p q ne in
      rw (here, apart) (children_of-without_ne p q m ne)
  | inr later ↦ rw later (elim (Bool-cases (path_eq k q)) [
    | inl at_q ↦ rw at_q refl
    | inr past ↦ rw past (children_of-without_ne p q m ne)
  ])
]

-- Nothing was found in the folder, nor below it.
abbrev pub Fresh : List ℕ → List (List ℕ × List Child) → Type 0
Fresh p m = (r : List ℕ) → children_of (r ++ p) m ≡ []

pub Fresh-below :
    (name : ℕ) (p : List ℕ) (m : List (List ℕ × List Child)) → Fresh p m → Fresh (name ∷ p) m
Fresh-below name p m f r =
    ap (λ q. children_of q m) (sym (append_assoc r (name ∷ []) p)) ∙ f (r ++ name ∷ [])

pub Fresh-ne : (r : List ℕ) (name : ℕ) (p : List ℕ) → p ≢ r ++ name ∷ p
Fresh-ne r name p e = let l = ap (length {A = ℕ}) e in omega (arith, l, length-append r (name ∷ p))
