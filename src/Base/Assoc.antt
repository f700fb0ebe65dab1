-- ===== src/Base/Assoc.antt =====
-- A hash map as the list of its entries, one for a key; the keys are numbers.
use Prim.Native.Nat.{ℕ}
use mathlib.Core.Path.{◌≡◌, refl, ap₂}
use mathlib.Core.Logic.{◌≢◌, inl, inr}
use mathlib.Core.Option.{Option, none, some, some-injective}
use mathlib.Core.List.{List, [], ◌∷◌}
use native.Mathlib.Omega.{arith}
use das_protokoll.Base.Lists.{In}
use das_protokoll.Base.Tests.{◌==◌, if◌then◌else◌, ==_iff, Bool-cases}

module _ {A : Type 0} where
  unfoldable pub find_key : ℕ → List (ℕ × A) → Option A
  find_key key [] = none
  find_key key ((k, a) ∷ m) = if k == key then some a else find_key key m

  unfoldable pub insert_key : ℕ → A → List (ℕ × A) → List (ℕ × A)
  insert_key key a [] = (key, a) ∷ []
  insert_key key a ((k, b) ∷ m) = if k == key then (key, a) ∷ m else (k, b) ∷ insert_key key a m

  unfoldable pub remove_key : ℕ → List (ℕ × A) → List (ℕ × A)
  remove_key key [] = []
  remove_key key ((k, a) ∷ m) = if k == key then remove_key key m else (k, a) ∷ remove_key key m

  pub find_key-insert_self :
      (key : ℕ) (a : A) (m : List (ℕ × A)) → find_key key (insert_key key a m) ≡ some a
  unfolding find_key insert_key
  find_key-insert_self key a [] = ground (arith, ==_iff key key)
  find_key-insert_self key a ((k, b) ∷ m) = elim (Bool-cases (k == key)) [
    | inl here ↦ ground (arith, here, ==_iff key key)
    | inr later ↦ ground (arith, later, find_key-insert_self key a m)
  ]

  pub find_key-insert_ne :
      (key other : ℕ) (a : A) (m : List (ℕ × A))
      → key ≢ other
      → find_key other (insert_key key a m) ≡ find_key other m
  unfolding find_key insert_key
  find_key-insert_ne key other a [] ne = ground (arith, ne)
  find_key-insert_ne key other a ((k, b) ∷ m) ne = elim (Bool-cases (k == key)) [
    | inl here ↦ ground (arith, here, ne)
    | inr later ↦ ground (arith, later, find_key-insert_ne key other a m ne)
  ]

  pub find_key-remove_self : (key : ℕ) (m : List (ℕ × A)) → find_key key (remove_key key m) ≡ none
  unfolding find_key remove_key
  find_key-remove_self key [] = refl
  find_key-remove_self key ((k, a) ∷ m) = elim (Bool-cases (k == key)) [
    | inl here ↦ ground (arith, here, find_key-remove_self key m)
    | inr later ↦ ground (arith, later, find_key-remove_self key m)
  ]

  pub find_key-remove_ne :
      (key other : ℕ) (m : List (ℕ × A))
      → key ≢ other
      → find_key other (remove_key key m) ≡ find_key other m
  unfolding find_key remove_key
  find_key-remove_ne key other [] ne = refl
  find_key-remove_ne key other ((k, a) ∷ m) ne = elim (Bool-cases (k == key)) [
    | inl here ↦ ground (arith, here, ne, find_key-remove_ne key other m ne)
    | inr later ↦ ground (arith, later, find_key-remove_ne key other m ne)
  ]

  pub find_key-In : (key : ℕ) (a : A) (m : List (ℕ × A)) → find_key key m ≡ some a → In (key, a) m
  unfolding find_key
  find_key-In key a [] e = cc
  find_key-In key a ((k, b) ∷ m) e = elim (Bool-cases (k == key)) [
    | inl here ↦ inl (
        ap₂ (λ (i : ℕ) (c : A). (i, c)) ((==_iff k key).0 here) (some-injective _ _ (rw here at e)))
    | inr later ↦ inr (find_key-In key a m (rw later at e))
  ]
