-- ===== src/Csync/Status/Ranges.antt =====
-- v1/csync/src/codec.rs: the run lengths that are read, their running sums, and the ranges that these make.
use das_protokoll.Base.{
  ℕ, zero, suc, ◌+◌, ◌/◌, ◌^◌, ◌<◌, ◌≡◌, refl, sym, ap, ◌∙◌, Bool, true, false, Option, none, some,
  List, [], ◌∷◌, map, length, take, arith, All,
}
use das_protokoll.Base.Word.{IsU64, add64, add64-eq}
use das_protokoll.Crates.{Varmint, Itertools, got}
use das_protokoll.Csync.Status.{MissingRange, run_lengths, running_sums, as_range}
use das_protokoll.Csync.Status.Encode.{runs, encodings}
use das_protokoll.Csync.Status.Gaps.{gaps}

module _ (V : Varmint) where
  open V use {write_u64_varint, read-write, read-nil, read_shorter}

  run_lengths_step :
      (fuel x : ℕ) (src rest : List ℕ) (xs : List ℕ)
      → V.read_u64_varint src ≡ got x rest
      → run_lengths V fuel rest ≡ some xs
      → run_lengths V (suc fuel) src ≡ some (x ∷ xs)
  unfolding run_lengths
  run_lengths_step fuel x src rest xs e h = ground (arith, e, h)

  run_lengths_nil : (fuel : ℕ) → run_lengths V (suc fuel) [] ≡ some []
  unfolding run_lengths
  run_lengths_nil fuel = ground (arith, read-nil)

  -- Reading gives back the numbers that were written.
  pub run_lengths-encodings :
      (xs : List ℕ) (fuel : ℕ)
      → All IsU64 xs
      → length (encodings V xs) < fuel
      → run_lengths V fuel (encodings V xs) ≡ some xs
  unfolding encodings
  run_lengths-encodings xs zero h hf = absurd (omega arith)
  run_lengths-encodings [] (suc fuel) h hf = run_lengths_nil fuel
  run_lengths-encodings (x ∷ xs) (suc fuel) h hf =
      let e = read-write x (encodings V xs) h.0 in
      let l = read_shorter _ x (encodings V xs) e in
      run_lengths_step fuel x _ (encodings V xs) xs e
        (run_lengths-encodings xs fuel h.1 (omega (arith, l)))

running_sums_cons :
    (a x : ℕ) (xs : List ℕ)
    → a + x < 2 ^ 64
    → running_sums a (x ∷ xs) ≡ (a + x) ∷ running_sums (a + x) xs
unfolding running_sums
running_sums_cons a x xs h = rw (add64-eq a x h)

pub running_sums-take :
    (n a : ℕ) (xs : List ℕ) → running_sums a (take n xs) ≡ take n (running_sums a xs)
unfolding running_sums
running_sums-take zero a xs = refl
running_sums-take (suc n) a [] = refl
running_sums-take (suc n) a (x ∷ xs) = ap (◌∷◌ (add64 a x)) (running_sums-take n (add64 a x) xs)

pub take_nil {ℓ} : {A : Type ℓ} (n : ℕ) → take {A = A} n [] ≡ []
take_nil zero = refl
take_nil (suc n) = refl

module _ (I : Itertools) where
  open I use {tuples, tuples-nil, tuples_odd, tuples_pair}

  abbrev pub ranges : List ℕ → List MissingRange
  ranges xs = map as_range (tuples xs)

  ranges_pair :
      (x y : ℕ) (xs : List ℕ) → ranges (x ∷ y ∷ xs) ≡ record { from = x; to = y } ∷ ranges xs
  ranges_pair x y xs = ap (map as_range) (tuples_pair x y xs)

  abbrev range_of : ℕ → ℕ → MissingRange
  range_of s t = record { from = s; to = t }

  pub ranges_nil : ranges [] ≡ []
  ranges_nil = ap (map as_range) tuples-nil

  pub ranges_odd : (x : ℕ) → ranges (x ∷ []) ≡ []
  ranges_odd x = ap (map as_range) (tuples_odd x)

  pub ranges-take : (n : ℕ) (xs : List ℕ) → ranges (take n xs) ≡ take (n / 2) (ranges xs)
  ranges-take zero xs = ranges_nil
  ranges-take (suc zero) [] = ranges_nil
  ranges-take (suc zero) (x ∷ xs) = ranges_odd x
  ranges-take (suc (suc n)) [] = rw ranges_nil (sym (take_nil (suc (suc n) / 2)))
  ranges-take (suc (suc n)) (x ∷ []) = rw (ranges_odd x) (sym (take_nil (suc (suc n) / 2)))
  ranges-take (suc (suc n)) (x ∷ y ∷ xs) =
      let half : suc (suc n) / 2 ≡ suc (n / 2) = omega arith in
      let r : MissingRange = record { from = x; to = y } in
      rw (half, ranges_pair x y (take n xs), ranges_pair x y xs)
        (ap (λ (l : List MissingRange). r ∷ l) (ranges-take n xs))

  abbrev started : Option ℕ → List ℕ → List ℕ
  started none xs = xs
  started (some s) xs = s ∷ xs

  abbrev value : Option ℕ → Bool
  value none = true
  value (some s) = false

  -- The running sums of the run lengths are the ends of the runs, and so the gaps in pairs. A range
  -- that has begun at `s` waits for its end.
  ranges-runs_from :
      (bs : List Bool) (o : Option ℕ) (a count : ℕ)
      → a + count + length bs < 2 ^ 64
      → ranges (started o (running_sums a (runs (value o) count bs))) ≡ gaps o (a + count) bs
  unfolding runs gaps running_sums
  ranges-runs_from [] none a count h = ranges_odd (add64 a count)
  ranges-runs_from (true ∷ bs) none a count h =
      let e : a + count + 1 ≡ a + (count + 1) = omega arith in
      rw e (ranges-runs_from bs none a (count + 1) (omega arith))
  ranges-runs_from (false ∷ bs) none a count h =
      rw (add64-eq a count (omega arith))
        (ranges-runs_from bs (some (a + count)) (a + count) 1 (omega arith))
  ranges-runs_from [] (some s) a count h =
      rw (add64-eq a count (omega arith))
        (ranges_pair s (a + count) [] ∙ ap (◌∷◌ (range_of s (a + count))) ranges_nil)
  ranges-runs_from (true ∷ bs) (some s) a count h = rw (add64-eq a count (omega arith)) (
      ranges_pair s (a + count) _
      ∙ ap (◌∷◌ (range_of s (a + count))) (ranges-runs_from bs none (a + count) 1 (omega arith)))
  ranges-runs_from (false ∷ bs) (some s) a count h =
      let e : a + count + 1 ≡ a + (count + 1) = omega arith in
      rw e (ranges-runs_from bs (some s) a (count + 1) (omega arith))

  pub ranges-runs :
      (bs : List Bool)
      → length bs < 2 ^ 64
      → ranges (running_sums 0 (runs true 0 bs)) ≡ gaps none 0 bs
  ranges-runs bs h = ranges-runs_from bs none 0 0 (omega arith)
