-- ===== src/Scsync/Transfer/Reporting.antt =====
-- v2/scsync/src/handler.rs: the status updates that the receiving side of a transfer sends.
use das_protokoll.Base.{
  ℕ, ◌+◌, ◌^◌, ◌≤◌, ◌<◌, ◌≡◌, ◌≢◌, refl, sym, ap, ◌∙◌, Bool, true, false, none, some, List, [], ◌∷◌,
  length, get_elem?, append-nil, arith,
}
use das_protokoll.Base.Word.{add64-eq}
use das_protokoll.Crates.{Itertools}
use das_protokoll.Csync.Status.{MissingRange}
use das_protokoll.Csync.Status.Gaps.{
  gaps, covers, Ordered, is_missing, covers-gaps_at, gaps-Ordered_at,
}
use das_protokoll.Scsync.BlockDb.{BlockDb, Partial, partial_block, get}
use das_protokoll.Scsync.Transfer.{Transfer, ranges_of, missing_ranges}

module _ (I : Itertools) where
  open I use {group_by, group_by-nil, group_by_one, group_by_same, group_by_other}

  -- What the first group, `n` times `b`, is to the gaps: the start of none, or the end of one that has
  -- begun at `s`.
  abbrev Rest : Bool → List Bool → ℕ → List (Bool × ℕ) → ℕ → ℕ → Type 0
  Rest true bs n gs start s = gaps none start (true ∷ bs) ≡ ranges_of (start + n) gs
  Rest false bs n gs start s =
      gaps (some s) start (false ∷ bs)
      ≡ record { from = s; to = start + n } ∷ ranges_of (start + n) gs

  record First (b : Bool) (bs : List Bool) : Type 0 where
    count : ℕ
    groups : List (Bool × ℕ)
    grouped : group_by (b ∷ bs) ≡ (b, count) ∷ groups
    within : count ≤ length (b ∷ bs)
    rest : (start s : ℕ) → start + length (b ∷ bs) < 2 ^ 64 → Rest b bs count groups start s

  first_one : (b : Bool) → First b []
  unfolding gaps ranges_of
  first_one true = record {
    count = 1;
    groups = [];
    grouped = group_by_one true;
    within = omega arith;
    rest = λ start s h. refl;
  }
  first_one false = record {
    count = 1;
    groups = [];
    grouped = group_by_one false;
    within = omega arith;
    rest = λ start s h. refl;
  }

  first_same : (b : Bool) (bs : List Bool) → First b bs → First b (b ∷ bs)
  unfolding gaps
  first_same true bs f = record {
    count = f.count + 1;
    groups = f.groups;
    grouped = group_by_same true bs f.count f.groups f.grouped;
    within = omega (arith, f.within);
    rest = λ start s h.
        f.rest (start + 1) s (omega arith) ∙ ap (λ (k : ℕ). ranges_of k f.groups) (omega arith);
  }
  first_same false bs f = record {
    count = f.count + 1;
    groups = f.groups;
    grouped = group_by_same false bs f.count f.groups f.grouped;
    within = omega (arith, f.within);
    rest = λ start s h.
        f.rest (start + 1) s (omega arith)
        ∙ ap (λ (k : ℕ). record { from = s; to = k } ∷ ranges_of k f.groups) (omega arith);
  }

  first_other : (b c : Bool) (bs : List Bool) → b ≢ c → First c bs → First b (c ∷ bs)
  unfolding gaps ranges_of
  first_other true true bs ne f = absurd (ne refl)
  first_other false false bs ne f = absurd (ne refl)
  first_other true false bs ne f = record {
    count = 1;
    groups = group_by (false ∷ bs);
    grouped = group_by_other true false bs ne;
    within = omega arith;
    rest = λ start s h.
        let e = add64-eq (start + 1) f.count (omega (arith, f.within)) in
        rw (f.grouped, e) (f.rest (start + 1) (start + 1) (omega arith));
  }
  first_other false true bs ne f = record {
    count = 1;
    groups = group_by (true ∷ bs);
    grouped = group_by_other false true bs ne;
    within = omega arith;
    rest = λ start s h.
        let e = add64-eq (start + 1) f.count (omega (arith, f.within)) in
        rw (f.grouped, e)
          (ap (◌∷◌ (record { from = s; to = start + 1 })) (f.rest (start + 1) s (omega arith)));
  }

  first : (b : Bool) (bs : List Bool) → First b bs
  first b [] = first_one b
  first true (true ∷ bs) = first_same true bs (first true bs)
  first true (false ∷ bs) = first_other true false bs (λ e. cc) (first false bs)
  first false (true ∷ bs) = first_other false true bs (λ e. cc) (first true bs)
  first false (false ∷ bs) = first_same false bs (first false bs)

  ranges_of-gaps :
      (start : ℕ) (bs : List Bool)
      → start + length bs < 2 ^ 64
      → ranges_of start (group_by bs) ≡ gaps none start bs
  unfolding gaps ranges_of
  ranges_of-gaps start [] h = rw group_by-nil refl
  ranges_of-gaps start (true ∷ bs) h =
      let f = first true bs in
      let e = add64-eq start f.count (omega (arith, f.within)) in
      rw f.grouped (ap (λ (k : ℕ). ranges_of k f.groups) e ∙ sym (f.rest start start h))
  ranges_of-gaps start (false ∷ bs) h =
      let f = first false bs in
      let e = add64-eq start f.count (omega (arith, f.within)) in
      rw f.grouped (
        ap (λ (k : ℕ). record { from = start; to = k } ∷ ranges_of k f.groups) e
        ∙ sym (f.rest start start h))

  -- While one block is being received, a status update names exactly the chunks of it that are not
  -- available, by their ids and in order. The ids must not overflow.
  pub missing_ranges-covers :
      (t : Transfer) (db : BlockDb) (p : Partial)
      → get t.blockid db ≡ some (partial_block p)
      → t.start + length p.available < 2 ^ 64
      → (rs : List MissingRange) × (missing_ranges I (t ∷ []) db ≡ some rs)
        × Ordered 0 rs
        × ((i : ℕ) → covers rs (t.start + i) ≡ is_missing (get_elem? p.available i))
  unfolding missing_ranges
  missing_ranges-covers t db p e h = (
    gaps none t.start p.available,
    rw (e, append-nil (ranges_of t.start (group_by p.available)))
        (ap some (ranges_of-gaps t.start p.available h)),
    gaps-Ordered_at t.start p.available,
    λ i. covers-gaps_at t.start i p.available,
  )
