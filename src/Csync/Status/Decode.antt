-- ===== src/Csync/Status/Decode.antt =====
-- v1/csync/src/codec.rs: `parse_status_update` on what `write_runlength_encoded` wrote.
use das_protokoll.Base.{
  ℕ, zero, suc, ◌+◌, ◌/◌, ◌^◌, ◌≤◌, ◌<◌, ◌≡◌, refl, sym, ap, ◌∙◌, Bool, true, false, Option, none,
  some, List, [], ◌∷◌, ◌↔◌, length, take, get_elem?, arith, All, inl, inr, All-take, length-take,
  ◌⊎◌,
}
use mathlib.Core.Path.{subst}
use das_protokoll.Base.Word.{IsU64, add64}
use das_protokoll.BitMap.{BitMap}
use das_protokoll.BitMap.View.{view, IsValid, length-view}
use das_protokoll.Crates.{Varmint, Itertools}
use das_protokoll.Csync.Status.{
  MissingRange, MissingRanges, run_lengths, running_sums, parse_status_update, is_empty,
  write_runlength_encoded,
}
use das_protokoll.Csync.Status.Encode.{
  runs, runs_bounded, fitting-take, fitting_two, fitting_all, encodings, status_runs,
  write_runlength_encoded_lem,
}
use das_protokoll.Csync.Status.Gaps.{
  gaps, covers, Ordered, gaps-Ordered, covers-gaps, is_missing, covers-take_sound, Ordered-take,
  EndsBy, EndsBy-take, gaps-EndsBy, gaps_nil_iff,
}
use das_protokoll.Csync.Status.Ranges.{
  run_lengths-encodings, running_sums-take, take_nil, ranges, ranges_nil, ranges_odd, ranges-take,
  ranges-runs,
}

pub record Update (m : BitMap) (self : MissingRanges) (done : Bool) : Type 0 where
  -- Each chunk that a range names is missing, and the ranges are in order.
  pub sound : (k : ℕ) → covers self.missing k ≡ true → get_elem? (view m) k ≡ some false
  pub ordered : Ordered 0 self.missing
  pub bounded : EndsBy m.num_bits self.missing
  pub at_start : self.cursor ≡ 0
  pub answer : done ≡ is_empty self.missing
  -- The answer `true` means that no chunk is missing, and is given whenever none is.
  pub finished : (done ≡ true) ↔ All (λ b. b ≡ true) (view m)

is_missing-some : (o : Option Bool) → is_missing o ≡ true → o ≡ some false
is_missing-some none h = cc
is_missing-some (some b) h = ground arith

module _ (V : Varmint) (I : Itertools) where
  -- The client reads the front part of the gaps whose ends fit in the update.
  status_gaps :
      (m : BitMap) (room : ℕ)
      → IsValid m
      → (n : ℕ) × (status_runs V m room ≡ take n (runs true 0 (view m)))
        × (ranges I (running_sums 0 (status_runs V m room)) ≡ take (n / 2) (gaps none 0 (view m)))
  status_gaps m room v =
      let (n, e) = fitting-take V room (runs true 0 (view m)) in
      (
        n,
        e,
        rw
            (
              e,
              running_sums-take n 0 (runs true 0 (view m)),
              ranges-take I n (running_sums 0 (runs true 0 (view m))),
            )
            (ap (take (n / 2))
              (ranges-runs I (view m) (omega (arith, length-view m v.fits, v.small)))),
      )

  -- A status update that `write_runlength_encoded` wrote is parsed without a panic.
  parse_status :
      (m : BitMap) (room : ℕ) (self : MissingRanges) (bytes : List ℕ)
      → IsValid m
      → bytes ≡ encodings V (status_runs V m room)
      → let missing = ranges I (running_sums 0 (status_runs V m room)) in
        parse_status_update V I self bytes
        ≡ some (record { missing = missing; cursor = 0 }, is_empty missing)
  unfolding parse_status_update
  parse_status m room self bytes v e =
      let (n, en, _) = status_gaps m room v in
      let all = runs_bounded true 0 (view m) (omega (arith, length-view m v.fits, v.small)) in
      let bounded : All IsU64 (status_runs V m room) = rw en (All-take IsU64 n _ all) in
      let read : run_lengths V (suc (length bytes)) bytes ≡ some (status_runs V m room) =
        rw e (run_lengths-encodings V (status_runs V m room) _ bounded (omega arith)) in
      rw read

  -- If there is a gap, then a room of 20 bytes takes the two runs that bound the first one.
  first_gap :
      (m : BitMap) (room n : ℕ) (r : MissingRange) (rs : List MissingRange)
      → IsValid m
      → 20 ≤ room
      → status_runs V m room ≡ take n (runs true 0 (view m))
      → gaps none 0 (view m) ≡ r ∷ rs
      → 1 ≤ n / 2
  first_gap m room n r rs v h e g = omega (
    arith,
    ap length e,
    length-take n (runs true 0 (view m)),
    fitting_two V room (runs true 0 (view m)) h (runs_bounded true 0 (view m) small)
        (two_runs (runs true 0 (view m)) (ranges-runs I (view m) (omega (arith, small)) ∙ g)),
  )
    where
      small : 0 + length (view m) < 2 ^ 64
      small = omega (arith, length-view m v.fits, v.small)

      two_runs : (xs : List ℕ) → ranges I (running_sums 0 xs) ≡ r ∷ rs → 2 ≤ length xs
      two_runs [] q = unfold running_sums in cc (ranges_nil I)
      two_runs (x ∷ []) q = unfold running_sums in cc (ranges_odd I (add64 0 x))
      two_runs (x ∷ y ∷ xs) q = omega arith

  list_cases {ℓ} :
      {A : Type ℓ} (xs : List A) → (xs ≡ []) ⊎ ((y : A) × (ys : List A) × (xs ≡ y ∷ ys))
  list_cases [] = inl refl
  list_cases (y ∷ ys) = inr (y, ys, refl)

  take_nonempty :
      (n : ℕ) (r : MissingRange) (rs : List MissingRange)
      → 1 ≤ n
      → is_empty (take n (r ∷ rs)) ≡ false
  take_nonempty zero r rs h = elim h [ ]
  take_nonempty (suc n) r rs h = refl

  done_iff :
      (m : BitMap) (room n : ℕ)
      → IsValid m
      → 20 ≤ room
      → status_runs V m room ≡ take n (runs true 0 (view m))
      → (is_empty (take (n / 2) (gaps none 0 (view m))) ≡ true) ↔ All (λ b. b ≡ true) (view m)
  done_iff m room n v h e = elim (list_cases (gaps none 0 (view m))) [
    | inl g ↦ (λ _. (gaps_nil_iff 0 (view m)).0 g, λ _. rw g (ap is_empty (take_nil (n / 2))))
    | inr (r, rs, g) ↦
        let some_left : is_empty (take (n / 2) (gaps none 0 (view m))) ≡ false =
          rw g (take_nonempty (n / 2) r rs (first_gap m room n r rs v h e g)) in
        (λ q. cc, λ q. cc ((gaps_nil_iff 0 (view m)).1 q))
  ]

  -- A status update of a well-formed map, written into at least 20 bytes and read by the client, names
  -- only missing chunks, in order, and reports the end exactly when no chunk is missing; neither side
  -- fails, and the update keeps to the room.
  pub status_update_lem :
      (m : BitMap) (room : ℕ) (self : MissingRanges)
      → IsValid m
      → 20 ≤ room
      → (bytes : List ℕ) × (self' : MissingRanges) × (done : Bool) × (write_runlength_encoded V m
            room
          ≡ some (length bytes, bytes))
        × (length bytes ≤ room)
        × (parse_status_update V I self bytes ≡ some (self', done))
        × Update m self' done
  status_update_lem m room self v h =
      let (bytes, ew, eb, le) = write_runlength_encoded_lem V m room v in
      let (n, en, er) = status_gaps m room v in
      let missing = ranges I (running_sums 0 (status_runs V m room)) in
      (
        bytes,
        record { missing = missing; cursor = 0 },
        is_empty missing,
        ew,
        le,
        parse_status m room self bytes v eb,
        record {
          sound = λ k c.
              is_missing-some _
                (sym (covers-gaps (view m) k) ∙ covers-take_sound (n / 2) _ k (rw er at c));
          ordered = rw er (Ordered-take (n / 2) 0 _ (gaps-Ordered (view m)));
          bounded =
              subst (λ e. EndsBy e missing) (length-view m v.fits)
                (rw er (EndsBy-take (n / 2) (length (view m)) _ (gaps-EndsBy (view m))));
          at_start = refl;
          answer = refl;
          finished = rw er (done_iff m room n v h en);
        },
      )

  -- Where the whole encoding of a well-formed map fits, the ranges that the client reads are exactly
  -- the gaps: they hold the missing chunks and nothing else.
  pub full_update_lem :
      (m : BitMap) (room : ℕ) (self : MissingRanges)
      → IsValid m
      → length (encodings V (runs true 0 (view m))) ≤ room
      → (bytes : List ℕ) × (self' : MissingRanges) × (done : Bool) × (write_runlength_encoded V m
            room
          ≡ some (length bytes, bytes))
        × (parse_status_update V I self bytes ≡ some (self', done))
        × (self'.missing ≡ gaps none 0 (view m))
        × ((k : ℕ) → covers self'.missing k ≡ is_missing (get_elem? (view m) k))
  full_update_lem m room self v h =
      let (bytes, ew, eb, le) = write_runlength_encoded_lem V m room v in
      let whole : ranges I (running_sums 0 (status_runs V m room)) ≡ gaps none 0 (view m) =
        rw (fitting_all V room (runs true 0 (view m)) h)
          (ranges-runs I (view m) (omega (arith, length-view m v.fits, v.small))) in
      let missing = ranges I (running_sums 0 (status_runs V m room)) in
      (
        bytes,
        record { missing = missing; cursor = 0 },
        is_empty missing,
        ew,
        parse_status m room self bytes v eb,
        whole,
        λ k. ap (λ (l : List MissingRange). covers l k) whole ∙ covers-gaps (view m) k,
      )
