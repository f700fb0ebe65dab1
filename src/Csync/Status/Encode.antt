-- ===== src/Csync/Status/Encode.antt =====
-- v1/csync/src/codec.rs: what `write_runlength_encoded` writes.
use das_protokoll.Base.{
  ℕ, suc, ◌+◌, ◌-◌, ◌^◌, ◌≤◌, ◌<◌, ◌≡◌, refl, ap, Bool, true, false, some, List, [], ◌∷◌, ◌++◌, leb,
  bool_eq, if◌then◌else◌, length, take, arith, append-nil, append_assoc, All, Bool-cases, inl, inr,
  length-append,
}
use das_protokoll.Base.Word.{IsU64}
use das_protokoll.BitMap.{BitMap}
use das_protokoll.BitMap.View.{view, IsValid, length-view}
use das_protokoll.BitMap.Iteration.{iter_bits-view}
use das_protokoll.Crates.{Varmint}
use das_protokoll.Csync.Status.{Writer, write_varint, write_runs, write_runlength_encoded}

-- The lengths of the runs of equal bits, the first a run of `prev` that has `count` already.
unfoldable pub runs : Bool → ℕ → List Bool → List ℕ
runs prev count [] = count ∷ []
runs prev count (b ∷ bs) = elim (bool_eq b prev) [
  | true ↦ runs prev (count + 1) bs
  | false ↦ count ∷ runs b 1 bs
]

pub runs_same :
    (prev b : Bool) (count : ℕ) (bs : List Bool)
    → bool_eq b prev ≡ true
    → runs prev count (b ∷ bs) ≡ runs prev (count + 1) bs
unfolding runs
runs_same prev b count bs h = ground (arith, h)

pub runs_change :
    (prev b : Bool) (count : ℕ) (bs : List Bool)
    → bool_eq b prev ≡ false
    → runs prev count (b ∷ bs) ≡ count ∷ runs b 1 bs
unfolding runs
runs_change prev b count bs h = ground (arith, h)

pub runs_bounded :
    (prev : Bool) (count : ℕ) (bs : List Bool)
    → count + length bs < 2 ^ 64
    → All IsU64 (runs prev count bs)
runs_bounded prev count [] h = unfold runs in (omega arith, tt)
runs_bounded prev count (b ∷ bs) h = elim (Bool-cases (bool_eq b prev)) [
  | inl same ↦ rw (runs_same prev b count bs same) (runs_bounded prev (count + 1) bs (omega arith))
  | inr change ↦
      rw (runs_change prev b count bs change) (omega arith, runs_bounded b 1 bs (omega arith))
]

module _ (V : Varmint) where
  open V use {write_u64_varint, len_u64_varint, len-write}

  -- The longest front part whose encoding fits in `room` bytes.
  unfoldable pub fitting : ℕ → List ℕ → List ℕ
  fitting room [] = []
  fitting room (x ∷ xs) =
      if leb (length (write_u64_varint x)) room
      then x ∷ fitting (room - length (write_u64_varint x)) xs
      else []

  unfoldable pub encodings : List ℕ → List ℕ
  encodings [] = []
  encodings (x ∷ xs) = write_u64_varint x ++ encodings xs

  pub fitting-take : (room : ℕ) (xs : List ℕ) → (n : ℕ) × (fitting room xs ≡ take n xs)
  unfolding fitting
  fitting-take room [] = (0, refl)
  fitting-take room (x ∷ xs) = elim (Bool-cases (leb (length (write_u64_varint x)) room)) [
    | inl fits ↦
        let (n, e) = fitting-take (room - length (write_u64_varint x)) xs in
        (suc n, rw fits (ap (◌∷◌ x) e))
    | inr full ↦ (0, rw full)
  ]

  -- Two numbers fit in 20 bytes.
  pub fitting_two :
      (room : ℕ) (xs : List ℕ)
      → 20 ≤ room
      → All IsU64 xs
      → 2 ≤ length xs
      → 2 ≤ length (fitting room xs)
  unfolding fitting
  fitting_two room [] h a l = absurd (omega arith)
  fitting_two room (x ∷ []) h a l = absurd (omega arith)
  fitting_two room (x ∷ y ∷ xs) h a l =
      ground (arith, len-write x a.0, len-write y a.1.0, V.len-le x a.0, V.len-le y a.1.0)

  pub fitting_all : (room : ℕ) (xs : List ℕ) → length (encodings xs) ≤ room → fitting room xs ≡ xs
  unfolding fitting encodings
  fitting_all room [] h = refl
  fitting_all room (x ∷ xs) h =
      let total = length-append (write_u64_varint x) (encodings xs) in
      ground
        (arith, total, fitting_all (room - length (write_u64_varint x)) xs (omega (arith, total)))

  pub length-encodings-fitting :
      (room : ℕ) (xs : List ℕ) → length (encodings (fitting room xs)) ≤ room
  unfolding fitting encodings
  length-encodings-fitting room [] = omega arith
  length-encodings-fitting room (x ∷ xs) =
      let left = room - length (write_u64_varint x) in
      ground (
        arith,
        length-append (write_u64_varint x) (encodings (fitting left xs)),
        length-encodings-fitting left xs,
      )

  -- What the loop is to return, from a writer `w` with `written` bytes counted, for the numbers `xs`.
  abbrev Wrote : ℕ → Writer → List ℕ → ℕ × Writer → Type 0
  Wrote written w xs r =
      (r.0 ≡ written + length (encodings (fitting w.room xs)))
      × (r.1.out ≡ w.out ++ encodings (fitting w.room xs))

  write_runs_end :
      (count : ℕ) (prev : Bool) (written : ℕ) (w : Writer)
      → IsU64 count
      → Wrote written w (count ∷ []) (write_runs V [] count prev written w)
  unfolding write_runs write_varint fitting encodings
  write_runs_end count prev written w h =
      ground (arith, len-write count, append-nil (write_u64_varint count), append-nil w.out)

  write_runs_same :
      (b prev : Bool) (bits : List Bool) (count written : ℕ) (w : Writer)
      → bool_eq b prev ≡ true
      → write_runs V (b ∷ bits) count prev written w ≡ write_runs V bits (count + 1) prev written w
  unfolding write_runs
  write_runs_same b prev bits count written w h = ground (arith, h)

  write_runs_change :
      (b prev : Bool) (bits : List Bool) (count written : ℕ) (w : Writer) (xs : List ℕ)
      → IsU64 count
      → bool_eq b prev ≡ false
      → ((w' : Writer) (n : ℕ) → Wrote n w' xs (write_runs V bits 1 b n w'))
      → Wrote written w (count ∷ xs) (write_runs V (b ∷ bits) count prev written w)
  unfolding write_runs write_varint fitting encodings
  write_runs_change b prev bits count written w xs hc h rec =
      let bytes = write_u64_varint count in
      let w' : Writer = record { out = w.out ++ bytes; room = w.room - length bytes } in
      ground (
        arith,
        h,
        rec w' (written + len_u64_varint count),
        len-write count,
        append-nil w.out,
        length-append bytes (encodings (fitting w'.room xs)),
        append_assoc w.out bytes (encodings (fitting w'.room xs)),
      )

  -- The loop appends the encodings of the runs that fit, and counts their bytes.
  write_runs_lem :
      (bits : List Bool) (count : ℕ) (prev : Bool) (written : ℕ) (w : Writer)
      → count + length bits < 2 ^ 64
      → Wrote written w (runs prev count bits) (write_runs V bits count prev written w)
  write_runs_lem [] count prev written w h =
      unfold runs in write_runs_end count prev written w (omega arith)
  write_runs_lem (b ∷ bits) count prev written w h = elim (Bool-cases (bool_eq b prev)) [
    | inl same ↦
        rw (runs_same prev b count bits same, write_runs_same b prev bits count written w same)
          (write_runs_lem bits (count + 1) prev written w (omega arith))
    | inr change ↦ rw (runs_change prev b count bits change) (
        write_runs_change b prev bits count written w (runs b 1 bits) (omega arith) change
          (λ w' n. write_runs_lem bits 1 b n w' (omega arith)))
  ]

  abbrev pub status_runs : BitMap → ℕ → List ℕ
  status_runs m room = fitting room (runs true 0 (view m))

  -- On a well-formed map the writer never fails: it puts down the longest front part of the run
  -- lengths whose encoding fits, returns the number of its bytes, and these are within the room.
  pub write_runlength_encoded_lem :
      (m : BitMap) (room : ℕ)
      → IsValid m
      → (bytes : List ℕ) × (write_runlength_encoded V m room ≡ some (length bytes, bytes))
        × (bytes ≡ encodings (status_runs m room))
        × (length bytes ≤ room)
  unfolding write_runlength_encoded
  write_runlength_encoded_lem m room v =
      let w =
        write_runs_lem (view m) 0 true 0 (record { out = []; room = room })
          (omega (arith, length-view m v.fits, v.small)) in
      (
        encodings (status_runs m room),
        rw (iter_bits-view m v) (ground (arith, w.0, w.1)),
        refl,
        length-encodings-fitting room (runs true 0 (view m)),
      )
