-- ===== src/Csync/Receiver/Integrity.antt =====
-- v1/csync/src/server/receiver.rs: how the server's file agrees with the client's while it is received.
use das_protokoll.Base.{
  ℕ, ◌+◌, ◌-◌, ◌*◌, ◌≤◌, ◌<◌, ◌≡◌, sym, ap, ◌∙◌, Bool, true, some, List, ◌≢◌, arith, inl, inr, ◌⊎◌,
  order_cases, take, drop, length, get_elem?, min, length-take, length-drop, get_elem?-take,
  get_elem?-drop, get_elem?-set_ne, set as set_elem, zero, suc, ◌/◌, ◌%◌, All, All-get, list_ext,
  get_elem?_below,
}
use mathlib.Core.Path.{subst}
use native.Mathlib.Nat.{mul-le-mul_right, div-add-mod', mod-lt}
use das_protokoll.Csync.Chunks.Sizes.{CutsInto}
use das_protokoll.Csync.Receiver.{write_at}
use das_protokoll.Csync.Receiver.WriteAt.{length-write_at, write_at_inside, write_at_outside}

-- The bytes of chunk `i` of a file.
abbrev pub slice : List ℕ → ℕ → ℕ → List ℕ
slice source size i = take size (drop (i * size) source)

-- The file has the client's bytes wherever the map has a 1.
pub record Agrees (source : List ℕ) (size : ℕ) (bits : List Bool) (file : List ℕ) : Type 0 where
  pub same_length : length file ≡ length source
  pub held :
      (i : ℕ)
      → get_elem? bits i ≡ some true
      → (j : ℕ) → j < size
      → i * size + j < length source
      → get_elem? file (i * size + j) ≡ get_elem? source (i * size + j)

module _ (source : List ℕ) (size i : ℕ) (starts : i * size < length source) where
  pub length-slice : length (slice source size i) ≡ min size (length source - i * size)
  length-slice =
      omega (arith, length-take size (drop (i * size) source), length-drop (i * size) source)

  get-slice :
      (j : ℕ) → j < size → get_elem? (slice source size i) j ≡ get_elem? source (i * size + j)
  get-slice j h =
      get_elem?-take size j (drop (i * size) source) h ∙ get_elem?-drop source (i * size) j

apart : (i k size : ℕ) → i < k → i * size + size ≤ k * size
apart i k size h = omega (arith, mul-le-mul_right size h)

pub starts_inside : (i n size len : ℕ) → i < n → n * size < len + size → i * size < len
starts_inside i n size len h k = omega (arith, apart i n size h)

-- Writing a chunk's bytes to its place, and then its bit, keeps the agreement.
pub write-Agrees :
    (source file : List ℕ) (size i : ℕ) (bits bits' : List Bool)
    → i * size < length source
    → Agrees source size bits file
    → bits' ≡ set_elem bits i true
    → Agrees source size bits' (write_at file (i * size) (slice source size i))
write-Agrees source file size i bits bits' starts a now = record {
  same_length = length-write_at file (slice source size i) (i * size) inside ∙ a.same_length;
  held = λ k b j hj hk. at k j (order_cases k i) b hj hk;
}
  where
    inside : i * size + length (slice source size i) ≤ length file
    inside = omega (arith, length-slice source size i starts, a.same_length)

    bytes : List ℕ
    bytes = slice source size i

    other :
        (k j : ℕ)
        → i ≢ k
        → (k * size + j < i * size) ⊎ (i * size + length bytes ≤ k * size + j)
        → get_elem? bits' k ≡ some true
        → j < size
        → k * size + j < length source
        → get_elem? (write_at file (i * size) bytes) (k * size + j)
          ≡ get_elem? source (k * size + j)
    other k j ne off b hj hk =
        write_at_outside file bytes (i * size) inside (k * size + j) off
        ∙ a.held k
            (sym (get_elem?-set_ne bits i k true ne)
              ∙ sym (ap (λ (v : List Bool). get_elem? v k) now)
              ∙ b)
            j hj hk

    at :
        (k j : ℕ)
        → (k < i) ⊎ ((k ≡ i) ⊎ (i < k))
        → get_elem? bits' k ≡ some true
        → j < size
        → k * size + j < length source
        → get_elem? (write_at file (i * size) bytes) (k * size + j)
          ≡ get_elem? source (k * size + j)
    at k j (inl lt) b hj hk =
        other k j (λ e. omega arith) (inl (omega (arith, apart k i size lt))) b hj hk
    at k j (inr (inr lt)) b hj hk =
        other k j (λ e. omega arith)
          (inr (omega (arith, apart i k size lt, length-slice source size i starts))) b hj hk
    at k j (inr (inl e)) b hj hk =
        let hk' : i * size + j < length source = rw e at hk in
        rw e (
          write_at_inside file bytes (i * size) inside j
            (omega (arith, length-slice source size i starts))
          ∙ get-slice source size i starts j hj)

positive : (size n len : ℕ) → CutsInto len size n → 0 < size
positive zero n len c = absurd (omega (arith, c.0, c.1))
positive (suc size) n len c = omega arith

quotient_below : (k size n len : ℕ) → k < len → len ≤ n * size → k / size < n
quotient_below k size n len h c = elim (order_cases (k / size) n) [
  | inl lt ↦ lt
  | inr ge ↦
      let above : n ≤ k / size = omega arith in
      absurd (omega (arith, mul-le-mul_right size above, div-add-mod' k size))
]

-- When every bit is 1, agreement is equality.
pub agreed :
    (source : List ℕ) (size n : ℕ) (bits : List Bool) (file : List ℕ)
    → CutsInto (length source) size n
    → length bits ≡ n
    → Agrees source size bits file
    → All (λ b. b ≡ true) bits
    → file ≡ source
agreed source size n bits file cuts len a all = list_ext file source a.same_length at
  where
    at : (k : ℕ) → k < length source → get_elem? file k ≡ get_elem? source k
    at k h =
        let (b, e) =
          get_elem?_below bits (k / size)
            (omega (arith, len, quotient_below k size n (length source) h cuts.0)) in
        let one : b ≡ true = All-get (λ c. c ≡ true) bits (k / size) b all e in
        let pos : k / size * size + k % size ≡ k = div-add-mod' k size in
        let low : k % size < size = mod-lt k (positive size n (length source) cuts) in
        subst (λ i. get_elem? file i ≡ get_elem? source i) pos
          (a.held (k / size) (e ∙ ap some one) (k % size) low (omega (arith, pos)))
