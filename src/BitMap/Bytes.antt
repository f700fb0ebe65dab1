-- ===== src/BitMap/Bytes.antt =====
-- The masks of lib.rs on one byte against its eight bits in plain arithmetic, by tables.
use das_protokoll.Base.{
  ℕ, zero, suc, ◌+◌, ◌≤◌, inl, inr, order_cases, ◌/◌, ◌%◌, ◌^◌, ◌<◌, ◌≡◌, refl, Bool, true, false,
  ◌&&◌, List, [], ◌∷◌, ◌==◌, bool_eq, bool_eq→eq, set as set_elem, arith, get_elem?, some, none,
  ltb, ltb→lt, not,
}
use das_protokoll.BitMap.{test_bit, put_bit}
use Prim.Native.Nat.{bit_xor}

-- Bit `k` of a byte, lowest first.
abbrev pub bit_of : ℕ → ℕ → Bool
bit_of byte k = byte / 2 ^ k % 2 == 1

abbrev pub byte_bits : ℕ → List Bool
byte_bits b =
    bit_of b 0
    ∷ bit_of b 1
    ∷ bit_of b 2
    ∷ bit_of b 3
    ∷ bit_of b 4
    ∷ bit_of b 5
    ∷ bit_of b 6
    ∷ bit_of b 7
    ∷ []

&&-parts : (a b : Bool) → (a && b) ≡ true → (a ≡ true) × (b ≡ true)
&&-parts a b h = ground arith

same : List Bool → List Bool → Bool
same [] [] = true
same (a ∷ as') (b ∷ bs) = bool_eq a b && same as' bs
same _ _ = false

same→eq : (xs ys : List Bool) → same xs ys ≡ true → xs ≡ ys
unfolding same
same→eq [] [] h = refl
same→eq [] (y ∷ ys) h = cc
same→eq (x ∷ xs) [] h = cc
same→eq (x ∷ xs) (y ∷ ys) h = ground (arith, bool_eq→eq x y, same→eq xs ys)

-- Whether a test passes at each of `i`, `i + 1`, and so on, `steps` of them.
holds_from : (test : ℕ → Bool) (i steps : ℕ) → Bool
holds_from test i zero = true
holds_from test i (suc steps) = test i && holds_from test (suc i) steps

passes :
    (test : ℕ → Bool) (i steps at : ℕ)
    → holds_from test i steps ≡ true
    → i ≤ at
    → at < i + steps
    → test at ≡ true
unfolding holds_from
passes test i zero at h low high = absurd (omega arith)
passes test i (suc steps) at h low high = elim (order_cases i at) [
  | inl later ↦ passes test (suc i) steps at (ground arith) (omega arith) (omega arith)
  | inr (inl here) ↦ rw (← here) (ground arith)
  | inr (inr before) ↦ absurd (omega arith)
]

-- A test of every byte and every place in it.
abbrev table : (ℕ → ℕ → Bool) → Bool
table p = holds_from (λ b. holds_from (p b) 0 8) 0 256

table_sound : (p : ℕ → ℕ → Bool) → table p ≡ true → (b k : ℕ) → b < 256 → k < 8 → p b k ≡ true
table_sound p t b k hb hk =
    passes (p b) 0 8 k (passes (λ c. holds_from (p c) 0 8) 0 256 b t (omega arith) (omega arith))
      (omega arith) (omega arith)

same_at : List Bool → ℕ → Bool → Bool
same_at bs k v = elim (get_elem? bs k) [ none ↦ false | some b ↦ bool_eq b v ]

same_at→eq : (bs : List Bool) (k : ℕ) (v : Bool) → same_at bs k v ≡ true → get_elem? bs k ≡ some v
unfolding same_at
same_at→eq bs k v h = ground arith

test_bit-table : table (λ b k. same_at (byte_bits b) k (test_bit b (2 ^ k))) ≡ true
unfolding holds_from same_at
test_bit-table = refl

pub test_bit_lem :
    (b k : ℕ) → b < 256 → k < 8 → get_elem? (byte_bits b) k ≡ some (test_bit b (2 ^ k))
test_bit_lem b k hb hk =
    same_at→eq _ k _
      (table_sound (λ c j. same_at (byte_bits c) j (test_bit c (2 ^ j))) test_bit-table b k hb hk)

-- A written byte is a byte, and has the new bit at the place and the old ones elsewhere.
abbrev puts : Bool → ℕ → ℕ → Bool
puts v b k =
    same (byte_bits (put_bit b k v)) (set_elem (byte_bits b) k v) && ltb (put_bit b k v) 256

puts-table : (v : Bool) → table (puts v) ≡ true
unfolding holds_from same
puts-table true = refl
puts-table false = refl

pub put_bit_lem :
    (b k : ℕ) (v : Bool)
    → b < 256
    → k < 8
    → (byte_bits (put_bit b k v) ≡ set_elem (byte_bits b) k v) × (put_bit b k v < 256)
put_bit_lem b k v hb hk =
    let e = &&-parts _ _ (table_sound (puts v) (puts-table v) b k hb hk) in
    (same→eq _ _ e.0, ltb→lt _ _ e.1)

abbrev flips : ℕ → ℕ → Bool
flips b k =
    same (byte_bits (bit_xor b (2 ^ k))) (set_elem (byte_bits b) k (not (test_bit b (2 ^ k))))
    && (ltb (bit_xor b (2 ^ k)) 256 && bool_eq (bit_xor b (2 ^ k) == 2 ^ k) (b == 0))

flips-table : table flips ≡ true
unfolding holds_from same
flips-table = refl

-- The flipped byte, and what `*byte == bitmask` says of it: that the old byte was 0.
pub bit_xor_lem :
    (b k : ℕ)
    → b < 256
    → k < 8
    → (byte_bits (bit_xor b (2 ^ k)) ≡ set_elem (byte_bits b) k (not (test_bit b (2 ^ k))))
      × (bit_xor b (2 ^ k) < 256)
      × ((bit_xor b (2 ^ k) == 2 ^ k) ≡ (b == 0))
bit_xor_lem b k hb hk =
    let e = &&-parts _ _ (table_sound flips flips-table b k hb hk) in
    let f = &&-parts _ _ e.1 in (same→eq _ _ e.0, ltb→lt _ _ f.0, bool_eq→eq _ _ f.1)
