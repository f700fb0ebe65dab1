-- ===== src/BitMap.antt =====
-- v1/bitte-ein-bit/src/lib.rs and range.rs: a bit map over a byte buffer with a cached count of
-- zeroes. The buffer is the list of its bytes; `none` is a panic.
pub mod Bytes
pub mod View
pub mod Access
pub mod Edges
pub mod Iteration
pub mod Counts
pub mod Tests
use das_protokoll.Base.{
  ℕ, zero, suc, ◌+◌, ◌-◌, ◌*◌, ◌/◌, ◌%◌, ◌^◌, Bool, true, false, Option, none, some, List, [], ◌∷◌,
  ltb, ◌==◌, bool_eq, if◌then◌else◌, ◌>>=◌, ◌>>◌, assert, length, get_elem?, set as set_elem, map,
  leb, not,
}
use das_protokoll.Base.Word.{add64, sub64}
use Prim.Native.Nat.{bit_and, bit_or, bit_xor}

pub record BitMap : Type 0 where
  pub buf : List ℕ
  pub num_bits : ℕ
  pub zeroes : ℕ

-- `check` panics on `bit > num_bits`.
abbrev pub check : BitMap → ℕ → Option Bool
check m bit = assert (not (ltb m.num_bits bit))

abbrev pub bit_mask : ℕ → ℕ
bit_mask bit = 2 ^ (bit % 8)

-- `(byte & bitmask) == bitmask`
abbrev pub test_bit : ℕ → ℕ → Bool
test_bit byte mask = bit_and byte mask == mask

abbrev pub as_u8 : Bool → ℕ
as_u8 true = 1
as_u8 false = 0

-- `*byte &= !bitmask; *byte |= (new as u8) << (bit % 8);`
abbrev pub put_bit : ℕ → ℕ → Bool → ℕ
put_bit byte shift new = bit_or (bit_and byte (255 - 2 ^ shift)) (as_u8 new * 2 ^ shift)

unfoldable pub get : BitMap → ℕ → Option Bool
get m bit = do check m bit; byte ← get_elem? m.buf (bit / 8); some (test_bit byte (bit_mask bit))

unfoldable pub set : BitMap → ℕ → Bool → Option (BitMap × Bool)
set m bit new = do
  check m bit
  byte ← get_elem? m.buf (bit / 8)
  let old = test_bit byte (bit_mask bit)
  let changed = record m {
    buf = set_elem m.buf (bit / 8) (put_bit byte (bit % 8) new);
    zeroes = if new then sub64 m.zeroes 1 else add64 m.zeroes 1;
  }
  some (if bool_eq old new then m else changed, old)

-- The new value is computed as `*byte == bitmask`, after the flip.
unfoldable pub flip_bit : BitMap → ℕ → Option (BitMap × Bool)
flip_bit m bit = do
  check m bit
  byte ← get_elem? m.buf (bit / 8)
  let flipped = bit_xor byte (bit_mask bit)
  let new = flipped == bit_mask bit
  let changed = record m {
    buf = set_elem m.buf (bit / 8) flipped;
    zeroes = if new then sub64 m.zeroes 1 else add64 m.zeroes 1;
  }
  some (changed, new)

abbrev pub zeroed : List ℕ → List ℕ
zeroed = map (λ _. 0)

unfoldable pub reset : BitMap → BitMap
reset m = record m { buf = zeroed m.buf; zeroes = m.num_bits }

unfoldable pub ones : BitMap → ℕ
ones m = sub64 m.num_bits m.zeroes

unfoldable pub all : BitMap → Bool
all m = m.zeroes == 0

unfoldable pub any : BitMap → Bool
any m = not (m.zeroes == m.num_bits)

-- range.rs: the four kinds of range that `iter_range` takes.
pub data RangeArgument : Type 0 where
  range : ℕ → ℕ → RangeArgument
  range_from : ℕ → RangeArgument
  range_to : ℕ → RangeArgument
  range_full : RangeArgument

abbrev pub start : RangeArgument → Option ℕ
start (range a b) = some a
start (range_from a) = some a
start (range_to b) = none
start range_full = none

abbrev pub end : RangeArgument → Option ℕ
end (range a b) = some b
end (range_from a) = none
end (range_to b) = some b
end range_full = none

abbrev pub unwrap_or : Option ℕ → ℕ → ℕ
unwrap_or none d = d
unwrap_or (some a) d = a

pub record Iter : Type 0 where
  pub bitmap : BitMap
  pub front : ℕ
  pub back : ℕ

unfoldable pub iter_range : BitMap → RangeArgument → Iter
iter_range m r = record {
  bitmap = m;
  front = unwrap_or (start r) 0;
  back = unwrap_or (end r) m.num_bits;
}

unfoldable pub iter : BitMap → Iter
unfolding iter_range
iter m = iter_range m range_full

unfoldable pub next : Iter → Option (Option Bool × Iter)
unfolding get
next it =
    if it.front == it.back
    then some (none, it)
    else (do bit ← get it.bitmap it.front; some (some bit, record it { front = add64 it.front 1 }))

unfoldable pub next_back : Iter → Option (Option Bool × Iter)
unfolding get
next_back it = if it.front == it.back then some (none, it) else (do
  let back = sub64 it.back 1
  bit ← get it.bitmap back
  some (some bit, record it { back = back }))

-- `for bit in …`: calls a step until it gives `none`. Running out of fuel is `none` as a panic is.
unfoldable pub collect : (Iter → Option (Option Bool × Iter)) → ℕ → Iter → Option (List Bool)
collect step zero it = none
collect step (suc fuel) it = elim (step it) [
  | none ↦ none
  | some (none, _) ↦ some []
  | some (some bit, it') ↦ (do bits ← collect step fuel it'; some (bit ∷ bits))
]

-- One round for each bit, and one to see the end.
unfoldable pub iter_bits : BitMap → Option (List Bool)
unfolding collect iter next
iter_bits m = collect next (suc m.num_bits) (iter m)

unfoldable pub count_zeroes : List Bool → ℕ
count_zeroes [] = 0
count_zeroes (b ∷ bs) = (if b then 0 else 1) + count_zeroes bs

unfoldable pub with_length : List ℕ → ℕ → Option BitMap
with_length buf num_bits = do
  assert (leb num_bits (length buf * 8))
  let fresh : BitMap = record { buf = buf; num_bits = num_bits; zeroes = 0 }
  bits ← iter_bits fresh
  some (record fresh { zeroes = count_zeroes bits })

unfoldable pub new : List ℕ → Option BitMap
unfolding with_length
new buf = with_length buf (length buf * 8)
