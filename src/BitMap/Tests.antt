-- ===== src/BitMap/Tests.antt =====
-- A map of ten bits over two bytes, and lib.rs and range.rs on it.
use das_protokoll.Base.{
  ℕ, ◌≡◌, refl, Bool, true, some, List, [], ◌∷◌, ◌==◌, if◌then◌else◌, get_elem?, set as set_elem,
  arith, not, ◌≢◌,
}
use das_protokoll.Base.Word.{add64, sub64}
use das_protokoll.BitMap.{BitMap, count_zeroes, get, set, flip_bit, with_length, iter_bits}
use das_protokoll.BitMap.View.{view, IsValid}
use das_protokoll.BitMap.Access.{Writes, set-view}
use das_protokoll.BitMap.Edges.{past_the_end, flip_bit-view}

abbrev pub two_bytes : List ℕ
two_bytes = 5 ∷ 1 ∷ []

abbrev ten_bits : BitMap
ten_bits = record { buf = 5 ∷ 1 ∷ []; num_bits = 10; zeroes = 7 }

ten_bits-IsValid : IsValid ten_bits
unfolding count_zeroes
ten_bits-IsValid = record {
  bytes = (omega arith, (omega arith, tt));
  fits = omega arith;
  small = omega arith;
  counted = refl;
}

set-view_example :
    (m' : BitMap) × (old : Bool) × (set ten_bits 1 true ≡ some (m', old))
    × Writes ten_bits 1 true m' old
set-view_example = set-view ten_bits 1 true ten_bits-IsValid (omega arith)

past_the_end_example :
    (b : Bool) × (m' : BitMap) × (get ten_bits 10 ≡ some b)
    × (set ten_bits 10 (not b) ≡ some (m', b))
    × (m'.zeroes ≢ count_zeroes (view m'))
past_the_end_example = past_the_end ten_bits ten_bits-IsValid (omega arith)

flip_bit-view_example :
    (m' : BitMap) × (old : Bool) × (flip_bit ten_bits 1 ≡ some (m', 5 == 0))
    × (get_elem? (view ten_bits) 1 ≡ some old)
    × (view m' ≡ set_elem (view ten_bits) 1 (not old))
    × (m'.zeroes ≡ (if 5 == 0 then sub64 7 1 else add64 7 1))
flip_bit-view_example = flip_bit-view ten_bits 1 5 ten_bits-IsValid (omega arith) refl

with_length_counts : with_length two_bytes 10 ≡ some ten_bits
unfolding with_length count_zeroes iter_bits add64
with_length_counts = refl
