-- ===== src/BitMap/Access.antt =====
-- `get` and `set` of lib.rs against the list of bits.
use das_protokoll.Base.{
  ℕ, zero, suc, ◌+◌, ◌*◌, ◌/◌, ◌%◌, ◌^◌, ◌≤◌, ◌<◌, ◌≡◌, refl, sym, ap, ◌∙◌, Bool, true, false, some,
  List, [], ◌∷◌, if◌then◌else◌, length, get_elem?, All-get, All-set, set-get, set as set_elem, take,
  arith, get_elem?-take, length-set, take-set, get_elem?_below, Bool-cases, bool_eq, inl, inr,
  bool_eq→eq,
}
use das_protokoll.Base.Word.{IsByte, add64, sub64, add64-eq, sub64-eq}
use das_protokoll.BitMap.{BitMap, count_zeroes, get, set, test_bit, put_bit, bit_mask, as_u8}
use das_protokoll.BitMap.Bytes.{byte_bits, test_bit_lem, put_bit_lem}
use das_protokoll.BitMap.View.{bits, view, IsValid, bits_split, bits-set, length-view}

-- The byte that holds a bit of the map.
pub byte_of :
    (m : BitMap) (bit : ℕ)
    → IsValid m
    → bit < length m.buf * 8
    → (byte : ℕ) × (get_elem? m.buf (bit / 8) ≡ some byte) × (byte < 256)
byte_of m bit v h =
    let (byte, e) = get_elem?_below m.buf (bit / 8) (omega arith) in
    (byte, e, All-get IsByte m.buf (bit / 8) byte v.bytes e)

-- A byte's bit is the map's.
bits_at :
    (m : BitMap) (bit byte : ℕ)
    → get_elem? m.buf (bit / 8) ≡ some byte
    → byte < 256
    → get_elem? (bits m.buf) bit ≡ some (test_bit byte (2 ^ (bit % 8)))
bits_at m bit byte e h = bits_split m.buf bit ∙ rw e (test_bit_lem byte (bit % 8) h (omega arith))

-- Inside a well-formed map `get` returns the bit at the position.
pub get-view :
    (m : BitMap) (bit : ℕ) → IsValid m → bit < m.num_bits → get m bit ≡ get_elem? (view m) bit
unfolding get
get-view m bit v h =
    let (byte, e, hb) = byte_of m bit v (omega arith) in
    rw (get_elem?-take m.num_bits bit (bits m.buf) h, bits_at m bit byte e hb) (ground (arith, e))

count_zeroes-set :
    (bs : List Bool) (i : ℕ) (old new : Bool)
    → get_elem? bs i ≡ some old
    → count_zeroes (set_elem bs i new) + as_u8 new ≡ count_zeroes bs + as_u8 old
unfolding count_zeroes
count_zeroes-set [] i old new e = cc
count_zeroes-set (b ∷ bs) zero old new e = ground arith
count_zeroes-set (b ∷ bs) (suc i) old new e = omega (arith, count_zeroes-set bs i old new e)

pub count_zeroes-le : (bs : List Bool) → count_zeroes bs ≤ length bs
unfolding count_zeroes
count_zeroes-le [] = omega arith
count_zeroes-le (b ∷ bs) = ground (arith, count_zeroes-le bs)

-- A byte written so that one bit changes, with the count of zeroes to match.
written :
    (m : BitMap) (bit byte byte' z : ℕ) (old new : Bool)
    → IsValid m
    → bit < m.num_bits
    → get_elem? m.buf (bit / 8) ≡ some byte
    → get_elem? (view m) bit ≡ some old
    → byte_bits byte' ≡ set_elem (byte_bits byte) (bit % 8) new
    → byte' < 256
    → z + as_u8 new ≡ m.zeroes + as_u8 old
    → let m' = record m { buf = set_elem m.buf (bit / 8) byte'; zeroes = z } in
      (view m' ≡ set_elem (view m) bit new) × IsValid m'
written m bit byte byte' z old new v h e eo eb hb ez = (views, valid)
  where
    m' : BitMap
    m' = record m { buf = set_elem m.buf (bit / 8) byte'; zeroes = z }

    views : view m' ≡ set_elem (view m) bit new
    views =
        ap (take m.num_bits) (bits-set m.buf bit byte byte' new e eb)
        ∙ take-set m.num_bits bit new (bits m.buf)

    valid : IsValid m'
    valid = record {
      bytes = All-set IsByte m.buf (bit / 8) byte' v.bytes hb;
      fits = omega (arith, v.fits, length-set m.buf (bit / 8) byte');
      small = v.small;
      counted = rw views (omega (arith, ez, v.counted, count_zeroes-set (view m) bit old new eo));
    }

-- What a write of a bit does: it returns the old bit, changes that bit alone, and keeps the map well
-- formed.
pub record Writes (m : BitMap) (bit : ℕ) (new : Bool) (m' : BitMap) (old : Bool) : Type 0 where
  pub was : get_elem? (view m) bit ≡ some old
  pub now : view m' ≡ set_elem (view m) bit new
  pub valid : IsValid m'
  pub same_size : m'.num_bits ≡ m.num_bits

-- The bit that the code tests is the view's.
pub tested :
    (m : BitMap) (bit byte : ℕ)
    → bit < m.num_bits
    → get_elem? m.buf (bit / 8) ≡ some byte
    → byte < 256
    → get_elem? (view m) bit ≡ some (test_bit byte (bit_mask bit))
tested m bit byte h e hb = get_elem?-take m.num_bits bit (bits m.buf) h ∙ bits_at m bit byte e hb

-- One more or one fewer zero, without wrapping.
recounted :
    (m : BitMap) (bit : ℕ) (old new : Bool)
    → IsValid m
    → get_elem? (view m) bit ≡ some old
    → bool_eq old new ≡ false
    → (if new then sub64 m.zeroes 1 else add64 m.zeroes 1) + as_u8 new ≡ m.zeroes + as_u8 old
recounted m bit true true v eo d = cc
recounted m bit false false v eo d = cc
recounted m bit false true v eo d = omega (
  arith,
  count_zeroes-set (view m) bit false true eo,
  count_zeroes-le (view m),
  length-view m v.fits,
  sub64-eq m.zeroes 1,
)
recounted m bit true false v eo d = omega (
  arith,
  count_zeroes-set (view m) bit true false eo,
  count_zeroes-le (set_elem (view m) bit false),
  length-set (view m) bit false,
  length-view m v.fits,
  add64-eq m.zeroes 1,
)

-- Inside a well-formed map `set` returns the old bit, writes the new one and no other, and keeps the
-- map well formed, its count of zeroes included.
pub set-view :
    (m : BitMap) (bit : ℕ) (new : Bool)
    → IsValid m
    → bit < m.num_bits
    → (m' : BitMap) × (old : Bool) × (set m bit new ≡ some (m', old)) × Writes m bit new m' old
unfolding set
set-view m bit new v h =
    let (byte, e, hb) = byte_of m bit v (omega (arith, v.fits)) in
    let old = test_bit byte (bit_mask bit) in
    let was = tested m bit byte h e hb in
    elim (Bool-cases (bool_eq old new)) [
      | inl eq ↦
          let same : old ≡ new = bool_eq→eq old new eq in
          (
            m,
            old,
            ground (arith, e, eq),
            record {
              was = was;
              now = sym (set-get (view m) bit new (was ∙ ap some same));
              valid = v;
              same_size = refl;
            },
          )
      | inr ne ↦
          let (eb, lt) = put_bit_lem byte (bit % 8) new hb (omega arith) in
          let z = (if new then sub64 m.zeroes 1 else add64 m.zeroes 1) in
          let done =
            written m bit byte (put_bit byte (bit % 8) new) z old new v h e was eb lt
              (recounted m bit old new v was ne) in
          (
            record m { buf = set_elem m.buf (bit / 8) (put_bit byte (bit % 8) new); zeroes = z },
            old,
            ground (arith, e, ne),
            record { was = was; now = done.0; valid = done.1; same_size = refl },
          )
    ]
