-- ===== src/BitMap/Edges.antt =====
-- `get` and `set` of lib.rs at and beyond the end of the map, `flip_bit` and `reset`.
use das_protokoll.Base.{
  ℕ, zero, suc, ◌*◌, ◌/◌, ◌%◌, ◌^◌, ◌≤◌, ◌<◌, ◌≡◌, refl, sym, ap, ◌∙◌, Bool, true, false, none,
  some, List, [], ◌∷◌, ◌==◌, if◌then◌else◌, length, get_elem?, All-get, set_above, eq-replicate,
  All-take, set as set_elem, take, All, arith, not, take-set, replicate, ◌≢◌,
}
use Prim.Native.Nat.{bit_xor}
use das_protokoll.Base.Word.{IsByte, add64, sub64}
use das_protokoll.BitMap.{
  BitMap, count_zeroes, get, set, flip_bit, reset, test_bit, put_bit, zeroed, bit_mask,
}
use das_protokoll.BitMap.Bytes.{put_bit_lem, bit_xor_lem}
use das_protokoll.BitMap.View.{bits, view, IsValid, bits-set, length-view}
use das_protokoll.BitMap.Access.{byte_of, count_zeroes-le, tested}

-- `get` and `set` panic beyond the position `num_bits`.
pub out_of_bounds :
    (m : BitMap) (bit : ℕ) (new : Bool)
    → m.num_bits < bit
    → (get m bit ≡ none) × (set m bit new ≡ none) × (flip_bit m bit ≡ none)
unfolding get set flip_bit
out_of_bounds m bit new h = (ground arith, ground arith, ground arith)

off_by_one : (old : Bool) (z : ℕ) → z < 2 ^ 64 → (if not old then sub64 z 1 else add64 z 1) ≢ z
unfolding add64 sub64
off_by_one true z h e = omega arith
off_by_one false z h e = omega arith

-- At the position `num_bits` of a well-formed map nothing panics while the buffer has spare bits:
-- `check` lets it pass, and a `set` that changes the bit there leaves a count of zeroes that is not
-- the map's.
pub past_the_end :
    (m : BitMap)
    → IsValid m
    → m.num_bits < length m.buf * 8
    → (b : Bool) × (m' : BitMap) × (get m m.num_bits ≡ some b)
      × (set m m.num_bits (not b) ≡ some (m', b))
      × (m'.zeroes ≢ count_zeroes (view m'))
unfolding get set
past_the_end m v h =
    let (byte, e, hb) = byte_of m m.num_bits v h in
    let old = test_bit byte (bit_mask m.num_bits) in
    let byte' = put_bit byte (m.num_bits % 8) (not old) in
    let z = (if not old then sub64 m.zeroes 1 else add64 m.zeroes 1) in
    let (eb, lt) = put_bit_lem byte (m.num_bits % 8) (not old) hb (omega arith) in
    let m' : BitMap = record m { buf = set_elem m.buf (m.num_bits / 8) byte'; zeroes = z } in
    let same : view m' ≡ view m =
      ap (take m.num_bits) (bits-set m.buf m.num_bits byte byte' (not old) e eb)
      ∙ take-set m.num_bits m.num_bits (not old) (bits m.buf)
      ∙ set_above (view m) m.num_bits (not old) (omega (arith, length-view m v.fits)) in
    (
      old,
      m',
      ground (arith, e),
      ground (arith, e),
      λ eq.
          off_by_one old m.zeroes
            (omega
              (arith, v.counted, v.small, v.fits, length-view m v.fits, count_zeroes-le (view m)))
            (eq ∙ ap count_zeroes same ∙ sym v.counted),
    )

-- Inside a well-formed map `flip_bit` inverts the bit and no other. But it returns whether the old
-- byte was 0, and counts one zero fewer in that case and one more in any other, whatever the old bit
-- was.
pub flip_bit-view :
    (m : BitMap) (bit byte : ℕ)
    → IsValid m
    → bit < m.num_bits
    → get_elem? m.buf (bit / 8) ≡ some byte
    → (m' : BitMap) × (old : Bool) × (flip_bit m bit ≡ some (m', byte == 0))
      × (get_elem? (view m) bit ≡ some old)
      × (view m' ≡ set_elem (view m) bit (not old))
      × (m'.zeroes ≡ (if byte == 0 then sub64 m.zeroes 1 else add64 m.zeroes 1))
unfolding flip_bit
flip_bit-view m bit byte v h e =
    let hb = All-get IsByte m.buf (bit / 8) byte v.bytes e in
    let (eb, lt, en) = bit_xor_lem byte (bit % 8) hb (omega arith) in
    (
      record m {
        buf = set_elem m.buf (bit / 8) (bit_xor byte (bit_mask bit));
        zeroes = if byte == 0 then sub64 m.zeroes 1 else add64 m.zeroes 1;
      },
      test_bit byte (bit_mask bit),
      ground (arith, e, en),
      tested m bit byte h e hb,
      ap (take m.num_bits) (bits-set m.buf bit byte _ _ e eb)
          ∙ take-set m.num_bits bit _ (bits m.buf),
      refl,
    )

bits_zero : (buf : List ℕ) → All (λ b. b ≡ false) (bits (zeroed buf))
bits_zero [] = tt
bits_zero (b ∷ bs) = (refl, (refl, (refl, (refl, (refl, (refl, (refl, (refl, bits_zero bs))))))))

length-map_zero : (buf : List ℕ) → length (zeroed buf) ≡ length buf
length-map_zero [] = refl
length-map_zero (b ∷ bs) = ap suc (length-map_zero bs)

count_zeroes-replicate : (n : ℕ) → count_zeroes (replicate n false) ≡ n
unfolding count_zeroes
count_zeroes-replicate zero = refl
count_zeroes-replicate (suc n) = omega (arith, count_zeroes-replicate n)

-- `reset` clears every bit and keeps the map well formed.
pub reset-view :
    (m : BitMap) → IsValid m → IsValid (reset m) × (view (reset m) ≡ replicate m.num_bits false)
unfolding reset
reset-view m v =
    (record { bytes = bytes_zero m.buf; fits = fits; small = v.small; counted = counted }, views)
  where
    fits : m.num_bits ≤ length (zeroed m.buf) * 8
    fits = omega (arith, length-map_zero m.buf, v.fits)

    bytes_zero : (buf : List ℕ) → All IsByte (zeroed buf)
    bytes_zero [] = tt
    bytes_zero (b ∷ bs) = (omega arith, bytes_zero bs)

    views : view (reset m) ≡ replicate m.num_bits false
    views =
        eq-replicate false _ (All-take (λ b. b ≡ false) m.num_bits _ (bits_zero m.buf))
        ∙ ap (λ (n : ℕ). replicate n false) (length-view (reset m) fits)

    counted : m.num_bits ≡ count_zeroes (view (reset m))
    counted = rw views (sym (count_zeroes-replicate m.num_bits))
