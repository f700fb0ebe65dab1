-- ===== src/BitMap/View.antt =====
-- A bit map as the list of its bits, and what makes one well formed.
use das_protokoll.Base.{
  ℕ, zero, suc, ◌*◌, ◌/◌, ◌%◌, ◌^◌, ◌≤◌, ◌<◌, ◌≡◌, refl, ap, Bool, some, List, [], ◌∷◌, ◌++◌, ◌>>=◌,
  length, get_elem?, set as set_elem, take, All, arith, length-take,
}
use mathlib.Core.Path.{subst}
use das_protokoll.Base.Word.{IsByte}
use das_protokoll.BitMap.{BitMap, count_zeroes}
use das_protokoll.BitMap.Bytes.{byte_bits}

abbrev pub bits : List ℕ → List Bool
bits [] = []
bits (b ∷ bs) = byte_bits b ++ bits bs

abbrev pub view : BitMap → List Bool
view m = take m.num_bits (bits m.buf)

pub record IsValid (m : BitMap) : Type 0 where
  pub bytes : All IsByte m.buf
  pub fits : m.num_bits ≤ length m.buf * 8
  pub small : m.num_bits < 2 ^ 64
  pub counted : m.zeroes ≡ count_zeroes (view m)

pub length-bits : (buf : List ℕ) → length (bits buf) ≡ length buf * 8
length-bits [] = omega arith
length-bits (b ∷ bs) = omega (arith, length-bits bs)

pub length-view : (m : BitMap) → m.num_bits ≤ length m.buf * 8 → length (view m) ≡ m.num_bits
length-view m h = omega (arith, length-take m.num_bits (bits m.buf), length-bits m.buf)

-- The bit at a position is the one of its byte.
pub bits_split :
    (buf : List ℕ) (i : ℕ)
    → get_elem? (bits buf) i ≡ (do byte ← get_elem? buf (i / 8); get_elem? (byte_bits byte) (i % 8))
bits_split [] i = refl
bits_split (b ∷ bs) zero = refl
bits_split (b ∷ bs) (suc zero) = refl
bits_split (b ∷ bs) (suc (suc zero)) = refl
bits_split (b ∷ bs) (suc (suc (suc zero))) = refl
bits_split (b ∷ bs) (suc (suc (suc (suc zero)))) = refl
bits_split (b ∷ bs) (suc (suc (suc (suc (suc zero))))) = refl
bits_split (b ∷ bs) (suc (suc (suc (suc (suc (suc zero)))))) = refl
bits_split (b ∷ bs) (suc (suc (suc (suc (suc (suc (suc zero))))))) = refl
bits_split (b ∷ bs) (suc (suc (suc (suc (suc (suc (suc (suc j)))))))) =
    rw (high, low) (bits_split bs j)
  where
    i : ℕ
    i = suc (suc (suc (suc (suc (suc (suc (suc j)))))))

    high : i / 8 ≡ suc (j / 8)
    high = omega arith

    low : i % 8 ≡ j % 8
    low = omega arith

at_head :
    (b byte new k : ℕ) (v : Bool) (rest : List Bool)
    → some b ≡ some byte
    → byte_bits new ≡ set_elem (byte_bits byte) k v
    → byte_bits new ++ rest ≡ set_elem (byte_bits b) k v ++ rest
at_head b byte new k v rest h e =
    let eq : byte ≡ b = cc in
    subst (λ x. byte_bits new ++ rest ≡ set_elem (byte_bits x) k v ++ rest) eq
      (ap (λ (l : List Bool). l ++ rest) e)

-- Writing one byte, so that one of its bits changes, writes that bit.
pub bits-set :
    (buf : List ℕ) (i byte new : ℕ) (v : Bool)
    → get_elem? buf (i / 8) ≡ some byte
    → byte_bits new ≡ set_elem (byte_bits byte) (i % 8) v
    → bits (set_elem buf (i / 8) new) ≡ set_elem (bits buf) i v
bits-set [] i byte new v h e = cc
bits-set (b ∷ bs) zero byte new v h e = at_head b byte new 0 v (bits bs) h e
bits-set (b ∷ bs) (suc zero) byte new v h e = at_head b byte new 1 v (bits bs) h e
bits-set (b ∷ bs) (suc (suc zero)) byte new v h e = at_head b byte new 2 v (bits bs) h e
bits-set (b ∷ bs) (suc (suc (suc zero))) byte new v h e = at_head b byte new 3 v (bits bs) h e
bits-set (b ∷ bs) (suc (suc (suc (suc zero)))) byte new v h e = at_head b byte new 4 v (bits bs) h e
bits-set (b ∷ bs) (suc (suc (suc (suc (suc zero))))) byte new v h e =
    at_head b byte new 5 v (bits bs) h e
bits-set (b ∷ bs) (suc (suc (suc (suc (suc (suc zero)))))) byte new v h e =
    at_head b byte new 6 v (bits bs) h e
bits-set (b ∷ bs) (suc (suc (suc (suc (suc (suc (suc zero))))))) byte new v h e =
    at_head b byte new 7 v (bits bs) h e
bits-set (b ∷ bs) (suc (suc (suc (suc (suc (suc (suc (suc j)))))))) byte new v h e = rw high (
    ap (λ (l : List Bool). byte_bits b ++ l)
      (bits-set bs j byte new v (rw high at h) (rw low at e)))
  where
    i : ℕ
    i = suc (suc (suc (suc (suc (suc (suc (suc j)))))))

    high : i / 8 ≡ suc (j / 8)
    high = omega arith

    low : i % 8 ≡ j % 8
    low = omega arith
