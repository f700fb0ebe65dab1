-- ===== src/Crates/Instances.antt =====
-- Concrete versions of the crates, which show that their laws can hold and let the code run.
use das_protokoll.Base.{
  Bool, true, false, bool_eq, ◌≢◌, ◌∙◌, Option, none, some, ℕ, zero, suc, ◌+◌, ◌-◌, ◌*◌, ◌/◌, ◌%◌,
  ◌^◌, ◌≤◌, ◌<◌, ◌≡◌, refl, ap, List, [], ◌∷◌, ◌++◌, length, All, ltb, if◌then◌else◌, arith,
  Bool-cases, inl, inr,
}
use native.Mathlib.Nat.{pow-suc}
use das_protokoll.Base.Word.{IsByte}
use das_protokoll.Crates.{
  Read, got, unexpected_eof, read_error, Varmint, Itertools, Byteorder, le_value, Cbor,
}

-- Seven bits a byte, lowest first, with the top bit on all bytes but the last.
unfoldable pub leb_write : ℕ → ℕ → List ℕ
leb_write zero v = v ∷ []
leb_write (suc k) v =
    let rest = leb_write k (v / 128) in if ltb v 128 then v ∷ [] else (v % 128 + 128) ∷ rest

higher : ℕ → Read → Read
higher b (got v rest) =
    if ltb (b - 128 + 128 * v) (2 ^ 64) then got (b - 128 + 128 * v) rest else read_error
higher b unexpected_eof = unexpected_eof
higher b read_error = read_error

unfoldable pub leb_read : List ℕ → Read
unfolding higher
leb_read [] = unexpected_eof
leb_read (b ∷ bs) = if ltb b 128 then got b bs else higher b (leb_read bs)

pub leb_read-write :
    (k v : ℕ) (rest : List ℕ)
    → v < 128 ^ suc k
    → v < 2 ^ 64
    → leb_read (leb_write k v ++ rest) ≡ got v rest
unfolding leb_read leb_write
leb_read-write zero v rest h s = ground arith
leb_read-write (suc k) v rest h s = elim (Bool-cases (ltb v 128)) [
  | inl low ↦ ground (arith, low)
  | inr high ↦ ground (arith, high, leb_read-write k (v / 128) rest (omega arith))
]

higher_got :
    (b : ℕ) (r : Read) (v : ℕ) (rest : List ℕ)
    → higher b r ≡ got v rest
    → (w : ℕ) × (r ≡ got w rest)
unfolding higher
higher_got b (got w more) v rest h = (w, ground arith)
higher_got b unexpected_eof v rest h = cc
higher_got b read_error v rest h = cc

pub leb_read_shorter :
    (src : List ℕ) (v : ℕ) (rest : List ℕ) → leb_read src ≡ got v rest → length rest < length src
unfolding leb_read
leb_read_shorter [] v rest h = cc
leb_read_shorter (b ∷ bs) v rest h = elim (Bool-cases (ltb b 128)) [
  | inl low ↦ ground (arith, low)
  | inr high ↦
      let (w, e) = higher_got b (leb_read bs) v rest (rw high at h) in
      omega (arith, leb_read_shorter bs w rest e)
]

pub length-leb_write : (k v : ℕ) → length (leb_write k v) ≤ suc k
unfolding leb_write
length-leb_write zero v = omega arith
length-leb_write (suc k) v = ground (arith, length-leb_write k (v / 128))

pub leb_read-nil : leb_read [] ≡ unexpected_eof
unfolding leb_read
leb_read-nil = refl

abbrev pub varmint : Varmint
varmint = record {
  write_u64_varint = leb_write 9;
  read_u64_varint = leb_read;
  len_u64_varint = λ v. length (leb_write 9 v);
  read-write = λ v rest h. leb_read-write 9 v rest (omega arith) h;
  read-nil = leb_read-nil;
  read_shorter = leb_read_shorter;
  len-write = λ v h. refl;
  len-le = λ v h. length-leb_write 9 v;
}

unfoldable pub pairs : List ℕ → List (ℕ × ℕ)
pairs [] = []
pairs (x ∷ []) = []
pairs (x ∷ y ∷ xs) = (x, y) ∷ pairs xs

pub pairs_nil : pairs [] ≡ []
unfolding pairs
pairs_nil = refl

pub pairs_odd : (x : ℕ) → pairs (x ∷ []) ≡ []
unfolding pairs
pairs_odd x = refl

pub pairs_pair : (x y : ℕ) (xs : List ℕ) → pairs (x ∷ y ∷ xs) ≡ (x, y) ∷ pairs xs
unfolding pairs
pairs_pair x y xs = refl

unfoldable pub joined : Bool → List (Bool × ℕ) → List (Bool × ℕ)
joined b [] = (b, 1) ∷ []
joined b ((c, n) ∷ gs) = if bool_eq b c then (b, n + 1) ∷ gs else (b, 1) ∷ (c, n) ∷ gs

unfoldable pub grouped : List Bool → List (Bool × ℕ)
grouped [] = []
grouped (b ∷ bs) = joined b (grouped bs)

pub grouped_nil : grouped [] ≡ []
unfolding grouped
grouped_nil = refl

pub grouped_one : (b : Bool) → grouped (b ∷ []) ≡ (b, 1) ∷ []
unfolding grouped joined
grouped_one b = refl

joined_own : (b : Bool) (n : ℕ) (gs : List (Bool × ℕ)) → joined b ((b, n) ∷ gs) ≡ (b, n + 1) ∷ gs
unfolding joined
joined_own true n gs = refl
joined_own false n gs = refl

pub grouped_same :
    (b : Bool) (bs : List Bool) (n : ℕ) (gs : List (Bool × ℕ))
    → grouped (b ∷ bs) ≡ (b, n) ∷ gs
    → grouped (b ∷ b ∷ bs) ≡ (b, n + 1) ∷ gs
grouped_same b bs n gs e =
    let twice : grouped (b ∷ b ∷ bs) ≡ joined b (grouped (b ∷ bs)) = unfold grouped in refl in
    twice ∙ ap (joined b) e ∙ joined_own b n gs

joined_other :
    (b c : Bool) (gs : List (Bool × ℕ)) → b ≢ c → joined b (joined c gs) ≡ (b, 1) ∷ joined c gs
unfolding joined
joined_other true true gs ne = absurd (ne refl)
joined_other false false gs ne = absurd (ne refl)
joined_other true false [] ne = refl
joined_other false true [] ne = refl
joined_other true false ((true, n) ∷ gs) ne = refl
joined_other true false ((false, n) ∷ gs) ne = refl
joined_other false true ((true, n) ∷ gs) ne = refl
joined_other false true ((false, n) ∷ gs) ne = refl

pub grouped_other :
    (b c : Bool) (bs : List Bool) → b ≢ c → grouped (b ∷ c ∷ bs) ≡ (b, 1) ∷ grouped (c ∷ bs)
unfolding grouped
grouped_other b c bs ne = joined_other b c (grouped bs) ne

abbrev pub itertools : Itertools
itertools = record {
  tuples = pairs;
  tuples-nil = pairs_nil;
  tuples_odd = pairs_odd;
  tuples_pair = pairs_pair;
  group_by = grouped;
  group_by-nil = grouped_nil;
  group_by_one = grouped_one;
  group_by_same = grouped_same;
  group_by_other = grouped_other;
}

unfoldable pub le_bytes : ℕ → ℕ → List ℕ
le_bytes zero v = []
le_bytes (suc k) v = (v % 256) ∷ le_bytes k (v / 256)

pub length-le_bytes : (k v : ℕ) → length (le_bytes k v) ≡ k
unfolding le_bytes
length-le_bytes zero v = refl
length-le_bytes (suc k) v = ap suc (length-le_bytes k (v / 256))

pub le_bytes-IsByte : (k v : ℕ) → All IsByte (le_bytes k v)
unfolding le_bytes
le_bytes-IsByte zero v = tt
le_bytes-IsByte (suc k) v = (omega arith, le_bytes-IsByte k (v / 256))

pub le_bytes-value : (k v : ℕ) → v < 256 ^ k → le_value (le_bytes k v) ≡ v
unfolding le_bytes
le_bytes-value zero v h = omega arith
le_bytes-value (suc k) v h =
    let p = pow-suc 256 k in omega (arith, p, le_bytes-value k (v / 256) (omega (arith, p)))

abbrev pub byteorder : Byteorder
byteorder = record {
  write_u64 = le_bytes 8;
  read_u64 = le_value;
  length-write_u64 = length-le_bytes 8;
  write_u64-IsByte = le_bytes-IsByte 8;
  write_u64-value = λ v h. le_bytes-value 8 v (omega arith);
  read_u64-value = λ bs e h. refl;
}

unfoldable pub first_of : List ℕ → Option ℕ
first_of [] = none
first_of (x ∷ xs) = some x

pub first_of-cons : (x : ℕ) → first_of (x ∷ []) ≡ some x
unfolding first_of
first_of-cons x = refl

abbrev pub cbor : Cbor ℕ
cbor = record {
  to_writer = λ x. x ∷ [];
  from_reader = first_of;
  from_reader-to_writer = first_of-cons;
}
