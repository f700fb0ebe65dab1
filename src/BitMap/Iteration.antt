-- ===== src/BitMap/Iteration.antt =====
-- `iter`, `next` and `next_back` of lib.rs, and the constructors, which count through them.
use das_protokoll.Base.{
  ℕ, zero, suc, ◌+◌, ◌-◌, ◌*◌, ◌^◌, ◌≤◌, ◌<◌, ◌≡◌, refl, sym, ap, ◌∙◌, Bool, Option, none, some,
  List, [], ◌∷◌, length, get_elem?, take, drop, All, arith, get_elem?_below, take_all, take-suc,
  get_elem?-drop, Bool-cases, ◌⊎◌, inl, inr, drop_step, leb, leb→le,
}
use mathlib.Core.Path.{ap₂}
use mathlib.Core.List.{reverse, reverse-append}
use native.Mathlib.Numerals.{add-one}
use das_protokoll.Base.Word.{IsByte, sub64, add64-eq, sub64-eq}
use das_protokoll.BitMap.{
  BitMap, count_zeroes, get, Iter, iter, iter_range, next, next_back, collect, iter_bits,
  with_length, new, range,
}
use das_protokoll.BitMap.View.{bits, view, IsValid, length-view, length-bits}
use das_protokoll.BitMap.Access.{get-view}

-- What `get` needs to read a map: nothing of its count.
pub record Readable (m : BitMap) : Type 0 where
  pub reads : (i : ℕ) → i < m.num_bits → get m i ≡ get_elem? (view m) i
  pub sized : length (view m) ≡ m.num_bits
  pub within : m.num_bits < 2 ^ 64

pub IsValid-Readable : (m : BitMap) → IsValid m → Readable m
IsValid-Readable m v = record {
  reads = λ i. get-view m i v;
  sized = length-view m v.fits;
  within = v.small;
}

collect_end :
    (step : Iter → Option (Option Bool × Iter)) (fuel : ℕ) (it it' : Iter)
    → step it ≡ some (none, it')
    → collect step (suc fuel) it ≡ some []
unfolding collect
collect_end step fuel it it' e = ground (arith, e)

collect_step :
    (step : Iter → Option (Option Bool × Iter)) (fuel : ℕ) (it it' : Iter) (b : Bool)
    (bs : List Bool)
    → step it ≡ some (some b, it')
    → collect step fuel it' ≡ some bs
    → collect step (suc fuel) it ≡ some (b ∷ bs)
unfolding collect
collect_step step fuel it it' b bs e h = ground (arith, e, h)

next_end : (it : Iter) → it.front ≡ it.back → next it ≡ some (none, it)
unfolding next
next_end it e = ground arith

next_bit :
    (it : Iter) (b : Bool)
    → it.front < it.back
    → it.back < 2 ^ 64
    → get it.bitmap it.front ≡ some b
    → next it ≡ some (some b, record it { front = it.front + 1 })
unfolding next
next_bit it b h hs e = ground (arith, e, add64-eq it.front 1)

next_back_end : (it : Iter) → it.front ≡ it.back → next_back it ≡ some (none, it)
unfolding next_back
next_back_end it e = ground arith

next_back_bit :
    (it : Iter) (b : Bool)
    → it.front < it.back
    → it.back < 2 ^ 64
    → get it.bitmap (it.back - 1) ≡ some b
    → next_back it ≡ some (some b, record it { back = it.back - 1 })
unfolding next_back
next_back_bit it b h hs e =
    let eq : sub64 it.back 1 ≡ it.back - 1 = sub64-eq it.back 1 (omega arith) hs in
    ground (arith, e, eq)

-- From position `i` to position `j` the loop yields the bits between them.
collect-next :
    (m : BitMap) (n i j : ℕ)
    → Readable m
    → i + n ≡ j
    → j ≤ m.num_bits
    → collect next (suc n) (record { bitmap = m; front = i; back = j })
      ≡ some (take n (drop i (view m)))
collect-next m zero i j r e h = collect_end next zero _ _ (next_end _ (omega arith))
collect-next m (suc n) i j r e h =
    let (b, eb) = get_elem?_below (view m) i (omega (arith, r.sized)) in
    rw (drop_step (view m) i b eb) (
      collect_step next (suc n) _ _ b _
        (next_bit (record { bitmap = m; front = i; back = j }) b (omega arith)
          (omega (arith, r.within)) (r.reads i (omega arith) ∙ eb))
        (rw add-one (collect-next m n (suc i) j r (omega arith) h)))

-- From the back, in reverse order.
collect-next_back :
    (m : BitMap) (n i j : ℕ)
    → Readable m
    → i + n ≡ j
    → j ≤ m.num_bits
    → collect next_back (suc n) (record { bitmap = m; front = i; back = j })
      ≡ some (reverse (take n (drop i (view m))))
collect-next_back m zero i j r e h = collect_end next_back zero _ _ (next_back_end _ (omega arith))
collect-next_back m (suc n) i j r e h =
    let (b, eb) = get_elem?_below (view m) (i + n) (omega (arith, r.sized)) in
    let last : j - 1 ≡ i + n = omega arith in
    rw (take-suc n (drop i (view m)) b (get_elem?-drop (view m) i n ∙ eb), reverse-append)
      (collect_step next_back (suc n) _ _ b _
        (next_back_bit (record { bitmap = m; front = i; back = j }) b (omega arith)
          (omega (arith, r.within)) (ap (get m) last ∙ r.reads (i + n) (omega arith) ∙ eb))
        (collect-next_back m n i (j - 1) r (omega arith) (omega arith)))

-- A well-formed map iterates, forwards and backwards, over exactly the bits of the given range.
pub iter_range-view :
    (m : BitMap) (i j : ℕ)
    → IsValid m
    → i ≤ j
    → j ≤ m.num_bits
    → (collect next (suc (j - i)) (iter_range m (range i j))
        ≡ some (take (j - i) (drop i (view m))))
      × (collect next_back (suc (j - i)) (iter_range m (range i j))
          ≡ some (reverse (take (j - i) (drop i (view m)))))
unfolding iter_range
iter_range-view m i j v le h =
    let r = IsValid-Readable m v in
    (
      collect-next m (j - i) i j r (omega arith) h,
      collect-next_back m (j - i) i j r (omega arith) h,
    )

Readable-iter_bits : (m : BitMap) → Readable m → iter_bits m ≡ some (view m)
unfolding iter_bits iter iter_range
Readable-iter_bits m r =
    collect-next m m.num_bits 0 m.num_bits r (omega arith) (omega arith)
    ∙ ap some (ap (λ (n : ℕ). take n (view m)) (sym r.sized) ∙ take_all (view m))

pub iter_bits-view : (m : BitMap) → IsValid m → iter_bits m ≡ some (view m)
iter_bits-view m v = Readable-iter_bits m (IsValid-Readable m v)

-- `get` does not read the count.
fresh_Readable : (m : BitMap) → IsValid m → Readable (record m { zeroes = 0 })
unfolding get
fresh_Readable m v = record {
  reads = λ i. get-view m i v;
  sized = length-view m v.fits;
  within = v.small;
}

-- `with_length` builds a well-formed map over any buffer that is large enough, and panics otherwise.
pub with_length-view :
    (buf : List ℕ) (n : ℕ)
    → All IsByte buf
    → n < 2 ^ 64
    → ((length buf * 8 < n) × (with_length buf n ≡ none))
      ⊎ ((m : BitMap) × (with_length buf n ≡ some m) × IsValid m × (m.buf ≡ buf) × (m.num_bits ≡ n))
unfolding with_length
with_length-view buf n hb hn = elim (Bool-cases (leb n (length buf * 8))) [
  | inl fits ↦
      let m : BitMap = record {
        buf = buf;
        num_bits = n;
        zeroes = count_zeroes (take n (bits buf));
      } in
      let v : IsValid m = record {
        bytes = hb;
        fits = leb→le _ _ fits;
        small = hn;
        counted = refl;
      } in
      let fresh : BitMap = record { buf = buf; num_bits = n; zeroes = 0 } in
      let read = Readable-iter_bits fresh (fresh_Readable m v) in
      inr (m, ground (arith, fits, read), v, refl, refl)
  | inr small ↦ inl (ground arith, ground arith)
]

-- `new` takes every bit of the buffer.
pub new-view :
    (buf : List ℕ)
    → All IsByte buf
    → length buf * 8 < 2 ^ 64
    → (m : BitMap) × (new buf ≡ some m) × IsValid m × (view m ≡ bits buf)
unfolding new
new-view buf hb hn = elim (with_length-view buf (length buf * 8) hb hn) [
  | inl (small, _) ↦ absurd (omega arith)
  | inr (m, e, v, eb, en) ↦
      (m, e, v, ap₂ take (en ∙ sym (length-bits buf)) (ap bits eb) ∙ take_all (bits buf))
]
