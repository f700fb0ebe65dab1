-- ===== src/BitMap/Counts.antt =====
-- `all`, `any`, `ones` and `zeroes` of lib.rs, which read the cached count alone.
use das_protokoll.Base.{
  ℕ, suc, ◌+◌, ◌≡◌, refl, ◌∙◌, Bool, true, false, List, [], ◌∷◌, ◌↔◌, arith, length, All, ==_iff,
}
use das_protokoll.Base.Word.{sub64-eq}
use das_protokoll.BitMap.{BitMap, count_zeroes, all, any, ones}
use das_protokoll.BitMap.View.{view, IsValid, length-view}

-- How many bits are 1.
pub count_ones : List Bool → ℕ
count_ones [] = 0
count_ones (true ∷ bs) = suc (count_ones bs)
count_ones (false ∷ bs) = count_ones bs

count_total : (bs : List Bool) → count_zeroes bs + count_ones bs ≡ length bs
unfolding count_zeroes count_ones
count_total [] = omega arith
count_total (true ∷ bs) = omega (arith, count_total bs)
count_total (false ∷ bs) = omega (arith, count_total bs)

no_zeroes : (bs : List Bool) → count_zeroes bs ≡ 0 → All (λ b. b ≡ true) bs
unfolding count_zeroes
no_zeroes [] h = tt
no_zeroes (true ∷ bs) h = (refl, no_zeroes bs (omega arith))
no_zeroes (false ∷ bs) h = absurd (omega arith)

true_uncounted : (bs : List Bool) → All (λ b. b ≡ true) bs → count_zeroes bs ≡ 0
unfolding count_zeroes
true_uncounted [] h = refl
true_uncounted (b ∷ bs) h = ground (arith, h.0, true_uncounted bs h.1)

no_ones : (bs : List Bool) → count_ones bs ≡ 0 → All (λ b. b ≡ false) bs
unfolding count_ones
no_ones [] h = tt
no_ones (false ∷ bs) h = (refl, no_ones bs h)
no_ones (true ∷ bs) h = absurd (omega arith)

false_uncounted : (bs : List Bool) → All (λ b. b ≡ false) bs → count_ones bs ≡ 0
unfolding count_ones
false_uncounted [] h = refl
false_uncounted (false ∷ bs) h = false_uncounted bs h.1
false_uncounted (true ∷ bs) h = cc (h.0)

-- Of a well-formed map, `all` says that every bit is 1, `any` fails exactly when every bit is 0, and
-- `ones` counts the bits that are 1.
pub counts_lem :
    (m : BitMap)
    → IsValid m
    → ((all m ≡ true) ↔ All (λ b. b ≡ true) (view m))
      × ((any m ≡ false) ↔ All (λ b. b ≡ false) (view m))
      × (ones m ≡ count_ones (view m))
unfolding all any ones
counts_lem m v =
    let total = count_total (view m) in
    let size = length-view m v.fits in
    (
      (
        λ h. no_zeroes (view m) (omega (arith, v.counted, (==_iff m.zeroes 0).0 h)),
        λ h. (==_iff m.zeroes 0).1 (v.counted ∙ true_uncounted (view m) h),
      ),
      (
        λ h. no_ones (view m) (ground (arith, v.counted)),
        λ h. ground (arith, v.counted, false_uncounted (view m) h),
      ),
      sub64-eq m.num_bits m.zeroes (omega (arith, v.counted)) v.small ∙ omega (arith, v.counted),
    )
