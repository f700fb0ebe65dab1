-- ===== src/Csync/Congestion/Burst.antt =====
-- v1/csync/src/server/congestion.rs: packets that come at once, after a longer gap.
use das_protokoll.Base.{
  ℕ, zero, suc, ◌+◌, ◌-◌, ◌*◌, ◌/◌, ◌%◌, ◌≤◌, ◌<◌, ◌≡◌, ◌≢◌, refl, ◌∙◌, ap, Bool, Option, none,
  some, List, [], ◌∷◌, ◌++◌, ◌>>=◌, arith, length, length-replicate, replicate, inl, inr,
  order_cases,
}
use native.Mathlib.Nat.{div-add-mod', div-one, mod-lt, zero-div, mul-le-mul_right}
use das_protokoll.Csync.Congestion.{CongestionInfo, new, ipt_packet}
use das_protokoll.Csync.Congestion.Average.{first_packet, filling_packet, full_packet}

div_mono : (a b d : ℕ) → a ≤ b → a / suc d ≤ b / suc d
div_mono a b d h =
    let low : b / suc d * suc d + b % suc d ≡ b = div-add-mod' b (suc d) in
    let rest : b % suc d < suc d = mod-lt b (omega arith) in
    let whole : a / suc d * suc d + a % suc d ≡ a = div-add-mod' a (suc d) in
    elim (order_cases (a / suc d) (b / suc d)) [
      | inl lt ↦ omega arith
      | inr (inl eq) ↦ omega arith
      | inr (inr gt) ↦
          let le : b / suc d + 1 ≤ a / suc d = omega arith in
          absurd (omega (arith, h, low, rest, whole, mul-le-mul_right (suc d) le))
    ]

replicate_snoc : (x k : ℕ) → replicate k x ++ x ∷ [] ≡ replicate (suc k) x
replicate_snoc x zero = refl
replicate_snoc x (suc k) = ap (◌∷◌ x) (replicate_snoc x k)

-- The average after as many further gaps of no length as the first argument says: it was the third while
-- the window held one gap and as many of no length as the second says.
unfoldable fall : ℕ → ℕ → ℕ → ℕ
fall zero k b = b
fall (suc m) k b = fall m (suc k) (b * suc k / suc (suc k))

-- One step of the average.
scaled_le : (a k : ℕ) → a * suc k / suc (suc k) * suc (suc k) ≤ a * suc k
scaled_le a k = omega (arith, div-add-mod' (a * suc k) (suc (suc k)))

-- Nine steps from ten times `n` keep the average, times the length of the window, only if each division
-- is exact.
all_exact :
    (n a b c d e f g h i : ℕ)
    → a * 2 ≤ 10 * n
    → b * 3 ≤ a * 2
    → c * 4 ≤ b * 3
    → d * 5 ≤ c * 4
    → e * 6 ≤ d * 5
    → f * 7 ≤ e * 6
    → g * 8 ≤ f * 7
    → h * 9 ≤ g * 8
    → i * 10 ≤ h * 9
    → n ≤ i
    → n % 252 ≡ 0
all_exact n a b c d e f g h i ha hb hc hd he hf hg hh hi le =
    let sevens : f * 7 ≡ 10 * n = omega arith in
    let eights : g * 8 ≡ 10 * n = omega arith in
    let nines : h * 9 ≡ 10 * n = omega arith in
    let by_63 : n % 63 ≡ 0 = omega (arith, sevens, nines) in
    let by_4 : n % 4 ≡ 0 = omega (arith, eights) in omega (arith, by_63, by_4)

fall_loses : (n : ℕ) → n % 252 ≢ 0 → fall 9 0 (10 * n) < n
unfolding fall
fall_loses n inexact =
    let first : 10 * n * 1 / 2 * 2 ≤ 10 * n = omega (arith, scaled_le (10 * n) 0) in
    let exact =
      all_exact n _ _ _ _ _ _ _ _ _ first (scaled_le _ 1) (scaled_le _ 2) (scaled_le _ 3)
        (scaled_le _ 4) (scaled_le _ 5) (scaled_le _ 6) (scaled_le _ 7) (scaled_le _ 8) in
    elim (order_cases (fall 9 0 (10 * n)) n) [
      | inl lt ↦ lt
      | inr (inl eq) ↦ absurd (inexact (exact (omega (arith, eq))))
      | inr (inr gt) ↦ absurd (inexact (exact (omega (arith, gt))))
    ]

module _ (packets_for : ℕ → ℕ) where
  -- Packets that come at the given times.
  unfoldable pub packets : List ℕ → CongestionInfo → Option CongestionInfo
  packets [] c = some c
  packets (now ∷ times) c = do (c', notify) ← ipt_packet packets_for now c; packets times c'

  module _ (now g : ℕ) where
    -- The window holds one gap and `k` of no length; the average is at most `b`.
    abbrev Falling : ℕ → ℕ → CongestionInfo → Type 0
    Falling k b c = (c.last_ipt ≡ some now) × (c.ipts ≡ g ∷ replicate k 0) × (c.ipt ≤ b)

    quiet_step :
        (k b : ℕ) (c : CongestionInfo)
        → Falling k b c
        → k < 9
        → (c' : CongestionInfo) × (notify : Bool) × (ipt_packet packets_for now c
            ≡ some (c', notify))
          × Falling (suc k) (b * suc k / suc (suc k)) c'
    quiet_step k b c (last, window, le) small =
        let len : length c.ipts ≡ suc k =
          ap length window ∙ ap suc (length-replicate {A = ℕ} k 0) in
        let (c', notify, e, last', window', ipt) =
          filling_packet packets_for now now c last (omega arith) (omega arith) in
        let none_gap : now - now ≡ 0 = omega arith in
        let one : suc k + 1 ≡ suc (suc k) = omega arith in
        let average : c'.ipt ≡ c.ipt * suc k / suc (suc k) + 0 / suc (suc k) =
          ipt
          ∙ ap (λ n. c.ipt * n / (n + 1) + (now - now) / (n + 1)) len
          ∙ ap (λ n. c.ipt * suc k / n + (now - now) / n) one
          ∙ ap (λ n. c.ipt * suc k / suc (suc k) + n / suc (suc k)) none_gap in
        let none_more : 0 / suc (suc k) ≡ 0 = zero-div (suc (suc k)) in
        let less : c.ipt * suc k / suc (suc k) ≤ b * suc k / suc (suc k) =
          div_mono (c.ipt * suc k) (b * suc k) (suc k) (mul-le-mul_right (suc k) le) in
        let fallen : c'.ipt ≤ b * suc k / suc (suc k) = omega (arith, average, none_more, less) in
        (
          c',
          notify,
          e,
          (
            last',
            window'
                ∙ ap (λ n. c.ipts ++ n ∷ []) none_gap
                ∙ ap (λ l. l ++ (0 ∷ [])) window
                ∙ ap (◌∷◌ g) (replicate_snoc 0 k),
            fallen,
          ),
        )

    quiet_packets :
        (m k b : ℕ) (c : CongestionInfo)
        → Falling k b c
        → k + m ≡ 9
        → fall m k b < g / 10
        → packets (replicate m now ++ now ∷ []) c ≡ none
    unfolding packets fall
    quiet_packets zero k b c (last, window, le) nine low =
        elim (full_packet packets_for now now g (replicate k 0) c last (omega arith) window
          (length-replicate {A = ℕ} k 0 ∙ omega arith)) [
            | inl (below, panics) ↦ rw panics refl
            | inr (c', notify, e, fits, w', a') ↦ absurd (omega (arith, fits, le, low))
          ]
    quiet_packets (suc m) k b c h nine low =
        let (c', notify, e, h') = quiet_step k b c h (omega arith) in
        rw e (quiet_packets m (suc k) (b * suc k / suc (suc k)) c' h' (omega arith) low)

  -- The `CongestionInfo` of a new upload panics when a second packet comes `10 * n` nanoseconds after the
  -- first, whenever that came, for an `n` that is no multiple of 252, and ten more come at the time of the
  -- second.
  pub burst_panics :
      (start t n : ℕ)
      → n % 252 ≢ 0
      → packets (t ∷ (t + 10 * n) ∷ replicate 9 (t + 10 * n) ++ (t + 10 * n) ∷ []) (new start)
        ≡ none
  unfolding packets new
  burst_panics start t n inexact =
      let g = 10 * n in
      let c1 : CongestionInfo = record (new start) { last_ipt = some t } in
      let gap : t + g - t ≡ g = omega arith in
      let (c2, b, e2, last, window, ipt) =
        filling_packet packets_for (t + g) t c1 refl (omega arith) (omega arith) in
      let average : c2.ipt ≡ 0 + g / 1 = ipt ∙ ap (λ n. 0 + n / 1) gap in
      let top : c2.ipt ≤ g = omega (arith, average, div-one g) in
      let tenth : fall 9 0 g < g / 10 = omega (arith, fall_loses n inexact) in
      rw (first_packet packets_for t (new start) refl) (
        rw e2
          (quiet_packets (t + g) g 9 0 g c2 (last, window ∙ ap (λ n. n ∷ []) gap, top) refl tenth))
