-- ===== src/Csync/Client/Pumping.antt =====
-- v1/csync/src/client.rs: what the client sends between two updates.
use das_protokoll.Base.{
  ℕ, zero, suc, ◌+◌, ◌-◌, ◌^◌, ◌≤◌, ◌<◌, ◌≡◌, refl, sym, ap, ◌∙◌, true, false, none, some, List, [],
  ◌∷◌, if◌then◌else◌, arith, inl, inr,
}
use das_protokoll.Csync.Status.{MissingRange, MissingRanges, next_chunk}
use das_protokoll.Csync.Status.Gaps.{covers, Ordered, EndsBy}
use das_protokoll.Csync.Status.Pump.{Clear, next_chunk-NextOf, covers_within}
use das_protokoll.Csync.Client.{pump}

-- The positions that the ranges hold, of the `m` ones from `k` on, in order.
unfoldable pub indices : List MissingRange → ℕ → ℕ → List ℕ
indices rs k zero = []
indices rs k (suc m) = let rest = indices rs (k + 1) m in if covers rs k then k ∷ rest else rest

indices_skip :
    (rs : List MissingRange) (d k c m : ℕ)
    → k + d ≡ c
    → Clear rs k c
    → indices rs k (d + m) ≡ indices rs c m
unfolding indices
indices_skip rs zero k c m e h =
    let same : k ≡ c = omega arith in rw same (ap (indices rs c) (omega arith))
indices_skip rs (suc d) k c m e h =
    let next : suc d + m ≡ suc (d + m) = omega arith in
    rw (next, h k (omega arith) (omega arith))
      (indices_skip rs d (k + 1) c m (omega arith) (λ j a b. h j (omega arith) b))

indices_hit :
    (rs : List MissingRange) (k m : ℕ)
    → covers rs k ≡ true
    → indices rs k (suc m) ≡ k ∷ indices rs (k + 1) m
unfolding indices
indices_hit rs k m h = rw h refl

pump_end :
    (fuel : ℕ) (self : MissingRanges)
    → next_chunk self ≡ (self, none)
    → pump (suc fuel) self ≡ some []
unfolding pump
pump_end fuel self e = ground (arith, e)

pump_step :
    (fuel : ℕ) (self self' : MissingRanges) (c : ℕ) (rest : List ℕ)
    → next_chunk self ≡ (self', some c)
    → pump fuel self' ≡ some rest
    → pump (suc fuel) self ≡ some (c ∷ rest)
unfolding pump
pump_step fuel self self' c rest e r = ground (arith, e, r)

module _ (self : MissingRanges) (m n : ℕ) (total : self.cursor + m ≡ n) where
  ended :
      (fuel : ℕ)
      → next_chunk self ≡ (self, none)
      → ((k : ℕ) → self.cursor ≤ k → covers self.missing k ≡ false)
      → pump (suc fuel) self ≡ some (indices self.missing self.cursor m)
  ended fuel done clear =
      pump_end fuel self done
      ∙ ap some (
          sym (
            ap (indices self.missing self.cursor) (omega arith)
            ∙ indices_skip self.missing m self.cursor n 0 total (λ j a b. clear j a)
            ∙ unfold indices in refl))

  stepped :
      (fuel c : ℕ)
      → next_chunk self ≡ (record self { cursor = c + 1 }, some c)
      → self.cursor ≤ c
      → c < n
      → covers self.missing c ≡ true
      → Clear self.missing self.cursor c
      → pump fuel (record self { cursor = c + 1 }) ≡ some (indices self.missing (c + 1) (n - c - 1))
      → pump (suc fuel) self ≡ some (indices self.missing self.cursor m)
  stepped fuel c next le below hit clear rest =
      let sum : c - self.cursor + suc (n - c - 1) ≡ m = omega arith in
      pump_step fuel self _ c _ next rest
      ∙ ap some (
          sym (indices_hit self.missing c (n - c - 1) hit)
          ∙ sym (indices_skip self.missing (c - self.cursor) self.cursor c _ (omega arith) clear)
          ∙ ap (indices self.missing self.cursor) sum)

pump_from :
    (fuel m n : ℕ) (self : MissingRanges)
    → Ordered 0 self.missing
    → EndsBy n self.missing
    → n < 2 ^ 64
    → self.cursor + m ≡ n
    → m ≤ fuel
    → pump (suc fuel) self ≡ some (indices self.missing self.cursor m)
pump_from zero m n self o b hn e f = elim (next_chunk-NextOf self n o b hn) [
  | inl (done, clear) ↦ ended self m n e zero done clear
  | inr (c, next, le, hit, clear) ↦ absurd (omega (arith, covers_within n c self.missing b hit))
]
pump_from (suc fuel) m n self o b hn e f = elim (next_chunk-NextOf self n o b hn) [
  | inl (done, clear) ↦ ended self m n e (suc fuel) done clear
  | inr (c, next, le, hit, clear) ↦
      let below = covers_within n c self.missing b hit in
      stepped self m n e (suc fuel) c next le below hit clear (
        pump_from fuel (n - c - 1) n (record self { cursor = c + 1 }) o b hn (omega arith)
          (omega arith))
]

-- From any position in ordered ranges of the first `n` chunks, where no update comes, the calls of
-- `next_chunk` give each missing chunk that is at the position or after it exactly once, in ascending
-- order, and no other, and then none; `n + 1` calls are enough.
pub pump-indices :
    (self : MissingRanges) (n : ℕ)
    → Ordered 0 self.missing
    → EndsBy n self.missing
    → n < 2 ^ 64
    → self.cursor ≤ n
    → pump (suc n) self ≡ some (indices self.missing self.cursor (n - self.cursor))
pump-indices self n o b hn le =
    pump_from n (n - self.cursor) n self o b hn (omega arith) (omega arith)
