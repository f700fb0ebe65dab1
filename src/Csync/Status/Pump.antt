-- ===== src/Csync/Status/Pump.antt =====
-- v1/csync/src/codec.rs: `next_chunk` and `advance_cursor`, the next missing chunk from a position on.
use das_protokoll.Base.{
  ℕ, ◌+◌, ◌^◌, ◌≤◌, ◌<◌, ◌≡◌, refl, true, false, Option, none, some, List, [], ◌∷◌, ltb, ◌⊎◌, inl,
  inr, arith, Bool-cases, Option-cases, max,
}
use das_protokoll.Base.Word.{add64, add64-eq}
use das_protokoll.Csync.Status.{MissingRange, MissingRanges, find_range, next_chunk, advance_cursor}
use das_protokoll.Csync.Status.Gaps.{covers, Ordered, EndsBy}

pub covers_below :
    (lo k : ℕ) (rs : List MissingRange) → Ordered lo rs → k < lo → covers rs k ≡ false
unfolding covers
covers_below lo k [] o h = refl
covers_below lo k (r ∷ rs) o h = ground (arith, o.0, o.1, covers_below r.to k rs o.2)

-- Nothing from `from` on, up to `to`, is covered.
abbrev pub Clear : List MissingRange → ℕ → ℕ → Type 0
Clear rs from to = (k : ℕ) → from ≤ k → k < to → covers rs k ≡ false

pub find_none :
    (lo c : ℕ) (rs : List MissingRange)
    → Ordered lo rs
    → find_range c rs ≡ none
    → (k : ℕ) → c ≤ k
    → covers rs k ≡ false
unfolding covers find_range
find_none lo c [] o e k h = refl
find_none lo c (r ∷ rs) o e k h = elim (Bool-cases (ltb c r.to)) [
  | inl here ↦ ground (arith, here)
  | inr later ↦ ground (arith, later, find_none r.to c rs o.2 (ground (arith, later)) k h)
]

-- The range that is found ends after the position, and the chunk that is taken from it is the first
-- one covered there.
pub find_some :
    (lo c : ℕ) (rs : List MissingRange) (r : MissingRange)
    → Ordered lo rs
    → find_range c rs ≡ some r
    → (covers rs (max c r.from) ≡ true) × ((k : ℕ) → c ≤ k → k < max c r.from → covers rs k ≡ false)
unfolding covers find_range
find_some lo c [] r o e = cc
find_some lo c (x ∷ rs) r o e = elim (Bool-cases (ltb c x.to)) [
  | inl here ↦
      let eq : x ≡ r = ground (arith, here) in
      (
        ground (arith, o.1, here, eq),
        λ k a b. ground (arith, o.1, here, eq, covers_below x.to k rs o.2),
      )
  | inr later ↦
      let ih = find_some x.to c rs r o.2 (ground (arith, later)) in
      (ground (arith, ih.0), λ k a b. ground (arith, later, ih.1 k a b))
]

find_within :
    (c n : ℕ) (rs : List MissingRange) (r : MissingRange)
    → EndsBy n rs
    → find_range c rs ≡ some r
    → (r.to ≤ n) × (c < r.to)
unfolding find_range
find_within c n [] r h e = cc
find_within c n (x ∷ rs) r h e = ground (arith, h.0, find_within c n rs r h.1)

pub covers_within : (n k : ℕ) (rs : List MissingRange) → EndsBy n rs → covers rs k ≡ true → k < n
unfolding covers
covers_within n k [] h e = cc
covers_within n k (r ∷ rs) h e = ground (arith, h.0, covers_within n k rs h.1)

-- Either no missing chunk is left at the cursor or after it, and nothing changes, or the first one
-- there is returned and the cursor moves past it.
abbrev pub NextOf : MissingRanges → MissingRanges × Option ℕ → Type 0
NextOf self r =
    ((r ≡ (self, none)) × ((k : ℕ) → self.cursor ≤ k → covers self.missing k ≡ false))
    ⊎ ((c : ℕ) × (r ≡ (record self { cursor = c + 1 }, some c))
        × (self.cursor ≤ c)
        × (covers self.missing c ≡ true)
        × Clear self.missing self.cursor c)

-- On ordered ranges `next_chunk` returns the first missing chunk at the cursor or after it and moves
-- the cursor behind it, or, if there is none, returns nothing and changes nothing.
pub next_chunk-NextOf :
    (self : MissingRanges) (n : ℕ)
    → Ordered 0 self.missing
    → EndsBy n self.missing
    → n < 2 ^ 64
    → NextOf self (next_chunk self)
unfolding next_chunk
next_chunk-NextOf self n o h hn = elim (Option-cases (find_range self.cursor self.missing)) [
  | inl e ↦ inl (ground (arith, e), find_none 0 self.cursor self.missing o e)
  | inr (r, e) ↦
      let c = max self.cursor r.from in
      let (hit, clear) = find_some 0 self.cursor self.missing r o e in
      let w = covers_within n c self.missing h hit in
      let next : add64 c 1 ≡ c + 1 = add64-eq c 1 (omega arith) in
      inr (c, ground (arith, e, next), omega arith, hit, clear)
]

-- `advance_cursor` answers with the first missing chunk after the given one, if there is one.
pub advance_cursor_lem :
    (self : MissingRanges) (cursor : ℕ)
    → Ordered 0 self.missing
    → cursor + 1 < 2 ^ 64
    → ((advance_cursor self cursor ≡ none)
        × ((k : ℕ) → cursor + 1 ≤ k → covers self.missing k ≡ false))
      ⊎ ((c : ℕ) × (advance_cursor self cursor ≡ some c)
          × (cursor < c)
          × (covers self.missing c ≡ true)
          × Clear self.missing (cursor + 1) c)
unfolding advance_cursor
advance_cursor_lem self cursor o h =
    rw (add64-eq cursor 1 h) (elim (Option-cases (find_range (cursor + 1) self.missing)) [
      | inl e ↦ inl (ground (arith, e), find_none 0 (cursor + 1) self.missing o e)
      | inr (r, e) ↦
          let (hit, clear) = find_some 0 (cursor + 1) self.missing r o e in
          inr (max (cursor + 1) r.from, ground (arith, e), omega arith, hit, clear)
    ])
