-- ===== src/Csync/Status/Gaps.antt =====
-- The maximal ranges of zero bits: what a complete status update is to say.
use das_protokoll.Base.{
  ℕ, zero, suc, ◌+◌, ◌≤◌, ◌<◌, ◌≡◌, refl, ◌∙◌, Bool, true, false, Option, none, some, List, [], ◌∷◌,
  ltb, leb, ◌==◌, ◌&&◌, ◌||◌, ◌↔◌, not, length, take, get_elem?, arith, All, ◌≢◌,
}
use das_protokoll.Csync.Status.{MissingRange}

-- `open_at` is the start of a range that has begun before position `i`.
unfoldable pub gaps : Option ℕ → ℕ → List Bool → List MissingRange
gaps none i [] = []
gaps none i (true ∷ bs) = gaps none (i + 1) bs
gaps none i (false ∷ bs) = gaps (some i) (i + 1) bs
gaps (some s) i [] = record { from = s; to = i } ∷ []
gaps (some s) i (true ∷ bs) = record { from = s; to = i } ∷ gaps none (i + 1) bs
gaps (some s) i (false ∷ bs) = gaps (some s) (i + 1) bs

-- Some range holds the position.
unfoldable pub covers : List MissingRange → ℕ → Bool
covers [] k = false
covers (r ∷ rs) k = leb r.from k && ltb k r.to || covers rs k

-- The ranges stand in order from `lo` on, are not empty and do not overlap.
abbrev pub Ordered : ℕ → List MissingRange → Type 0
Ordered lo [] = Unit {0}
Ordered lo (r ∷ rs) = (lo ≤ r.from) × (r.from < r.to) × Ordered r.to rs

Ordered-mono : (lo hi : ℕ) (rs : List MissingRange) → lo ≤ hi → Ordered hi rs → Ordered lo rs
Ordered-mono lo hi [] h o = tt
Ordered-mono lo hi (r ∷ rs) h o = (omega arith, o.1, o.2)

abbrev lower : Option ℕ → ℕ → ℕ
lower none i = i
lower (some s) i = s

abbrev BeganBefore : Option ℕ → ℕ → Type 0
BeganBefore none i = Unit {0}
BeganBefore (some s) i = s < i

gaps-Ordered_from :
    (o : Option ℕ) (i : ℕ) (bs : List Bool) → BeganBefore o i → Ordered (lower o i) (gaps o i bs)
unfolding gaps
gaps-Ordered_from none i [] h = tt
gaps-Ordered_from none i (true ∷ bs) h =
    Ordered-mono i (i + 1) _ (omega arith) (gaps-Ordered_from none (i + 1) bs tt)
gaps-Ordered_from none i (false ∷ bs) h = gaps-Ordered_from (some i) (i + 1) bs (omega arith)
gaps-Ordered_from (some s) i [] h = (omega arith, h, tt)
gaps-Ordered_from (some s) i (true ∷ bs) h =
    (omega arith, h, Ordered-mono i (i + 1) _ (omega arith) (gaps-Ordered_from none (i + 1) bs tt))
gaps-Ordered_from (some s) i (false ∷ bs) h = gaps-Ordered_from (some s) (i + 1) bs (omega arith)

pub gaps-Ordered : (bs : List Bool) → Ordered 0 (gaps none 0 bs)
gaps-Ordered bs = gaps-Ordered_from none 0 bs tt

-- Every range of the list ends at the end of the bits or before.
abbrev pub EndsBy : ℕ → List MissingRange → Type 0
EndsBy n [] = Unit {0}
EndsBy n (r ∷ rs) = (r.to ≤ n) × EndsBy n rs

gaps-EndsBy_from :
    (o : Option ℕ) (i n : ℕ) (bs : List Bool) → i + length bs ≡ n → EndsBy n (gaps o i bs)
unfolding gaps
gaps-EndsBy_from none i n [] h = tt
gaps-EndsBy_from none i n (true ∷ bs) h = gaps-EndsBy_from none (i + 1) n bs (omega arith)
gaps-EndsBy_from none i n (false ∷ bs) h = gaps-EndsBy_from (some i) (i + 1) n bs (omega arith)
gaps-EndsBy_from (some s) i n [] h = (omega arith, tt)
gaps-EndsBy_from (some s) i n (true ∷ bs) h =
    (omega arith, gaps-EndsBy_from none (i + 1) n bs (omega arith))
gaps-EndsBy_from (some s) i n (false ∷ bs) h = gaps-EndsBy_from (some s) (i + 1) n bs (omega arith)

pub gaps-EndsBy : (bs : List Bool) → EndsBy (length bs) (gaps none 0 bs)
gaps-EndsBy bs = gaps-EndsBy_from none 0 (length bs) bs (omega arith)

abbrev in_open : Option ℕ → ℕ → ℕ → Bool
in_open none i k = false
in_open (some s) i k = leb s k && ltb k i

zero_at : ℕ → List Bool → ℕ → Bool
zero_at i [] k = false
zero_at i (b ∷ bs) k = not b && (k == i) || zero_at (i + 1) bs k

zero_at_below : (i k : ℕ) (bs : List Bool) → k < i → zero_at i bs k ≡ false
unfolding zero_at
zero_at_below i k [] h = refl
zero_at_below i k (b ∷ bs) h = ground (arith, zero_at_below (i + 1) k bs)

covers-gaps_from :
    (o : Option ℕ) (i k : ℕ) (bs : List Bool)
    → BeganBefore o i
    → covers (gaps o i bs) k ≡ (in_open o i k || zero_at i bs k)
unfolding gaps covers zero_at
covers-gaps_from none i k [] h = refl
covers-gaps_from none i k (true ∷ bs) h = covers-gaps_from none (i + 1) k bs tt
covers-gaps_from none i k (false ∷ bs) h =
    ground (arith, covers-gaps_from (some i) (i + 1) k bs (omega arith))
covers-gaps_from (some s) i k [] h = refl
covers-gaps_from (some s) i k (true ∷ bs) h = ground (arith, covers-gaps_from none (i + 1) k bs tt)
covers-gaps_from (some s) i k (false ∷ bs) h =
    ground (arith, covers-gaps_from (some s) (i + 1) k bs (omega arith))

-- The chunk is one of the map's, and its bit is 0.
abbrev pub is_missing : Option Bool → Bool
is_missing none = false
is_missing (some b) = not b

zero_at-get :
    (i d k : ℕ) (bs : List Bool) → i + d ≡ k → zero_at i bs k ≡ is_missing (get_elem? bs d)
unfolding zero_at
zero_at-get i d k [] h = refl
zero_at-get i zero k (b ∷ bs) h = ground (arith, zero_at_below (i + 1) k bs)
zero_at-get i (suc d) k (b ∷ bs) h = ground (arith, zero_at-get (i + 1) d k bs)

-- The gaps hold exactly the positions of the zero bits.
pub covers-gaps : (bs : List Bool) (k : ℕ) → covers (gaps none 0 bs) k ≡ is_missing (get_elem? bs k)
covers-gaps bs k = covers-gaps_from none 0 k bs tt ∙ zero_at-get 0 k k bs (omega arith)

-- From a position on.
pub covers-gaps_at :
    (i d : ℕ) (bs : List Bool) → covers (gaps none i bs) (i + d) ≡ is_missing (get_elem? bs d)
covers-gaps_at i d bs =
    covers-gaps_from none i (i + d) bs tt ∙ zero_at-get i d (i + d) bs (omega arith)

pub gaps-Ordered_at : (i : ℕ) (bs : List Bool) → Ordered 0 (gaps none i bs)
gaps-Ordered_at i bs =
    Ordered-mono 0 i (gaps none i bs) (omega arith) (gaps-Ordered_from none i bs tt)

pub covers-take_sound :
    (n : ℕ) (rs : List MissingRange) (k : ℕ) → covers (take n rs) k ≡ true → covers rs k ≡ true
unfolding covers
covers-take_sound zero rs k h = cc
covers-take_sound (suc n) [] k h = cc
covers-take_sound (suc n) (r ∷ rs) k h = ground (arith, covers-take_sound n rs k)

pub Ordered-take : (n lo : ℕ) (rs : List MissingRange) → Ordered lo rs → Ordered lo (take n rs)
Ordered-take zero lo rs o = tt
Ordered-take (suc n) lo [] o = tt
Ordered-take (suc n) lo (r ∷ rs) o = (o.0, o.1, Ordered-take n r.to rs o.2)

pub EndsBy-take : (n e : ℕ) (rs : List MissingRange) → EndsBy e rs → EndsBy e (take n rs)
EndsBy-take zero e rs o = tt
EndsBy-take (suc n) e [] o = tt
EndsBy-take (suc n) e (r ∷ rs) o = (o.0, EndsBy-take n e rs o.1)

gaps_open-ne-nil : (s i : ℕ) (bs : List Bool) → gaps (some s) i bs ≢ []
unfolding gaps
gaps_open-ne-nil s i [] h = cc
gaps_open-ne-nil s i (true ∷ bs) h = cc
gaps_open-ne-nil s i (false ∷ bs) h = gaps_open-ne-nil s (i + 1) bs h

-- There are no gaps exactly when every bit is 1.
pub gaps_nil_iff : (i : ℕ) (bs : List Bool) → (gaps none i bs ≡ []) ↔ All (λ b. b ≡ true) bs
unfolding gaps
gaps_nil_iff i [] = (λ h. tt, λ h. refl)
gaps_nil_iff i (true ∷ bs) =
    let ih = gaps_nil_iff (i + 1) bs in (λ h. (refl, ih.0 h), λ h. ih.1 h.1)
gaps_nil_iff i (false ∷ bs) = (λ h. absurd (gaps_open-ne-nil i (i + 1) bs h), λ h. cc (h.0))
