-- ===== src/Scsync/Transfer/Sending.antt =====
-- v2/scsync/src/handler.rs: the task that sends, where its cursor stands and what its payloads hold.
use das_protokoll.Base.{
  ℕ, ◌+◌, ◌-◌, ◌^◌, ◌≤◌, ◌<◌, ◌≡◌, refl, sym, ap, true, false, Option, none, some, List, [], ◌∷◌,
  ltb, leb, ◌&&◌, not, max, arith, Bool-cases, Option-cases, inl, inr, ◌⊎◌, ◌↔◌,
}
use das_protokoll.Base.Word.{add64-eq, sub64-eq}
use das_protokoll.Csync.Status.{MissingRange, find_range}
use das_protokoll.Csync.Status.Gaps.{covers, Ordered}
use das_protokoll.Csync.Status.Pump.{Clear, find_none, find_some, covers_below}
use das_protokoll.Csync.Receiver.Integrity.{slice}
use das_protokoll.Scsync.BlockDb.{BlockDb, Full, full_block, get, is_some}
use das_protokoll.Scsync.Transfer.{
  chunk_size, Allocated, TransferOut, find_chunk, first_from, next_valid, transfer_status,
  send_next,
}

-- Where a cursor stands: at the first missing chunk from a position on, or nowhere if there is none.
abbrev pub StandsAt : List MissingRange → ℕ → Option ℕ → Type 0
StandsAt rs from cursor =
    ((cursor ≡ none) × ((k : ℕ) → from ≤ k → covers rs k ≡ false))
    ⊎ ((c : ℕ) × (cursor ≡ some c) × (from ≤ c) × (covers rs c ≡ true) × Clear rs from c)

first-StandsAt : (rs : List MissingRange) → Ordered 0 rs → StandsAt rs 0 (first_from rs)
unfolding covers
first-StandsAt [] o = inl (refl, λ k h. refl)
first-StandsAt (r ∷ rs) o = inr (
  r.from,
  refl,
  omega arith,
  ground (arith, o.1),
  λ k l h. ground (arith, covers_below r.to k rs o.2, o.1),
)

launch_lem :
    (cursor : Option ℕ) (rs : List MissingRange)
    → ((not (is_some cursor) && is_some (first_from rs)) ≡ true)
      ↔ ((cursor ≡ none) × (is_some (first_from rs) ≡ true))
launch_lem none rs = (λ h. (refl, h), λ h. h.1)
launch_lem (some c) rs = (λ h. cc, λ h. cc (h.0))

-- After a status update whose ranges are in order, the task that sends is to go on at the first
-- missing chunk, if there is one; it is started exactly if it was idle and a chunk is missing. The
-- transfers stay.
pub transfer_status-StandsAt :
    (missing_ranges : List MissingRange) (out : TransferOut)
    → Ordered 0 missing_ranges
    → let r = transfer_status missing_ranges out in
      (r.0.todo ≡ missing_ranges)
      × StandsAt missing_ranges 0 r.0.cursor
      × ((r.1 ≡ true) ↔ ((out.cursor ≡ none) × (is_some r.0.cursor ≡ true)))
      × (r.0.transfers ≡ out.transfers)
unfolding transfer_status
transfer_status-StandsAt missing_ranges out o =
    (refl, first-StandsAt missing_ranges o, launch_lem out.cursor missing_ranges, refl)

next-StandsAt :
    (rs : List MissingRange) (next : ℕ)
    → Ordered 0 rs
    → StandsAt rs next (next_valid (find_range next rs) next)
next-StandsAt rs next o = elim (Option-cases (find_range next rs)) [
  | inl e ↦ inl (rw e refl, find_none 0 next rs o e)
  | inr (r, e) ↦
      let (hit, clear) = find_some 0 next rs r o e in
      let c : max next r.from ≡ max r.from next = omega arith in
      inr (max next r.from, rw e (ap (λ (k : ℕ). some k) (sym c)), omega arith, hit, clear)
]

find_chunk-holds :
    (chunk : ℕ) (ts : List Allocated) (t : Allocated)
    → find_chunk chunk ts ≡ some t
    → t.from ≤ chunk
unfolding find_chunk
find_chunk-holds chunk [] t e = cc
find_chunk-holds chunk (u ∷ ts) t e = elim (Bool-cases (leb u.from chunk && ltb chunk u.to)) [
  | inl here ↦ ground (arith, here)
  | inr later ↦ find_chunk-holds chunk ts t (ground (arith, later))
]

-- With its cursor in a transfer of a full block, the task sends the bytes of that chunk of the block,
-- under the id that the cursor shows, and moves to the next missing chunk after it, if there is one.
-- The ranges that are to do have to be in order, and the cursor must not overflow.
pub send_next-StandsAt :
    (db : BlockDb) (out : TransferOut) (cursor : ℕ) (t : Allocated) (f : Full)
    → out.cursor ≡ some cursor
    → find_chunk cursor out.transfers ≡ some t
    → get t.block db ≡ some (full_block f)
    → Ordered 0 out.todo
    → cursor + 1 < 2 ^ 64
    → (out' : TransferOut) × (send_next db out
        ≡ some (
          out',
          some (record { chunkid = cursor; bytes = slice f.bytes chunk_size (cursor - t.from) }),
        ))
      × StandsAt out.todo (cursor + 1) out'.cursor
      × (out'.todo ≡ out.todo)
      × (out'.transfers ≡ out.transfers)
unfolding send_next
send_next-StandsAt db out cursor t f ec et eb o h =
    let low = find_chunk-holds cursor out.transfers t et in
    (
      record out { cursor = next_valid (find_range (cursor + 1) out.todo) (cursor + 1) },
      ground (arith, ec, et, eb, add64-eq cursor 1 h, sub64-eq cursor t.from low (omega arith)),
      next-StandsAt out.todo (cursor + 1) o,
      refl,
      refl,
    )
