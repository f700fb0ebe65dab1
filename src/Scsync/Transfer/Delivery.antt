-- ===== src/Scsync/Transfer/Delivery.antt =====
-- v2/scsync/src/handler.rs: the delivery of a whole block by payloads in any order.
use das_protokoll.Base.{
  ℕ, suc, ◌+◌, ◌-◌, ◌≤◌, ◌<◌, ◌^◌, ◌≡◌, ◌≢◌, refl, sym, ◌∙◌, ap, Bool, true, false, Option, some,
  List, [], ◌∷◌, ◌++◌, ◌>>=◌, length, set as set_elem, get_elem?, All, In, arith, inl, inr,
  length-set, get_elem?-set_self, get_elem?-set_ne, ℕ_discrete,
}
use mathlib.Core.Path.{subst}
use das_protokoll.Csync.Receiver.Integrity.{slice}
use das_protokoll.Scsync.BlockDb.{BlockDb, Partial, full_block, get}
use das_protokoll.Scsync.Transfer.{
  chunk_size, Transfer, TransferPayload, transfer, transfer_payload,
}
use das_protokoll.Scsync.Transfer.Filling.{Receiving, Received, transfer_payload-Received}

none_lacks :
    (bs : List Bool)
    → ((i : ℕ) → i < length bs → get_elem? bs i ≢ some false)
    → All (λ b. b ≡ true) bs
none_lacks [] h = tt
none_lacks (true ∷ bs) h = (refl, none_lacks bs (λ i below. h (suc i) (omega (arith, below))))
none_lacks (false ∷ bs) h = absurd (h 0 (omega arith) refl)

module _ (source : List ℕ) (t : Transfer) (transfers : List Transfer) where
  -- The sender's payload for a chunk of the block.
  abbrev pub payload_for : ℕ → TransferPayload
  payload_for i = record { chunkid = t.start + i; bytes = slice source chunk_size i }

  -- The payloads for the chunks arrive one after the other; with whether the last of them has promoted the
  -- block.
  unfoldable pub fill : List ℕ → Bool → BlockDb → Option (BlockDb × Bool)
  fill [] promoted db = some (db, promoted)
  fill (i ∷ is) promoted db = do
    (db', promoted') ← transfer_payload (payload_for i) transfers db
    fill is promoted' db'

  -- After some of the payloads, the last of which promotes it, the block has become the source, and no
  -- other block has changed.
  abbrev pub Delivered : List ℕ → Bool → BlockDb → Type 0
  Delivered is promoted db =
      (front back : List ℕ) × (is ≡ front ++ back)
      × (db' : BlockDb) × (fill front promoted db ≡ some (db', true))
      × (get t.blockid db' ≡ some (full_block (record { id = t.blockid; bytes = source })))
      × ((other : ℕ) → t.blockid ≢ other → get other db' ≡ get other db)

  payload_Received :
      (i : ℕ) (db : BlockDb) (p : Partial)
      → Receiving source t.blockid db p
      → transfer (t.start + i) transfers ≡ some t
      → t.start + i < 2 ^ 64
      → i < length p.available
      → Received source t.blockid i db p (transfer_payload (payload_for i) transfers db)
  payload_Received i db p rec et small h =
      let e : t.start + i - t.start ≡ i = omega arith in
      subst
        (λ j. Received source t.blockid j db p (
          transfer_payload (record { chunkid = t.start + i; bytes = slice source chunk_size j })
            transfers db))
        e
        (transfer_payload-Received source (t.start + i) transfers t db p rec et (omega arith) small
          (omega (arith, h)))

  filled :
      (is : List ℕ) (n : ℕ) (db : BlockDb) (p : Partial)
      → Receiving source t.blockid db p
      → length p.available ≡ n
      → ¬ All (λ b. b ≡ true) p.available
      → ((i : ℕ) → i < n → transfer (t.start + i) transfers ≡ some t)
      → t.start + n ≤ 2 ^ 64
      → All (λ i. i < n) is
      → ((i : ℕ) → i < n → get_elem? p.available i ≡ some false → In i is)
      → Delivered is false db
  unfolding fill
  filled [] n db p rec len lacks ids small inside every =
      absurd (lacks (none_lacks p.available (λ i h e. every i (omega (arith, h, len)) e)))
  filled (i ∷ is) n db p rec len lacks ids small inside every =
      by_result
        (payload_Received i db p rec (ids i inside.0) (omega (arith, inside.0, small))
          (omega (arith, inside.0, len)))
        (λ db' p' rec' set_i lacks'.
          filled is n db' p' rec'
            (ap (length {A = Bool}) set_i ∙ length-set p.available i true ∙ len) lacks' ids small
            inside.1 (λ j h e. later j h (rw set_i at e)))
    where
      later : (j : ℕ) → j < n → get_elem? (set_elem p.available i true) j ≡ some false → In j is
      later j h e = elim (ℕ_discrete i j) [
        | yes same ↦
            let set_j : get_elem? (set_elem p.available i true) j ≡ some true =
              ap (get_elem? (set_elem p.available i true)) (sym same)
              ∙ get_elem?-set_self p.available i true (omega (arith, inside.0, len)) in
            absurd (cc (sym set_j ∙ e))
        | no ne ↦ elim (every j h (sym (get_elem?-set_ne p.available i j true ne) ∙ e)) [
          | inl same ↦ absurd (ne same)
          | inr m ↦ m
        ]
      ]

      by_result :
          Received source t.blockid i db p (transfer_payload (payload_for i) transfers db)
          → ((db' : BlockDb) (p' : Partial)
              → Receiving source t.blockid db' p'
              → p'.available ≡ set_elem p.available i true
              → ¬ All (λ b. b ≡ true) p'.available
              → Delivered is false db')
          → Delivered (i ∷ is) false db
      by_result (inr (db', e, now, others)) go = (i ∷ [], is, refl, db', rw e refl, now, others)
      by_result (inl (db', p', e, rec', set_i, lacks', others)) go =
          let (front, back, split, db'', e', now, others') = go db' p' rec' set_i lacks' in
          (
            i ∷ front,
            back,
            ap (◌∷◌ i) split,
            db'',
            rw e e',
            now,
            λ other ne. others' other ne ∙ others other ne,
          )

-- A block arrives whole: payloads for its chunks come with the sender's bytes, in any order and however
-- often, among them each chunk that was missing. Then the first so many of them are taken one after the
-- other without a panic, and the last of these promotes the block, which has exactly the sender's bytes; no
-- other block changes. Nothing is said of the payloads that come after that one. The chunk ids are
-- those that the transfer was given, and are `u64`s.
pub fill-Delivered :
    (source : List ℕ) (t : Transfer) (transfers : List Transfer) (is : List ℕ) (db : BlockDb)
    (p : Partial)
    → Receiving source t.blockid db p
    → ¬ All (λ b. b ≡ true) p.available
    → ((i : ℕ) → i < length p.available → transfer (t.start + i) transfers ≡ some t)
    → t.start + length p.available ≤ 2 ^ 64
    → All (λ i. i < length p.available) is
    → ((i : ℕ) → i < length p.available → get_elem? p.available i ≡ some false → In i is)
    → Delivered source t transfers is false db
fill-Delivered source t transfers is db p rec lacks ids small inside every =
    filled source t transfers is (length p.available) db p rec refl lacks ids small inside every
