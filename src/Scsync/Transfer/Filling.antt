-- ===== src/Scsync/Transfer/Filling.antt =====
-- v2/scsync/src/handler.rs: a partial block that is filled chunk by chunk.
use das_protokoll.Base.{
  ℕ, ◌+◌, ◌-◌, ◌*◌, ◌/◌, ◌^◌, ◌≤◌, ◌<◌, ◌≡◌, ◌≢◌, refl, sym, ap, ◌∙◌, Bool, true, false, Option,
  none, some, List, [], ◌∷◌, ◌++◌, length, take, drop, replicate, min, set as set_elem, get_elem?,
  arith, inl, inr, ◌⊎◌, All, All-get, All-replicate, length-set, length-replicate, le→leb, lt→ltb,
}
use mathlib.Core.Path.{subst, ap₂}
use das_protokoll.Base.Word.{sub64-eq}
use das_protokoll.Csync.Chunks.Sizes.{CutsInto}
use das_protokoll.Csync.Receiver.{write_at}
use das_protokoll.Csync.Receiver.WriteAt.{write_at_front}
use das_protokoll.Csync.Receiver.Integrity.{
  slice, Agrees, write-Agrees, agreed, starts_inside, length-slice,
}
use das_protokoll.Scsync.BlockDb.{
  BlockDb, Block, Partial, partial_block, full_block, get, insert, try_promote,
}
use das_protokoll.Scsync.BlockDb.Store.{
  add_lem, try_promote_lem, lookup-insert_self, lookup-insert_ne, or_else,
}
use das_protokoll.Scsync.Transfer.{
  chunk_size, Transfer, TransferPayload, BlockRequestResponse, transfer, store_chunk,
  transfer_payload, block_request_response,
}

-- The partial block `id` of the store has the source's bytes wherever a chunk is available.
pub record Receiving (source : List ℕ) (id : ℕ) (db : BlockDb) (p : Partial) : Type 0 where
  pub stored : get id db ≡ some (partial_block p)
  pub named : p.id ≡ id
  pub cuts : CutsInto (length source) chunk_size (length p.available)
  pub agrees : Agrees source chunk_size p.available p.bytes

no_true : (n i : ℕ) → get_elem? (replicate n false) i ≢ some true
no_true n i e =
    let f =
      All-get (λ b. b ≡ false) (replicate n false) i true
        (All-replicate (λ b. b ≡ false) n false refl) e in
    cc

round_up : (n : ℕ) → CutsInto n 1450 ((n + 1450 - 1) / 1450)
round_up n = (omega arith, omega arith)

abbrev stored_in : ℕ → List ℕ → Partial → Partial
stored_in i bytes p = record p {
  bytes = take (i * chunk_size) p.bytes ++ (bytes ++ drop (i * chunk_size + length bytes) p.bytes);
  available = set_elem p.available i true;
}

store_chunk_inside :
    (i : ℕ) (bytes : List ℕ) (p : Partial)
    → i * chunk_size + length bytes ≤ length p.bytes
    → length bytes ≤ chunk_size
    → i < length p.available
    → store_chunk i bytes p ≡ some (stored_in i bytes p)
unfolding store_chunk
store_chunk_inside i bytes p inside short h =
    rw
      (
        le→leb (i * chunk_size + min chunk_size (length bytes)) (length p.bytes) (omega arith),
        le→leb (length bytes) chunk_size short,
        lt→ltb i (length p.available) h,
      )
      refl

store_chunk_lem :
    (source : List ℕ) (i : ℕ) (p : Partial)
    → CutsInto (length source) chunk_size (length p.available)
    → Agrees source chunk_size p.available p.bytes
    → i < length p.available
    → (p' : Partial) × (store_chunk i (slice source chunk_size i) p ≡ some p')
      × (p'.id ≡ p.id)
      × (p'.available ≡ set_elem p.available i true)
      × Agrees source chunk_size p'.available p'.bytes
store_chunk_lem source i p cuts a h =
    let bytes = slice source chunk_size i in
    let starts = starts_inside i (length p.available) chunk_size (length source) h cuts.1 in
    let len = length-slice source chunk_size i starts in
    let inside : i * chunk_size + length bytes ≤ length p.bytes =
      omega (arith, len, a.same_length) in
    let written =
      write-Agrees source p.bytes chunk_size i p.available (set_elem p.available i true) starts a
        refl in
    let places : write_at p.bytes (i * chunk_size) bytes
        ≡ take (i * chunk_size) p.bytes ++ (bytes ++ drop (i * chunk_size + length bytes) p.bytes) =
      unfold write_at in
      ap (λ (front : List ℕ). front ++ (bytes ++ drop (i * chunk_size + length bytes) p.bytes))
        (write_at_front p.bytes bytes (i * chunk_size) inside) in
    (
      stored_in i bytes p,
      store_chunk_inside i bytes p inside (omega (arith, len)) h,
      refl,
      refl,
      subst (Agrees source chunk_size (set_elem p.available i true)) places written,
    )

-- What the payload for chunk `i` does to a block that is being received: the block stays partial, since
-- another chunk is missing, or all of its chunks are there and it is full and is the source.
abbrev pub Received : List ℕ → ℕ → ℕ → BlockDb → Partial → Option (BlockDb × Bool) → Type 0
Received source id i db p r =
    ((db' : BlockDb) × (p' : Partial) × (r ≡ some (db', false))
      × Receiving source id db' p'
      × (p'.available ≡ set_elem p.available i true)
      × (¬ All (λ b. b ≡ true) p'.available)
      × ((other : ℕ) → id ≢ other → get other db' ≡ get other db))
    ⊎ ((db' : BlockDb) × (r ≡ some (db', true))
        × (get id db' ≡ some (full_block (record { id = id; bytes = source })))
        × ((other : ℕ) → id ≢ other → get other db' ≡ get other db))

promoted :
    (source : List ℕ) (id i : ℕ) (db : BlockDb) (p p' : Partial)
    → let db1 = record db { blocks = insert id (partial_block p') db.blocks } in
      Receiving source id db1 p'
      → p'.available ≡ set_elem p.available i true
      → Received source id i db p (try_promote id db1)
promoted source id i db p p' rec same =
    let db1 : BlockDb = record db { blocks = insert id (partial_block p') db.blocks } in
    let before : (other : ℕ) → id ≢ other → get other db1 ≡ get other db =
      λ other ne. unfold get in lookup-insert_ne id other (partial_block p') db.blocks ne in
    elim (try_promote_lem id p' db1 rec.stored) [
      | inl (all, db', e, now, others, _, _) ↦
          let done =
            agreed source chunk_size (length p'.available) p'.available p'.bytes rec.cuts refl
              rec.agrees all in
          inr (
            db',
            e,
            now
                ∙ ap₂ (λ (i : ℕ) (bs : List ℕ). some (full_block (record { id = i; bytes = bs })))
                    rec.named done,
            λ other ne. others other ne ∙ before other ne,
          )
      | inr (missing, e) ↦ inl (db1, p', e, rec, same, missing, before)
    ]

-- A payload for a chunk of a block that is being received, with the sender's bytes of that chunk, is
-- written to its place without a panic, in whatever order the payloads come and however often: the
-- block stays partial and right in every chunk that is available, with this one now among them and
-- another still missing, or, if no chunk is missing any more, becomes the full block with exactly the
-- sender's bytes. No other block changes. The chunk id has to
-- be a `u64`.
pub transfer_payload-Received :
    (source : List ℕ) (chunkid : ℕ) (transfers : List Transfer) (t : Transfer) (db : BlockDb)
    (p : Partial)
    → Receiving source t.blockid db p
    → transfer chunkid transfers ≡ some t
    → t.start ≤ chunkid
    → chunkid < 2 ^ 64
    → chunkid - t.start < length p.available
    → let payload : TransferPayload = record {
      chunkid = chunkid;
      bytes = slice source chunk_size (chunkid - t.start);
    } in
      Received source t.blockid (chunkid - t.start) db p (transfer_payload payload transfers db)
unfolding transfer_payload
transfer_payload-Received source chunkid transfers t db p rec et l small h =
    let i = chunkid - t.start in
    let (p', es, en, el, a) = store_chunk_lem source i p rec.cuts rec.agrees h in
    let db1 : BlockDb = record db { blocks = insert t.blockid (partial_block p') db.blocks } in
    let rec' : Receiving source t.blockid db1 p' = record {
      stored = unfold get in lookup-insert_self t.blockid (partial_block p') db.blocks;
      named = en ∙ rec.named;
      cuts =
          subst (CutsInto (length source) chunk_size)
            (sym (ap (length {A = Bool}) el ∙ length-set p.available i true)) rec.cuts;
      agrees = a;
    } in
    rw (et, rec.stored, sub64-eq chunkid t.start l small, es)
      (promoted source t.blockid i db p p' rec' el)

-- The answer to the request for a block that the store does not have starts its transfer: a partial
-- block of the length that is told, with no chunk available, and an entry with its chunk ids. No other
-- block changes.
pub block_request_response-Receiving :
    (source : List ℕ) (res : BlockRequestResponse) (transfers : List Transfer) (db : BlockDb)
    → res.len ≡ length source
    → get res.blockid db ≡ none
    → let r = block_request_response res transfers db in
      (p : Partial) × Receiving source res.blockid r.1 p
      × All (λ b. b ≡ false) p.available
      × (r.0
          ≡ transfers
            ++ record { blockid = res.blockid; start = res.start_id; end = res.end_id } ∷ [])
      × ((other : ℕ) → res.blockid ≢ other → get other r.1 ≡ get other db)
unfolding block_request_response
block_request_response-Receiving source res transfers db el absent =
    let n = (res.len + 1450 - 1) / 1450 in
    let p : Partial = record {
      id = res.blockid;
      bytes = replicate res.len 0;
      available = replicate n false;
    } in
    let (mine, others) = add_lem (partial_block p) db in
    (
      p,
      record {
        stored = mine ∙ ap (λ (o : Option Block). some (or_else o (partial_block p))) absent;
        named = refl;
        cuts = rw (length-replicate n false, ← el) (round_up res.len);
        agrees = record {
          same_length = length-replicate {A = ℕ} res.len 0 ∙ el;
          held = λ i one. absurd (no_true n i one);
        };
      },
      All-replicate (λ b. b ≡ false) n false refl,
      refl,
      others,
    )
