-- ===== src/Scsync/Transfer/Allocation.antt =====
-- v2/scsync/src/handler.rs: the chunk ids that `block_request` gives out.
use das_protokoll.Base.{
  ℕ, ◌+◌, ◌^◌, ◌≤◌, ◌<◌, ◌≡◌, refl, sym, ◌∙◌, none, some, List, [], ◌∷◌, ◌++◌, ◌==◌, arith,
  Bool-cases, Option-cases, inl, inr, ==_iff,
}
use das_protokoll.Base.Word.{add64, add64-eq}
use das_protokoll.Scsync.BlockDb.{BlockDb, Block, len, get}
use das_protokoll.Scsync.Transfer.{
  Allocated, TransferOut, BlockRequestResponse, find_block, find_chunk, response, block_request,
}

-- The transfers take up the ids from `lo` to `hi`, one after the other.
abbrev pub Chain : ℕ → List Allocated → ℕ → Type 0
Chain lo [] hi = lo ≡ hi
Chain lo (t ∷ ts) hi = (t.from ≡ lo) × (t.from ≤ t.to) × Chain t.to ts hi

Chain-append :
    (lo mid : ℕ) (ts : List Allocated) (t : Allocated)
    → Chain lo ts mid
    → t.from ≡ mid
    → t.from ≤ t.to
    → Chain lo (ts ++ t ∷ []) t.to
Chain-append lo mid [] t c e h = (e ∙ sym c, h, refl)
Chain-append lo mid (u ∷ ts) t c e h = (c.0, c.1, Chain-append u.to mid ts t c.2 e h)

find_block-above :
    (id lo hi : ℕ) (ts : List Allocated) (t : Allocated)
    → Chain lo ts hi
    → find_block id ts ≡ some t
    → (lo ≤ t.from) × (t.block ≡ id)
unfolding find_block
find_block-above id lo hi [] t c e = cc
find_block-above id lo hi (u ∷ ts) t c e = elim (Bool-cases (u.block == id)) [
  | inl here ↦ ground (arith, here, c.0)
  | inr later ↦
      let ih = find_block-above id u.to hi ts t c.2 (ground (arith, later)) in
      (omega (arith, ih.0, c.0, c.1), ih.1)
]

-- The ids of a block's transfer lead back to it.
find_chunk-find_block :
    (id chunk lo hi : ℕ) (ts : List Allocated) (t : Allocated)
    → Chain lo ts hi
    → find_block id ts ≡ some t
    → t.from ≤ chunk
    → chunk < t.to
    → find_chunk chunk ts ≡ some t
unfolding find_chunk find_block
find_chunk-find_block id chunk lo hi [] t c e l h = cc
find_chunk-find_block id chunk lo hi (u ∷ ts) t c e l h = elim (Bool-cases (u.block == id)) [
  | inl here ↦ ground (arith, here)
  | inr later ↦
      let rest : find_block id ts ≡ some t = ground (arith, later) in
      let above = find_block-above id u.to hi ts t c.2 rest in
      ground (arith, above.0, find_chunk-find_block id chunk u.to hi ts t c.2 rest l h)
]

find_block-append :
    (id : ℕ) (ts : List Allocated) (t : Allocated)
    → find_block id ts ≡ none
    → t.block ≡ id
    → find_block id (ts ++ t ∷ []) ≡ some t
unfolding find_block
find_block-append id [] t e h = ground (arith, h, ==_iff t.block id)
find_block-append id (u ∷ ts) t e h = elim (Bool-cases (u.block == id)) [
  | inl here ↦ ground (arith, here)
  | inr later ↦ ground (arith, later, find_block-append id ts t)
]

-- What a request gets: the ids still stand one after the other, each id of the answer leads to the
-- block, and the same request again changes nothing and gets the same answer.
pub record Served (lo id : ℕ) (db : BlockDb) (out : TransferOut) (r : BlockRequestResponse)
    : Type 0 where
  pub chained : Chain lo out.transfers out.transfer_cursor
  pub leads :
      (chunk : ℕ)
      → r.start_id ≤ chunk
      → chunk < r.end_id
      → (t : Allocated) × (find_chunk chunk out.transfers ≡ some t)
        × (t.block ≡ id)
        × (t.from ≡ r.start_id)
  pub again : block_request id db out ≡ some (out, r)

served :
    (lo id : ℕ) (block : Block) (db : BlockDb) (out : TransferOut) (t : Allocated)
    → get id db ≡ some block
    → Chain lo out.transfers out.transfer_cursor
    → find_block id out.transfers ≡ some t
    → Served lo id db out (response t (len block))
unfolding block_request
served lo id block db out t e c f = record {
  chained = c;
  leads = λ chunk l h. (
    t,
    find_chunk-find_block id chunk lo out.transfer_cursor out.transfers t c f l h,
    (find_block-above id lo out.transfer_cursor out.transfers t c f).1,
    refl,
  );
  again = ground (arith, e, f);
}

-- A request for a block of the store, to a sender whose transfers take up ids one after the other, is
-- answered with chunk ids that all lead back to this block, whether it has been asked for before or
-- not; the transfers still take up ids one after the other, and a repeated request gets the same ones
-- and changes nothing. The counter of the ids must not overflow.
pub block_request-Served :
    (lo id : ℕ) (block : Block) (db : BlockDb) (out : TransferOut)
    → get id db ≡ some block
    → Chain lo out.transfers out.transfer_cursor
    → out.transfer_cursor + len block < 2 ^ 64
    → (out' : TransferOut) × (r : BlockRequestResponse) × (block_request id db out ≡ some (out', r))
      × (r.blockid ≡ id)
      × (r.len ≡ len block)
      × Served lo id db out' r
unfolding block_request
block_request-Served lo id block db out e c h = elim (Option-cases (find_block id out.transfers)) [
  | inr (t, f) ↦ (
    out,
    response t (len block),
    ground (arith, e, f),
    (find_block-above id lo out.transfer_cursor out.transfers t c f).1,
    refl,
    served lo id block db out t e c f,
  )
  | inl f ↦
      let t : Allocated = record {
        from = out.transfer_cursor;
        to = add64 out.transfer_cursor (len block);
        block = id;
      } in
      let up : t.from ≤ t.to = omega (arith, add64-eq out.transfer_cursor (len block) h) in
      let out' : TransferOut = record out {
        transfer_cursor = t.to;
        transfers = out.transfers ++ t ∷ [];
      } in
      (
        out',
        response t (len block),
        ground (arith, e, f),
        refl,
        refl,
        served lo id block db out' t e
            (Chain-append lo out.transfer_cursor out.transfers t c refl up)
            (find_block-append id out.transfers t f refl),
      )
]
