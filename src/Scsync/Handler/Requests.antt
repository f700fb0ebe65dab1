-- ===== src/Scsync/Handler/Requests.antt =====
-- v2/scsync/src/handler.rs: the requests for the blocks that a complete block names.
use das_protokoll.Base.{
  ℕ, suc, ◌≡◌, refl, sym, ◌∙◌, ap, false, Option, none, some, List, [], ◌∷◌, ◌++◌, ◌==◌, ==_iff,
  ◌↔◌, Bool-cases, inl, inr, In, In-append_right, In-append_left, In-append-cases,
}
use mathlib.Core.Path.{subst}
use das_protokoll.Base.Assoc.{find_key, insert_key, find_key-insert_self, find_key-insert_ne}
use das_protokoll.Scsync.BlockDb.{BlockDb, contains}
use das_protokoll.Scsync.Handler.{
  Client, cancel, spawn_retry, each, send_block_request, request_missing,
}

-- A request for the block is pending.
abbrev pub Pending : ℕ → Client → Type 0
Pending id client = (channel : ℕ) × (find_key id client.pending_block_requests ≡ some channel)

send_block_request-Pending :
    (addr id channel other : ℕ) (client : Client)
    → Pending other client
    → Pending other ((send_block_request addr id channel client).0)
unfolding send_block_request
send_block_request-Pending addr id channel other client (c, e) = elim (Bool-cases (id == other)) [
  | inl same ↦ (
    channel,
    ap (λ i. find_key i (insert_key id channel client.pending_block_requests))
          (sym ((==_iff id other).0 same))
        ∙ find_key-insert_self id channel client.pending_block_requests,
  )
  | inr unlike ↦ (
    c,
    find_key-insert_ne id other channel client.pending_block_requests
          (λ (same : id ≡ other). cc (sym unlike ∙ (==_iff id other).1 same))
        ∙ e,
  )
]

kept-Pending :
    (addr : ℕ) (db : BlockDb) (ids : List ℕ) (channel other : ℕ) (client : Client)
    → Pending other client
    → Pending other ((request_missing addr db ids channel client).0)
unfolding request_missing
kept-Pending addr db [] channel other client p = p
kept-Pending addr db (id ∷ ids) channel other client p = elim (Bool-cases (contains id db)) [
  | inl has ↦ rw has (kept-Pending addr db ids channel other client p)
  | inr lacks ↦ rw lacks (
      kept-Pending addr db ids (suc channel) other ((send_block_request addr id channel client).0)
        (send_block_request-Pending addr id channel other client p))
]

first_requested :
    (addr : ℕ) (db : BlockDb) (id : ℕ) (ids : List ℕ) (channel : ℕ) (client : Client)
    → contains id db ≡ false
    → let (client', channel', effects) = request_missing addr db (id ∷ ids) channel client in
      Pending id client' × ((c : ℕ) × In (spawn_retry c addr id) effects)
unfolding request_missing
first_requested addr db id ids channel client lacks =
    let (opened, sent) = send_block_request addr id channel client in
    rw lacks (
      kept-Pending addr db ids (suc channel) id opened (
          unfold send_block_request in
          (channel, find_key-insert_self id channel client.pending_block_requests)),
      (
        channel,
        In-append_left (spawn_retry channel addr id) sent _ (
            unfold send_block_request in
            In-append_right (spawn_retry channel addr id)
              (each cancel (find_key id client.pending_block_requests)) _ (inl refl)),
      ),
    )

requested :
    (addr : ℕ) (db : BlockDb) (ids : List ℕ) (channel : ℕ) (client : Client) (id : ℕ)
    → In id ids
    → contains id db ≡ false
    → let (client', channel', effects) = request_missing addr db ids channel client in
      Pending id client' × ((c : ℕ) × In (spawn_retry c addr id) effects)
unfolding request_missing
requested addr db [] channel client id m lacks = absurd m
requested addr db (i ∷ ids) channel client id (inl e) lacks =
    subst
      (λ j.
        let (client', channel', effects) = request_missing addr db (i ∷ ids) channel client in
        Pending j client' × ((c : ℕ) × In (spawn_retry c addr j) effects))
      e (first_requested addr db i ids channel client (ap (λ j. contains j db) e ∙ lacks))
requested addr db (i ∷ ids) channel client id (inr m) lacks = elim (Bool-cases (contains i db)) [
  | inl has ↦ rw has (requested addr db ids channel client id m lacks)
  | inr none_there ↦
      let (opened, sent) = send_block_request addr i channel client in
      let (pending, (c, sends)) = requested addr db ids (suc channel) opened id m lacks in
      rw none_there (pending, (c, In-append_right (spawn_retry c addr id) sent _ sends))
]

-- A single request names its block.
sent_names :
    (addr i channel : ℕ) (client : Client) (c id : ℕ)
    → In (spawn_retry c addr id) ((send_block_request addr i channel client).1)
    → i ≡ id
unfolding send_block_request
sent_names addr i channel client c id m = by_old (find_key i client.pending_block_requests) m
  where
    by_old :
        (o : Option ℕ)
        → In (spawn_retry c addr id) (each cancel o ++ spawn_retry channel addr i ∷ [])
        → i ≡ id
    by_old none (inl e) = cc
    by_old none (inr m') = absurd m'
    by_old (some d) (inl e) = cc
    by_old (some d) (inr (inl e)) = cc
    by_old (some d) (inr (inr m')) = absurd m'

only_missing :
    (addr : ℕ) (db : BlockDb) (ids : List ℕ) (channel : ℕ) (client : Client) (c id : ℕ)
    → In (spawn_retry c addr id) ((request_missing addr db ids channel client).2)
    → In id ids × (contains id db ≡ false)
unfolding request_missing
only_missing addr db [] channel client c id m = absurd m
only_missing addr db (i ∷ ids) channel client c id m = elim (Bool-cases (contains i db)) [
  | inl has ↦
      let (named, lacks) = only_missing addr db ids channel client c id (rw has at m) in
      (inr named, lacks)
  | inr none_there ↦
      let (opened, sent) = send_block_request addr i channel client in
      elim (In-append-cases (spawn_retry c addr id) sent _ (rw none_there at m)) [
        | inl here ↦
            let same = sent_names addr i channel client c id here in
            (inl same, ap (λ j. contains j db) (sym same) ∙ none_there)
        | inr later ↦
            let (named, lacks) = only_missing addr db ids (suc channel) opened c id later in
            (inr named, lacks)
      ]
]

-- Of the blocks that a complete block names, exactly those are requested that the store does not have, not
-- even in part: for each of them a task is started that repeats the request, and the request is pending.
pub request_missing_lem :
    (addr : ℕ) (db : BlockDb) (ids : List ℕ) (channel : ℕ) (client : Client) (id : ℕ)
    → let (client', channel', effects) = request_missing addr db ids channel client in
      ((In id ids × (contains id db ≡ false)) → Pending id client')
      × (((c : ℕ) × In (spawn_retry c addr id) effects) ↔ (In id ids × (contains id db ≡ false)))
request_missing_lem addr db ids channel client id = (
  λ (m, lacks). (requested addr db ids channel client id m lacks).0,
  (
    λ (c, m). only_missing addr db ids channel client c id m,
    λ (m, lacks). (requested addr db ids channel client id m lacks).1,
  ),
)

-- The requests do not touch the transfers.
pub request_missing-transfer_in :
    (addr : ℕ) (db : BlockDb) (ids : List ℕ) (channel : ℕ) (client : Client)
    → (request_missing addr db ids channel client).0.transfer_in ≡ client.transfer_in
unfolding request_missing send_block_request
request_missing-transfer_in addr db [] channel client = refl
request_missing-transfer_in addr db (i ∷ ids) channel client = elim (Bool-cases (contains i db)) [
  | inl has ↦ rw has (request_missing-transfer_in addr db ids channel client)
  | inr none_there ↦ rw none_there (request_missing-transfer_in addr db ids (suc channel) _)
]
