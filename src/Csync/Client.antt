-- ===== src/Csync/Client.antt =====
-- v1/csync/src/client.rs: the client's loop. It sends the missing chunks one after the other, and reads
-- status updates meanwhile; `none` is a panic. The socket takes whole datagrams; which of the two
-- futures is ready first is the event of a step.
pub mod Datagrams
pub mod Pumping
pub mod Updates
mod Tests
use das_protokoll.Base.{
  ℕ, zero, suc, ◌+◌, ◌-◌, ◌*◌, ◌%◌, ◌^◌, Bool, true, false, Option, none, some, List, [], ◌∷◌, ◌++◌,
  ◌==◌, if◌then◌else◌, ◌>>=◌, length, take, drop,
}
use das_protokoll.Base.Word.{sub64}
use das_protokoll.Crates.{Varmint, Itertools, Byteorder}
use das_protokoll.Csync.Chunks.{ChunkInfo, Chunk, into_vec, payload, fill}
use das_protokoll.Csync.Chunks
use das_protokoll.Csync.Status.{MissingRanges, next_chunk, parse_status_update}

-- The future of `do_chunk`: the chunk, and where `seek` has put the file.
pub record ChunkSend : Type 0 where
  pub chunk : Chunk
  pub position : ℕ

-- `chunk_send` is `Ok` (sending) or `Err` (waiting for an update); behind the loop, the last message.
pub data Phase : Type 0 where
  sending : ChunkSend → Phase
  waiting : Phase
  finished : List ℕ → Phase
  broken : Phase

pub record Client : Type 0 where
  pub missing : MissingRanges
  pub phase : Phase
  pub sent : List (List ℕ)

pub data Event : Type 0 where
  chunk_sent : Event
  status_update : List ℕ → Event

-- The indices that `do_chunk` gets, one call after the other and with no update between, until there is
-- none left and it waits; reading and sending are in `step`. `none`: not ended within the fuel.
unfoldable pub pump : ℕ → MissingRanges → Option (List ℕ)
pump zero missing = none
pump (suc fuel) missing = elim ((next_chunk missing).1) [
  | none ↦ some []
  | some chunk_cursor ↦ (do rest ← pump fuel ((next_chunk missing).0); some (chunk_cursor ∷ rest))
]

-- `io::read_exact` into the chunk: `none` is the error of a file that ends too soon.
unfoldable pub read_exact : List ℕ → ChunkSend → Option (List ℕ)
read_exact file s =
    let bytes = take (length (payload s.chunk)) (drop s.position file) in
    if length bytes == length (payload s.chunk) then some (into_vec (fill s.chunk bytes)) else none

abbrev pub payload_size : ChunkInfo → ℕ → ℕ
payload_size info chunk_cursor =
    if chunk_cursor == sub64 info.num_chunks 1 then info.last_chunk_size else info.chunk_size

module _ (B : Byteorder) (info : ChunkInfo) where
  unfoldable pub chunk_send : List ℕ → ℕ → Option ChunkSend
  chunk_send send_buf chunk_cursor = do
    chunk ←
        Chunks.new B send_buf chunk_cursor info.index_field_size (payload_size info chunk_cursor)
    some (record { chunk = chunk; position = chunk_cursor * info.chunk_size % 2 ^ 64 })

  unfoldable pub do_chunk : List ℕ → MissingRanges → Option (MissingRanges × Phase)
  do_chunk send_buf missing = elim ((next_chunk missing).1) [
    | none ↦ some ((next_chunk missing).0, waiting)
    | some chunk_cursor ↦ (do
      s ← chunk_send send_buf chunk_cursor
      some ((next_chunk missing).0, sending s))
  ]

  unfoldable pub last_message : List ℕ → Option Phase
  last_message send_buf = do
    chunk ← Chunks.new B send_buf info.num_chunks info.index_field_size 0
    some (finished (into_vec chunk))

  module _ (V : Varmint) (I : Itertools) (file : List ℕ) where
    -- A chunk has been read and sent: go send another.
    unfoldable pub send_next : ChunkSend → Client → Option Client
    send_next s c = elim (read_exact file s) [
      | none ↦ some (record c { phase = broken })
      | some datagram ↦ (do
        (missing, phase) ← do_chunk datagram c.missing
        some (record { missing = missing; phase = phase; sent = c.sent ++ datagram ∷ [] }))
    ]

    -- An update: the end, or a chunk that is being sent goes on, or sending starts again.
    unfoldable pub on_update : List ℕ → Client → Option Client
    on_update update c = do
      (missing, done) ← parse_status_update V I c.missing update
      if done
          then (do phase ← last_message []; some (record c { missing = missing; phase = phase }))
          else elim c.phase [
            | sending s ↦ some (record c { missing = missing })
            | waiting ↦ (do
              (missing', phase) ← do_chunk [] missing
              some (record c { missing = missing'; phase = phase }))
            | finished d ↦ some c
            | broken ↦ some c
          ]

    -- One round of the loop. What cannot be ready in a phase changes nothing.
    unfoldable pub step : Event → Client → Option Client
    step chunk_sent c = elim c.phase [
      | sending s ↦ send_next s c
      | waiting ↦ some c
      | finished d ↦ some c
      | broken ↦ some c
    ]
    step (status_update update) c = elim c.phase [
      | sending s ↦ on_update update c
      | waiting ↦ on_update update c
      | finished d ↦ some c
      | broken ↦ some c
    ]
