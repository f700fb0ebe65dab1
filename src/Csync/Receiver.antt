-- ===== src/Csync/Receiver.antt =====
-- v1/csync/src/server/receiver.rs: the half of the server that receives the chunks of one upload.
-- `World` is what the receiver shares with its surroundings: the map (with the sender), the file, whether
-- the map is kept on disk, and the channel to the sender. `none` is a panic. What the socket, the file
-- and the timer answer to a poll is in the `Event` of that poll.
pub mod Upload
pub mod Invariant
pub mod Transitions
pub mod WriteAt
pub mod Integrity
pub mod Uploading
pub mod Delivery
pub mod Appending
pub mod Resumed
mod Tests
use das_protokoll.Base.{
  ℕ, zero, suc, ◌+◌, ◌-◌, ◌*◌, ◌/◌, ◌%◌, ◌^◌, Bool, true, false, Option, none, some, List, [], ◌∷◌,
  ◌++◌, ltb, leb, ◌==◌, if◌then◌else◌, ◌>>=◌, ◌>>◌, assert, length, take, drop, replicate, not,
  ◌&&◌, ◌||◌,
}
use das_protokoll.Base.Word.{sub64}
use das_protokoll.BitMap.{BitMap}
use das_protokoll.BitMap
use das_protokoll.Crates.{Byteorder}
use das_protokoll.Csync.Async.{
  Poll, ready, not_ready, failed, ChannelMessage, upload_start, upload_status,
}
use das_protokoll.Csync.Chunks.{
  mtu, resize, ChunkInfo, Chunk, decode, into_vec, payload, index_field_size,
}
use das_protokoll.Csync.Congestion.{CongestionInfo}
use das_protokoll.Csync.Congestion

pub record World : Type 0 where
  pub bitmap : BitMap
  pub file : List ℕ
  -- Whether the file was opened with `append(true)`.
  pub append : Bool
  pub bitmap_exists : Bool
  pub sent : List ChannelMessage

pub record WaitForChunk : Type 0 where
  pub buf : List ℕ
  pub chunk_info : ChunkInfo

-- The write that is under way: the chunk, and where `seek` has put the file.
pub record WritingChunk : Type 0 where
  pub chunk_info : ChunkInfo
  pub chunk : Chunk
  pub position : ℕ

pub data State : Type 0 where
  invalid : State
  wait_for_ack : WaitForChunk → State
  wait_for_chunk : WaitForChunk → State
  writing_chunk : WritingChunk → State
  shut_down : List ℕ → State

pub record Receiver : Type 0 where
  pub state : State
  pub congestion : CongestionInfo

pub record Event : Type 0 where
  pub now : ℕ
  pub timer : Poll (Unit {0})
  pub written : Poll (Unit {0})
  pub received : Poll (List ℕ)

abbrev pub send : ChannelMessage → World → World
send msg w = record w { sent = w.sent ++ msg ∷ [] }

-- A datagram over the front of a buffer, as much of it as there is room for.
abbrev pub recv_into : List ℕ → List ℕ → List ℕ
recv_into buf datagram =
    take (length buf) datagram ++ drop (length (take (length buf) datagram)) buf

-- The buffer of a receiver that waits, grown to a whole datagram.
abbrev pub grown : WaitForChunk → Receiver → Receiver
grown s r = record r { state = wait_for_chunk (record s { buf = resize s.buf mtu 0 }) }

-- A write at a position; a file that is too short is filled up with zeros.
unfoldable pub write_at : List ℕ → ℕ → List ℕ → List ℕ
write_at file position bytes =
    take position (file ++ replicate (position - length file) 0)
    ++ (bytes ++ drop (position + length bytes) file)

-- In append mode each write goes to the end of the file, wherever `seek` has put it.
unfoldable pub write_all : World → ℕ → List ℕ → World
write_all w position bytes = record w {
  file = if w.append then w.file ++ bytes else write_at w.file position bytes;
}

-- A map file that is not there is made, of zeros.
abbrev pub stored_or : Option (List ℕ) → ℕ → List ℕ
stored_or none len = replicate len 0
stored_or (some bytes) len = bytes

-- `OpenOptions` and `memmap` are outside: `map_mut` is the mapping of the map file's bytes, which may
-- fail. `stored` are the bytes of a map file that is there.
module _ (map_mut : List ℕ → Option (List ℕ)) where
  unfoldable pub upload_request :
      ℕ → Option (List ℕ) → List ℕ → World → Receiver → Option (World × Receiver)
  upload_request req_length stored old_file w r = do
    chunk_info ← index_field_size req_length
    let bitmap_file_len = (chunk_info.num_chunks + 7) / 8
    mmap ← map_mut (stored_or stored bitmap_file_len)
    bitmap ← BitMap.with_length mmap chunk_info.num_chunks
    let world = send upload_start (record w {
      bitmap = bitmap;
      file = resize old_file req_length 0;
      append = Congestion.is_some stored;
      bitmap_exists = true;
    })
    some (world, record r { state = wait_for_chunk (record { buf = []; chunk_info = chunk_info }) })

  -- `Receiver::new`, of a login with an upload request.
  unfoldable pub new : ℕ → ℕ → Option (List ℕ) → List ℕ → World → Option (World × Receiver)
  new now req_length stored old_file w = do
    let fresh : Receiver = record { state = invalid; congestion = Congestion.new now }
    (w', r) ← upload_request req_length stored old_file w fresh
    congestion ← Congestion.start_rtt now r.congestion
    some (send upload_status w', record r { congestion = congestion })

-- `is_power_of_two`, for a `u64`.
abbrev is_power_below : ℕ → ℕ → Bool
is_power_below zero n = false
is_power_below (suc k) n = n == 2 ^ k || is_power_below k n

unfoldable pub is_power_of_two : ℕ → Bool
is_power_of_two n = is_power_below 64 n

-- The client's last message.
unfoldable pub finish : Chunk → World → Receiver → World × Receiver
finish chunk w r = (
  record w { bitmap_exists = w.bitmap_exists && not (BitMap.all w.bitmap) },
  record { state = shut_down (into_vec chunk); congestion = Congestion.shutdown r.congestion },
)

unfoldable pub ack : ℕ → WaitForChunk → Receiver → Option Receiver
ack now s r = do
  congestion ← Congestion.stop_rtt now r.congestion
  rtt ← Congestion.get_rtt congestion
  some (record { state = wait_for_chunk s; congestion = congestion })

-- The chunk is in the file: its bit is set, and the sender is told where the zeroes left are a power
-- of two or none.
unfoldable pub chunk_written : WritingChunk → World → Receiver → Option (World × Receiver)
chunk_written s w r = do
  let w' = write_all w s.position (payload s.chunk)
  (bitmap, _) ← BitMap.set w'.bitmap s.chunk.index true
  let w'' = record w' { bitmap = bitmap }
  let report = is_power_of_two bitmap.zeroes || bitmap.zeroes == 0
  some (
    if report then send upload_status w'' else w'',
    record r {
      state = wait_for_chunk (record { buf = into_vec s.chunk; chunk_info = s.chunk_info });
    },
  )

module _ (packets_for : ℕ → ℕ) where
  -- `bitmap` is asked for the bit before the chunk is written.
  unfoldable pub receive_chunk :
      ℕ → Chunk → ChunkInfo → World → Receiver → Option (World × Receiver)
  receive_chunk now chunk chunk_info w r = do
    (congestion, _) ← Congestion.ipt_packet packets_for now r.congestion
    old ← BitMap.get w.bitmap chunk.index
    let waiting = wait_for_chunk (record { buf = into_vec chunk; chunk_info = chunk_info })
    let writing = writing_chunk (record {
      chunk_info = chunk_info;
      chunk = chunk;
      position = chunk.index * chunk_info.chunk_size;
    })
    some (w, record { state = if old then waiting else writing; congestion = congestion })

  module _ (B : Byteorder) where
    -- A datagram in the state `wait_for_chunk`. The socket gives at most `mtu` bytes of it.
    unfoldable pub on_datagram :
        ℕ → List ℕ → ChunkInfo → World → Receiver → Option (World × Receiver)
    on_datagram now datagram chunk_info w r = do
      chunk ← decode B (take mtu datagram) chunk_info.index_field_size
      if sub64 chunk.index chunk_info.num_chunks == 0
          then some (finish chunk w r)
          else receive_chunk now chunk chunk_info w r

    abbrev pub continue : Option (World × Receiver) → Option (World × Receiver × Poll (Unit {0}))
    continue none = none
    continue (some (w, r)) = some (w, r, ready tt)

    -- The part of `poll` behind the write, by the state and by what the socket gives.
    unfoldable pub receive :
        ℕ → State → Poll (List ℕ) → World → Receiver → Option (World × Receiver × Poll (Unit {0}))
    receive now invalid received w r = none
    receive now (writing_chunk s) received w r = none
    receive now (wait_for_ack s) not_ready w r = some (w, r, not_ready)
    receive now (wait_for_ack s) failed w r = some (w, r, failed)
    receive now (wait_for_ack s) (ready datagram) w r = do
      r' ← ack now (record s { buf = recv_into s.buf datagram }) r
      some (w, r', ready tt)
    receive now (wait_for_chunk s) not_ready w r = some (w, grown s r, not_ready)
    receive now (wait_for_chunk s) failed w r = some (w, grown s r, failed)
    receive now (wait_for_chunk s) (ready datagram) w r =
        continue (on_datagram now datagram s.chunk_info w r)
    receive now (shut_down buf) not_ready w r =
        some (w, record r { state = shut_down (resize buf mtu 0) }, not_ready)
    receive now (shut_down buf) failed w r =
        some (w, record r { state = shut_down (resize buf mtu 0) }, failed)
    receive now (shut_down buf) (ready datagram) w r =
        let full = recv_into (resize buf mtu 0) datagram in
        some (w, record r { state = shut_down full }, ready tt)

    -- The part behind the timer: a write that is under way comes first.
    unfoldable pub finish_write :
        Event
        → State
        → Poll (Unit {0})
        → World
        → Receiver
        → Option (World × Receiver × Poll (Unit {0}))
    finish_write ev (writing_chunk s) not_ready w r = some (w, r, not_ready)
    finish_write ev (writing_chunk s) failed w r = some (w, r, failed)
    finish_write ev (writing_chunk s) (ready _) w r = do
      (w', r') ← chunk_written s w r
      receive ev.now r'.state ev.received w' r'
    finish_write ev s written w r = receive ev.now s ev.received w r

    -- A failed timer is an error; a due update is asked of the sender first of all.
    unfoldable pub after_timer :
        Event → Poll (Unit {0}) → World → Receiver → Option (World × Receiver × Poll (Unit {0}))
    after_timer ev failed w r = some (w, r, failed)
    after_timer ev not_ready w r = finish_write ev r.state ev.written w r
    after_timer ev (ready _) w r = finish_write ev r.state ev.written (send upload_status w) r

    unfoldable pub poll : Event → World → Receiver → Option (World × Receiver × Poll (Unit {0}))
    poll ev w r =
        let tick = Congestion.poll packets_for ev.now ev.timer r.congestion in
        after_timer ev tick.1 w (record r { congestion = tick.0 })

    -- The stream is polled, one event after the other, until it fails.
    unfoldable pub run : List Event → World → Receiver → Option (World × Receiver)
    run [] w r = some (w, r)
    run (ev ∷ evs) w r = do
      (w', r', answer) ← poll ev w r
      elim answer [ failed ↦ some (w', r') | not_ready ↦ run evs w' r' | ready _ ↦ run evs w' r' ]
