-- ===== src/Csync/Receiver/Tests.antt =====
-- An upload of four bytes, which are one chunk.
use das_protokoll.Base.{
  All, ℕ, suc, zero, ap, ◌+◌, ◌*◌, ◌<◌, ◌≡◌, refl, true, false, none, some, List, [], ◌∷◌, ◌++◌,
  length, arith, take, get_elem?, ◌⊎◌, ◌==◌,
}
use das_protokoll.Base.Word.{sub64, add64}
use das_protokoll.BitMap.{BitMap, count_zeroes}
use das_protokoll.BitMap
use das_protokoll.BitMap.View.{view, IsValid}
use das_protokoll.Crates.Instances.{byteorder}
use das_protokoll.Csync.Async.{Poll, ready, not_ready, upload_start, upload_status}
use das_protokoll.Csync.Chunks.{
  mtu, ChunkInfo, Chunk, decode, index_field_size, count_chunks, find_field_size,
}
use das_protokoll.Csync.Chunks.Sizes.{Cuts}
use das_protokoll.Csync.Congestion.{CongestionInfo}
use das_protokoll.Csync.Congestion
use das_protokoll.Csync.Receiver.{
  World, Receiver, Event, WritingChunk, wait_for_chunk, writing_chunk, shut_down, chunk_written,
  receive_chunk, on_datagram, poll, new, is_power_of_two, write_at, after_timer, finish_write,
  receive, write_all, finish, run, upload_request,
}
use das_protokoll.Csync.Receiver.Invariant.{Inv, poll-Inv}
use das_protokoll.Csync.Receiver.Uploading.{Uploading}
use das_protokoll.Csync.Receiver.Delivery.{DatagramHonest, upload_complete}
use das_protokoll.Csync.Receiver.Upload.{new-Uploading}
use das_protokoll.Csync.Receiver.Appending.{HasBytes}
use das_protokoll.Csync.Receiver.Resumed.{resumed_upload}

abbrev four : ℕ → ℕ
four ipt = 4

abbrev source : List ℕ
source = 7 ∷ 8 ∷ 9 ∷ 10 ∷ []

abbrev info : ChunkInfo
info = record { index_field_size = 1; chunk_size = 1459; num_chunks = 1; last_chunk_size = 4 }

abbrev fresh_map : BitMap
fresh_map = record { buf = 0 ∷ []; num_bits = 1; zeroes = 1 }

fresh_map-IsValid : IsValid fresh_map
unfolding count_zeroes
fresh_map-IsValid = record {
  bytes = (omega arith, tt);
  fits = omega arith;
  small = omega arith;
  counted = refl;
}

abbrev world : World
world = record {
  bitmap = fresh_map;
  file = 0 ∷ 0 ∷ 0 ∷ 0 ∷ [];
  append = false;
  bitmap_exists = true;
  sent = [];
}

abbrev congestion : CongestionInfo
congestion = record {
  rtt_start = none;
  rtts = [];
  rtt = 0;
  last_ipt = none;
  ipts = [];
  ipt = 0;
  last_notify = 0;
  packets_since_last_notify = 0;
  delay = none;
  done = false;
}

abbrev receiver : Receiver
receiver = record {
  state = wait_for_chunk (record { buf = []; chunk_info = info });
  congestion = congestion;
}

abbrev first_chunk : Chunk
first_chunk = record { index_field_size = 1; index = 0; buf = 0 ∷ 7 ∷ 8 ∷ 9 ∷ 10 ∷ [] }

abbrev last_message : Chunk
last_message = record { index_field_size = 1; index = 1; buf = 1 ∷ [] }

abbrev write : WritingChunk
write = record { chunk_info = info; chunk = first_chunk; position = 0 }

abbrev clocked : CongestionInfo
clocked = record congestion { last_ipt = some 50 }

last_decoded : decode byteorder (take mtu (1 ∷ [])) 1 ≡ some last_message
unfolding decode
last_decoded = refl

abbrev quiet : ℕ → Poll (List ℕ) → Event
quiet now received = record {
  now = now;
  timer = not_ready;
  written = ready tt;
  received = received;
}

abbrev chunk_datagram : List ℕ
chunk_datagram = 0 ∷ 7 ∷ 8 ∷ 9 ∷ 10 ∷ []

first_decoded : decode byteorder (take mtu chunk_datagram) 1 ≡ some first_chunk
unfolding decode
first_decoded = refl

first_honest : DatagramHonest source info four byteorder chunk_datagram
first_honest c e h = let same : first_chunk ≡ c = cc first_decoded in rw (← same) refl

last_honest : DatagramHonest source info four byteorder (1 ∷ [])
last_honest c e h =
    let same : last_message ≡ c = cc last_decoded in
    absurd (omega (arith, ap (λ (x : Chunk). x.index) same))

abbrev events : List Event
events = quiet 50 (ready chunk_datagram) ∷ quiet 60 (ready (1 ∷ [])) ∷ []

abbrev world_after : World
world_after = record {
  bitmap = record { buf = 1 ∷ []; num_bits = 1; zeroes = 0 };
  file = source;
  append = false;
  bitmap_exists = false;
  sent = upload_status ∷ [];
}

abbrev receiver_after : Receiver
receiver_after = record { state = shut_down (1 ∷ []); congestion = record clocked { done = true } }

uploaded : run four byteorder events world receiver ≡ some (world_after, receiver_after)
unfolding run poll decode after_timer Congestion.poll finish_write receive on_datagram sub64
    receive_chunk Congestion.ipt_packet BitMap.get chunk_written BitMap.set write_all finish
    is_power_of_two Congestion.shutdown write_at BitMap.all
uploaded = refl

upload_started : Uploading source info world receiver
upload_started = record {
  valid = fresh_map-IsValid;
  sized = refl;
  in_place = refl;
  honest = refl;
  agrees = record { same_length = refl; held = λ i e. no_ones i e };
  removed = λ h. cc;
}
  where
    no_ones :
        (i : ℕ)
        → get_elem? (view fresh_map) i ≡ some true
        → (j : ℕ) → j < 1459
        → i * 1459 + j < 4
        → get_elem? world.file (i * 1459 + j) ≡ get_elem? source (i * 1459 + j)
    no_ones zero e = cc
    no_ones (suc i) e = cc

upload_complete_example : world_after.file ≡ source
upload_complete_example =
    upload_complete source info four byteorder events world world_after receiver receiver_after
      (omega arith, omega arith) upload_started (first_honest, (last_honest, tt)) uploaded refl

abbrev started : Receiver
started = record { state = writing_chunk write; congestion = clocked }

begun :
    poll four byteorder (quiet 50 (ready chunk_datagram)) world receiver
    ≡ some (world, started, ready tt)
unfolding poll decode after_timer Congestion.poll finish_write receive on_datagram sub64
    receive_chunk Congestion.ipt_packet BitMap.get
begun = refl

poll-Inv_example : Inv world started
poll-Inv_example =
    poll-Inv four byteorder (quiet 50 (ready chunk_datagram)) world world receiver started
      (ready tt) (record { valid = fresh_map-IsValid; fits = refl }) begun

new-Uploading_example :
    (info : ChunkInfo) × (w' : World) × (r' : Receiver) × (index_field_size (length source)
      ≡ some info)
    × Cuts (length source) info
    × (new (λ bytes. some bytes) 40 (length source) none [] world ≡ some (w', r'))
    × Uploading source info w' r'
    × All (λ b. b ≡ false) (view w'.bitmap)
    × (w'.sent ≡ ([] ++ upload_start ∷ []) ++ upload_status ∷ [])
    × (Congestion.is_rtt_running r'.congestion ≡ true)
new-Uploading_example =
    new-Uploading (λ bytes. some bytes) 40 source [] world (omega arith) (omega arith) (λ n h. refl)

-- The upload goes on with a map that has no chunk; the stored file is all zeros.
abbrev resumed_world : World
resumed_world = record {
  bitmap = fresh_map;
  file = 0 ∷ 0 ∷ 0 ∷ 0 ∷ [];
  append = true;
  bitmap_exists = true;
  sent = upload_start ∷ upload_status ∷ [];
}

abbrev resumed_receiver : Receiver
resumed_receiver = record receiver {
  congestion = record congestion { rtt_start = some 40; last_notify = 40 };
}

resumes :
    new (λ bytes. some bytes) 40 4 (some (0 ∷ [])) [] world ≡ some (resumed_world, resumed_receiver)
unfolding new upload_request Congestion.new Congestion.start_rtt index_field_size find_field_size
    add64 count_chunks sub64 BitMap.with_length BitMap.iter_bits count_zeroes
resumes = refl

abbrev spoilt_world : World
spoilt_world = record {
  bitmap = record { buf = 1 ∷ []; num_bits = 1; zeroes = 0 };
  file = 0 ∷ 0 ∷ 0 ∷ 0 ∷ source;
  append = true;
  bitmap_exists = false;
  sent = upload_start ∷ upload_status ∷ upload_status ∷ [];
}

abbrev spoilt_receiver : Receiver
spoilt_receiver = record {
  state = shut_down (1 ∷ []);
  congestion = record clocked { rtt_start = some 40; last_notify = 40; done = true };
}

-- The map is removed although the file is not the client's.
spoils :
    run four byteorder events resumed_world resumed_receiver ≡ some (spoilt_world, spoilt_receiver)
unfolding run poll decode after_timer Congestion.poll finish_write receive on_datagram sub64
    receive_chunk Congestion.ipt_packet BitMap.get chunk_written BitMap.set write_all finish
    is_power_of_two Congestion.shutdown write_at BitMap.all
spoils = refl

first-HasBytes : HasBytes byteorder info chunk_datagram
first-HasBytes c e h = let same : first_chunk ≡ c = cc first_decoded in rw (← same) (omega arith)

last-HasBytes : HasBytes byteorder info (1 ∷ [])
unfolding sub64
last-HasBytes c e h =
    let same : last_message ≡ c = cc last_decoded in
    absurd (cc (h, ap (λ (x : Chunk). sub64 x.index 1 == 0) same))

one_chunk : index_field_size 4 ≡ some info
unfolding index_field_size find_field_size add64 count_chunks sub64
one_chunk = refl

resumed_upload_example :
    (added : List ℕ) × (spoilt_world.file ≡ 0 ∷ 0 ∷ 0 ∷ 0 ∷ [] ++ added)
    × ((spoilt_world.bitmap ≡ resumed_world.bitmap) ⊎ (4 < length spoilt_world.file))
resumed_upload_example =
    resumed_upload four byteorder (λ bytes. some bytes) 40 4 (0 ∷ []) [] info world resumed_world
      spoilt_world resumed_receiver spoilt_receiver events one_chunk resumes
      (first-HasBytes, (last-HasBytes, tt)) spoils
