-- ===== src/Csync/Client/Tests.antt =====
-- The client with a file of four bytes.
use das_protokoll.Base.{ℕ, suc, ◌-◌, ◌≤◌, ◌≡◌, refl, some, List, [], ◌∷◌, length, take, arith}
use das_protokoll.Base.Word.{add64}
use das_protokoll.BitMap.{BitMap, count_zeroes}
use das_protokoll.BitMap.View.{IsValid}
use das_protokoll.Crates.Instances.{varmint, itertools, byteorder}
use das_protokoll.Csync.Chunks.{mtu, ChunkInfo, Chunk, payload, decode, count_chunks}
use das_protokoll.Csync.Chunks.Sizes.{Cuts}
use das_protokoll.Csync.Status.{MissingRanges, default, write_runlength_encoded}
use das_protokoll.Csync.Status.Gaps.{covers}
use das_protokoll.Csync.Client.{
  Client, ChunkSend, waiting, status_update, read_exact, chunk_send, step, pump,
}
use das_protokoll.Csync.Client.Datagrams.{ReadFor, chunk_send_lem}
use das_protokoll.Csync.Client.Pumping.{indices, pump-indices}
use das_protokoll.Csync.Client.Updates.{Resumes, step-Resumes}

abbrev source : List ℕ
source = 7 ∷ 8 ∷ 9 ∷ 10 ∷ []

abbrev info : ChunkInfo
info = record { index_field_size = 1; chunk_size = 1459; num_chunks = 1; last_chunk_size = 4 }

info-Cuts : Cuts 4 info
unfolding count_chunks add64
info-Cuts = record {
  smallest = record {
    at_least = omega arith;
    at_most = omega arith;
    enough = omega arith;
    minimal = λ j a b. absurd (omega arith);
  };
  sized = refl;
  covers_file = (omega arith, omega arith);
  numbered = omega arith;
  last = refl;
}

chunk_send_example :
    (s : ChunkSend) × (datagram : List ℕ) × (chunk : Chunk) × (chunk_send byteorder info [] 0
      ≡ some s)
    × (read_exact source s ≡ some datagram)
    × (length datagram ≤ mtu)
    × (decode byteorder (take mtu datagram) 1 ≡ some chunk)
    × (chunk.index ≡ 0)
    × ReadFor source info (omega arith) info-Cuts 0 (payload chunk)
chunk_send_example = chunk_send_lem source info (omega arith) info-Cuts byteorder [] 0 (omega arith)

abbrev two_ranges : MissingRanges
two_ranges = record {
  missing = record { from = 1; to = 2 } ∷ record { from = 3; to = 5 } ∷ [];
  cursor = 1;
}

pump-indices_example : pump (suc 6) two_ranges ≡ some (indices two_ranges.missing 1 (6 - 1))
pump-indices_example =
    pump-indices two_ranges 6 (omega arith, omega arith, (omega arith, omega arith, tt))
      (omega arith, (omega arith, tt)) (omega arith) (omega arith)

the_missing : indices two_ranges.missing 1 (6 - 1) ≡ 1 ∷ 3 ∷ 4 ∷ []
unfolding indices covers
the_missing = refl

abbrev fresh_map : BitMap
fresh_map = record { buf = 0 ∷ []; num_bits = 1; zeroes = 1 }

fresh_map-IsValid : IsValid fresh_map
unfolding count_zeroes
fresh_map-IsValid = record {
  bytes = (omega arith, tt);
  fits = omega arith;
  small = omega arith;
  counted = refl;
}

abbrev idle : Client
idle = record { missing = default; phase = waiting; sent = [] }

step-Resumes_example :
    (bytes : List ℕ) × (c' : Client) × (write_runlength_encoded varmint fresh_map 1460
      ≡ some (length bytes, bytes))
    × (step byteorder info varmint itertools source (status_update bytes) idle ≡ some c')
    × (c'.sent ≡ [])
    × Resumes source info (omega arith) info-Cuts byteorder fresh_map c'.phase
step-Resumes_example =
    step-Resumes source info (omega arith) info-Cuts byteorder varmint itertools fresh_map 1460 idle
      fresh_map-IsValid refl (omega arith) refl
