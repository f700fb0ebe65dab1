-- ===== src/Csync/Receiver/Transitions.antt =====
-- v1/csync/src/server/receiver.rs: what the single steps of the receiver do.
use das_protokoll.Base.{
  ℕ, ◌*◌, ◌<◌, ◌≡◌, refl, Bool, true, false, none, some, List, if◌then◌else◌, arith, inl, inr, ◌⊎◌,
  ◌↔◌, order_cases, get_elem?_below, take, get_elem?, All, not, ◌&&◌,
}
use das_protokoll.Base.Word.{sub64, sub64_self}
use das_protokoll.BitMap.{BitMap}
use das_protokoll.BitMap
use das_protokoll.BitMap.View.{view, IsValid, length-view}
use das_protokoll.BitMap.Access.{get-view}
use das_protokoll.BitMap.Edges.{out_of_bounds}
use das_protokoll.BitMap.Counts.{counts_lem}
use das_protokoll.Crates.{Byteorder}
use das_protokoll.Csync.Async.{Poll, ready, not_ready, failed}
use das_protokoll.Csync.Chunks.{mtu, ChunkInfo, Chunk, decode, into_vec}
use das_protokoll.Csync.Congestion.{CongestionInfo}
use das_protokoll.Csync.Congestion
use das_protokoll.Csync.Receiver.{
  World, Receiver, Event, wait_for_chunk, writing_chunk, shut_down, receive_chunk, finish,
  on_datagram, receive, finish_write, after_timer, poll,
}

-- Where the map is well formed and the congestion data takes the packet, a chunk of the file that
-- arrives is skipped if its bit is 1, and otherwise a write to its place is begun; the file and the
-- map stay as they are until the write is done. A chunk whose index is greater than the number of the
-- map's bits is a panic.
pub receive_chunk_lem :
    (packets_for : ℕ → ℕ) (now : ℕ) (c : Chunk) (info : ChunkInfo) (w : World) (r : Receiver)
    (congestion : CongestionInfo) (b : Bool)
    → IsValid w.bitmap
    → Congestion.ipt_packet packets_for now r.congestion ≡ some (congestion, b)
    → ((c.index < w.bitmap.num_bits)
        × (old : Bool) × (get_elem? (view w.bitmap) c.index ≡ some old)
        × (receive_chunk packets_for now c info w r
            ≡ some (
              w,
              record {
                state =
                    if old
                    then wait_for_chunk (record { buf = into_vec c; chunk_info = info })
                    else writing_chunk (record {
                      chunk_info = info;
                      chunk = c;
                      position = c.index * info.chunk_size;
                    });
                congestion = congestion;
              },
            )))
      ⊎ ((c.index ≡ w.bitmap.num_bits)
          ⊎ ((w.bitmap.num_bits < c.index) × (receive_chunk packets_for now c info w r ≡ none)))
unfolding receive_chunk
receive_chunk_lem packets_for now c info w r congestion b v e =
    elim (order_cases c.index w.bitmap.num_bits) [
      | inl lt ↦
          let (old, eo) =
            get_elem?_below (view w.bitmap) c.index (omega (arith, length-view w.bitmap v.fits)) in
          inl (lt, old, eo, ground (arith, e, get-view w.bitmap c.index v lt, eo))
      | inr (inl eq) ↦ inr (inl eq)
      | inr (inr gt) ↦ inr (inr (gt, ground (arith, e, (out_of_bounds w.bitmap c.index true gt).0)))
    ]

exists_after :
    (exists all : Bool) → ((exists && not all) ≡ false) ↔ ((exists ≡ false) ⊎ (all ≡ true))
exists_after exists all = ground arith

-- The client's last message, whose index is the number of chunks, shuts the receiver down, if the map
-- is well formed; the map is removed from the disk exactly if it was gone before or every chunk has
-- been received.
pub on_datagram_last :
    (packets_for : ℕ → ℕ) (B : Byteorder) (now : ℕ) (datagram : List ℕ) (info : ChunkInfo)
    (c : Chunk) (w : World) (r : Receiver)
    → IsValid w.bitmap
    → decode B (take mtu datagram) info.index_field_size ≡ some c
    → c.index ≡ info.num_chunks
    → (w' : World) × (r' : Receiver) × (on_datagram packets_for B now datagram info w r
        ≡ some (w', r'))
      × (r'.state ≡ shut_down (into_vec c))
      × (r'.congestion.done ≡ true)
      × (w' ≡ record w { bitmap_exists = w'.bitmap_exists })
      × ((w'.bitmap_exists ≡ false)
          ↔ ((w.bitmap_exists ≡ false) ⊎ All (λ b. b ≡ true) (view w.bitmap)))
unfolding on_datagram finish Congestion.shutdown
on_datagram_last packets_for B now datagram info c w r v e last =
    let zero_index : sub64 c.index info.num_chunks ≡ 0 = rw last (sub64_self info.num_chunks) in
    let all = (counts_lem w.bitmap v).0 in
    let gone = exists_after w.bitmap_exists (BitMap.all w.bitmap) in
    (
      (finish c w r).0,
      (finish c w r).1,
      ground (arith, e, zero_index),
      refl,
      refl,
      refl,
      (
        λ h. elim (gone.0 h) [ inl was ↦ inl was | inr full ↦ inr (all.0 full) ],
        λ h. gone.1 (elim h [ inl was ↦ inl was | inr ones ↦ inr (all.1 ones) ]),
      ),
    )

after_shut_down :
    (packets_for : ℕ → ℕ) (B : Byteorder) (ev : Event) (tick : Poll (Unit {0})) (buf : List ℕ)
    (w : World) (r : Receiver)
    → r.state ≡ shut_down buf
    → tick ≡ not_ready
    → (buf' : List ℕ) × (answer : Poll (Unit {0})) × (after_timer packets_for B ev tick w r
        ≡ some (w, record r { state = shut_down buf' }, answer))
unfolding after_timer finish_write
after_shut_down packets_for B ev tick buf w r e t =
    rw (t, e) (closed ev.received (record r { state = shut_down buf }))
  where
    closed :
        (received : Poll (List ℕ)) (r : Receiver)
        → (buf' : List ℕ) × (answer : Poll (Unit {0})) × (receive packets_for B ev.now
              (shut_down buf)
              received
              w
              r
            ≡ some (w, record r { state = shut_down buf' }, answer))
    closed (ready d) r = unfold receive in (_, _, refl)
    closed not_ready r = unfold receive in (_, _, refl)
    closed failed r = unfold receive in (_, _, refl)

-- Once shut down, with its congestion data done, the receiver ignores whatever comes: a poll does not
-- panic, and does not change the file, the map, the channel or the congestion data, nor leave the
-- state.
pub poll-shut_down :
    (packets_for : ℕ → ℕ) (B : Byteorder) (ev : Event) (buf : List ℕ) (w : World) (r : Receiver)
    → r.state ≡ shut_down buf
    → r.congestion.done ≡ true
    → (buf' : List ℕ) × (answer : Poll (Unit {0})) × (poll packets_for B ev w r
        ≡ some (w, record r { state = shut_down buf' }, answer))
unfolding poll
poll-shut_down packets_for B ev buf w r e d =
    let quiet = Congestion.Notify.poll_done packets_for ev.now ev.timer r.congestion d in
    rw quiet (after_shut_down packets_for B ev not_ready buf w r e refl)
