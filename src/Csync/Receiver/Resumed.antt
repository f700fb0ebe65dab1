-- ===== src/Csync/Receiver/Resumed.antt =====
-- v1/csync/src/server/receiver.rs: an upload that goes on with a map that was stored.
use das_protokoll.Base.{
  ℕ, ◌<◌, ◌≡◌, refl, ap, ◌∙◌, sym, true, Option, some, List, [], ◌++◌, arith, All, ◌⊎◌, inl, inr,
  append-nil, length, length-append, OnSome, OnSome-bind, OnSome-apply,
}
use das_protokoll.BitMap.{BitMap}
use das_protokoll.BitMap
use das_protokoll.Crates.{Byteorder}
use das_protokoll.Csync.Chunks.{resize, ChunkInfo, index_field_size}
use das_protokoll.Csync.Congestion
use das_protokoll.Csync.Receiver.{World, Receiver, Event, invalid, run, upload_request, new}
use das_protokoll.Csync.Receiver.Upload.{length-resize}
use das_protokoll.Csync.Receiver.Appending.{StateHasBytes, ReceivedBytes, Keeps, run-Starts}

abbrev Begun : List ℕ → ChunkInfo → World × Receiver → Type 0
Begun base info (w, r) = (w.append ≡ true) × (w.file ≡ base) × StateHasBytes info r.state

new-Begun :
    (map_mut : List ℕ → Option (List ℕ)) (now len : ℕ) (stored old_file : List ℕ) (w : World)
    (info : ChunkInfo)
    → index_field_size len ≡ some info
    → OnSome (Begun (resize old_file len 0) info) (new map_mut now len (some stored) old_file w)
unfolding new upload_request
new-Begun map_mut now len stored old_file w info ei =
    let P = Begun (resize old_file len 0) info in
    let fresh : Receiver = record { state = invalid; congestion = Congestion.new now } in
    OnSome-bind P (upload_request map_mut len (some stored) old_file w fresh) _ λ (w', r) e.
      OnSome-bind P (Congestion.start_rtt now r.congestion) _
        λ c _. OnSome-apply P _ (w', r) (requested fresh) e
  where
    requested :
        (r : Receiver)
        → OnSome
            (Begun (resize old_file len 0) info)
            (upload_request map_mut len (some stored) old_file w r)
    requested r =
        let P = Begun (resize old_file len 0) info in
        OnSome-bind P (index_field_size len) _ λ info' e'.
          OnSome-bind P (map_mut stored) _ λ mmap _.
            OnSome-bind P (BitMap.with_length mmap info'.num_chunks) _ λ m _. (refl, refl, cc)

-- An upload that goes on with a stored map never repairs the file. Whatever polls follow, as long as
-- nothing panics, the file starts with every byte that was stored, cut or filled up with zeros to the
-- length asked for, and what is written is only added behind that: once the map is not the stored one
-- any more, the file is longer than the length asked for. Each datagram that decodes to a chunk and not
-- to the last message has at least one byte of it.
pub resumed_upload :
    (packets_for : ℕ → ℕ) (B : Byteorder) (map_mut : List ℕ → Option (List ℕ)) (now len : ℕ)
    (stored old_file : List ℕ) (info : ChunkInfo) (w0 w w' : World) (r r' : Receiver)
    (evs : List Event)
    → index_field_size len ≡ some info
    → new map_mut now len (some stored) old_file w0 ≡ some (w, r)
    → All (λ ev. ReceivedBytes B info ev.received) evs
    → run packets_for B evs w r ≡ some (w', r')
    → (added : List ℕ) × (w'.file ≡ resize old_file len 0 ++ added)
      × ((w'.bitmap ≡ w.bitmap) ⊎ (len < length w'.file))
resumed_upload packets_for B map_mut now len stored old_file info w0 w w' r r' evs cut started d
      ran =
    let base = resize old_file len 0 in
    let (a, start, held) =
      OnSome-apply (Begun base info) _ (w, r)
        (new-Begun map_mut now len stored old_file w0 info cut) started in
    let begun : Keeps base w.bitmap info (w, r) =
      ((a, [], start ∙ sym (append-nil base), inl refl), held) in
    let ((append, added, e, costs), _) =
      OnSome-apply (Keeps base w.bitmap info) _ (w', r')
        (run-Starts base w.bitmap info packets_for B evs w r begun d) ran in
    let longer : 0 < length added → len < length w'.file = λ pos.
      omega (arith, pos, ap length e, length-append base added, length-resize old_file len) in
    (added, e, elim costs [ inl same ↦ inl same | inr pos ↦ inr (longer pos) ])
