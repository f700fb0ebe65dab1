-- ===== src/Csync/Server/Connecting.antt =====
-- v1/csync/src/server/mod.rs and v1/csync/src/client.rs: the first messages of an upload.
use das_protokoll.Base.{
  ℕ, ◌≤◌, ◌<◌, ◌≡◌, refl, sym, ◌∙◌, ap, true, Bool, Option, none, some, List, [], ◌∷◌, ◌++◌, length,
  take, drop, leb, arith, replicate, false, take-append, if◌then◌else◌, All,
}
use mathlib.Core.Path.{subst}
use mathlib.Core.Option.{some-injective}
use das_protokoll.Base.Word.{IsU64}
use das_protokoll.BitMap.View.{view, length-view}
use das_protokoll.Crates.{Varmint, Itertools, Byteorder}
use das_protokoll.Csync.Async.{Poll, ready, ChannelMessage, upload_start, upload_status}
use das_protokoll.Csync.Chunks.{ChunkInfo, mtu, resize}
use das_protokoll.Csync.Chunks.Sizes.{Cuts}
use das_protokoll.Csync.Status.Decode.{status_update_lem}
use das_protokoll.Csync.Messages.{upload_request, Login, encode}
use das_protokoll.Csync.Messages.RoundTrip.{Sendable, decode-encode}
use das_protokoll.Csync.Status.{write_runlength_encoded}
use das_protokoll.Csync.Client.Datagrams.{take_above}
use das_protokoll.Csync.Receiver.{World, Receiver}
use das_protokoll.Csync.Receiver.Upload.{Cuts-some, new-Uploading}
use das_protokoll.Csync.Receiver.Uploading.{Uploading}
use das_protokoll.Csync.Sender.{Sender, sending, waiting, start_send, accept, poll_complete}
use das_protokoll.Csync.Sender
use das_protokoll.Csync.Client
use das_protokoll.Csync.Client.{Client, Phase, status_update, step}
use das_protokoll.Csync.Client.Updates.{SendsMissing, Resumes-SendsMissing, step-Resumes}
use das_protokoll.Csync.Server.{
  Listener, Received, listen, Connection, serving, handle_client, going, forward, no_world,
}

-- A datagram that fits is read from the buffer as it was sent, whatever the buffer held.
take-received :
    (datagram buf : List ℕ)
    → length datagram ≤ mtu
    → take
        (if leb (length datagram) mtu then length datagram else mtu)
        (take mtu datagram ++ drop (length datagram) buf)
      ≡ datagram
take-received datagram buf short =
    ground (
      arith,
      short,
      take_above mtu datagram short,
      take-append datagram (drop (length datagram) buf),
    )

-- The sender that has been given the map.
abbrev handed : Sender
handed = record { vec = resize [] mtu 0; bitmap = true; state = waiting }

-- What is in the channel does not matter to the upload.
unsent :
    (source : List ℕ) (info : ChunkInfo) (w : World) (r : Receiver) (msgs : List ChannelMessage)
    → Uploading source info w r
    → Uploading source info (record w { sent = msgs }) r
unsent source info w r msgs u = record {
  valid = u.valid;
  sized = u.sized;
  in_place = u.in_place;
  honest = u.honest;
  agrees = u.agrees;
  removed = u.removed;
}

not-All :
    (bits : List Bool) → All (λ b. b ≡ false) bits → 0 < length bits → ¬ All (λ b. b ≡ true) bits
not-All [] clear some_bit full = absurd (omega (arith, some_bit))
not-All (b ∷ bits) clear some_bit full = absurd (cc (sym clear.0 ∙ full.0))

module _ (V : Varmint) where
  forward-start :
      (sent : Poll ℕ) (w : World) (r : Receiver) (rest : List ChannelMessage)
      → w.sent ≡ upload_start ∷ rest
      → forward V sent (record { world = w; receiver = r; sender = Sender.new })
        ≡ some (going (record { world = record w { sent = rest }; receiver = r; sender = handed }))
  unfolding forward start_send accept poll_complete Sender.new
  forward-start sent w r rest e = rw e refl

  forward-status :
      (sent : Poll ℕ) (w : World) (r : Receiver) (bytes : List ℕ)
      → w.sent ≡ upload_status ∷ []
      → write_runlength_encoded V w.bitmap mtu ≡ some (length bytes, bytes)
      → forward V sent (record { world = w; receiver = r; sender = handed })
        ≡ some (
            going (record {
              world = record w { sent = [] };
              receiver = r;
              sender = record { vec = bytes; bitmap = true; state = sending };
            }))
  unfolding forward start_send accept poll_complete
  forward-status sent w r bytes e ew =
      rw (e, ew, take-append bytes (drop (length bytes) (resize (resize [] mtu 0) mtu 0))) refl

  module _ (I : Itertools) (B : Byteorder) where
    -- The file's upload has started on the connection, and the datagram that its sender holds makes the
    -- client go on.
    abbrev pub Greets : (source : List ℕ) → IsU64 (length source) → Client → Connection → Type 0
    Greets source small c conn =
        (info : ChunkInfo) × (cuts : Cuts (length source) info) × Uploading source info conn.world
          conn.receiver
        × All (λ b. b ≡ false) (view conn.world.bitmap)
        × (length conn.sender.vec ≤ mtu)
        × (c' : Client) × (step B info V I source (status_update conn.sender.vec) c ≡ some c')
        × (c'.sent ≡ c.sent)
        × SendsMissing source info small cuts B conn.world.bitmap c'.phase

  module _ (I : Itertools) (B : Byteorder) (is_utf8 : List ℕ → Bool)
      (map_mut : List ℕ → Option (List ℕ)) (stored : List ℕ → List ℕ → Option (List ℕ))
      (old_file : List ℕ → List ℕ → List ℕ) where
    -- A new client whose login fits in a datagram, for a file that is not empty and that the server has no
    -- map of: whatever the listener's buffer held and whatever the sender's socket answers, the server
    -- serves the client, and the two messages in the channel are taken by the sender one after the other.
    -- Then the upload of the file has started, no chunk of it counts as received, and the sender holds a
    -- datagram of at most `mtu` bytes, which makes a client that waits read a chunk that is missing, and
    -- send it in a datagram that the server decodes to it. The mapping of a new map file of at least one
    -- byte has to give its zeros.
    pub first_update :
        (token path source : List ℕ) (addr now : ℕ) (l : Listener) (sent sent' : Poll ℕ)
        (c : Client) (s : Sendable V is_utf8 token (record { path = path; length = length source }))
        → length (
            encode V (record {
              client_token = token;
              command = upload_request (record { path = path; length = length source });
            }))
          ≤ mtu
        → 0 < length source
        → ((n : ℕ) → 0 < n → map_mut (replicate n 0) ≡ some (replicate n 0))
        → stored token path ≡ none
        → c.phase ≡ Client.waiting
        → (l' : Listener) × (r : Received) × (conn conn' conn'' : Connection) × (listen
              (ready (
                encode V (record {
                  client_token = token;
                  command = upload_request (record { path = path; length = length source });
                }),
                addr,
              ))
              l
            ≡ (l', ready r))
          × (handle_client V is_utf8 map_mut stored old_file now r ≡ some (serving conn))
          × (forward V sent conn ≡ some (going conn'))
          × (forward V sent' conn' ≡ some (going conn''))
          × Greets I B source s.file_length c conn''
    unfolding listen handle_client
    first_update token path source addr now l sent sent' c s short filled mapped none_stored idle =
        let login : Login = record {
          client_token = token;
          command = upload_request (record { path = path; length = length source });
        } in
        let decoded =
          (decode-encode V is_utf8 token (record { path = path; length = length source }) s).0 in
        let (info, w, r, ei, cuts, en, u, clear, es, clock) =
          new-Uploading map_mut now source (old_file token path) no_world s.file_length filled
            mapped in
        let some_chunks =
          Cuts-some (length source) info.chunk_size info.num_chunks filled cuts.covers_file in
        let w1 : World = record w { sent = upload_status ∷ [] } in
        let w2 : World = record w { sent = [] } in
        let (bytes, c', ew, ec, same, res) =
          step-Resumes source info s.file_length cuts B V I w.bitmap mtu c u.valid u.sized
            (omega arith) idle in
        let (bytes', self', done, ew', short', ep, up) =
          status_update_lem V I w.bitmap mtu c.missing u.valid (omega arith) in
        (
          _,
          _,
          _,
          _,
          _,
          refl,
          rw (take-received (encode V login) l.buf short, decoded, none_stored, en) refl,
          forward-start sent w r (upload_status ∷ []) es,
          forward-status sent' w1 r bytes refl ew,
          (
            info,
            cuts,
            unsent source info w r [] u,
            clear,
            subst (λ x. x ≤ mtu) (ap (λ (p : ℕ × List ℕ). p.0) (some-injective _ _ (sym ew' ∙ ew)))
                short',
            c',
            ec,
            same,
            Resumes-SendsMissing source info s.file_length cuts B w.bitmap c'.phase
                (not-All (view w.bitmap) clear
                  (omega (arith, length-view w.bitmap u.valid.fits, u.sized, some_chunks)))
                res,
          ),
        )
