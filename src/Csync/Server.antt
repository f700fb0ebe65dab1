-- ===== src/Csync/Server.antt =====
-- v1/csync/src/server/mod.rs and listener.rs: from a datagram of a new client to the two halves of its
-- connection, and the channel between them. `none` is a panic. The files of a client are found by its
-- token and the path: `stored` gives the map file, if there is one, and `old_file` the file's content.
pub mod Connecting
mod Tests
use das_protokoll.Base.{
  ℕ, zero, ◌+◌, Bool, false, Option, none, some, List, [], ◌∷◌, ◌++◌, leb, if◌then◌else◌, ◌>>=◌,
  length, take, drop,
}
use das_protokoll.Crates.{Varmint}
use das_protokoll.Csync.Async.{Poll, ready, not_ready, failed, ChannelMessage}
use das_protokoll.Csync.Chunks.{mtu, resize}
use das_protokoll.Csync.Messages.{
  Login, Command, UploadRequest, upload_request, Outcome, ok, io_error, panic, decode,
}
use das_protokoll.Csync.Receiver.{World, Receiver}
use das_protokoll.Csync.Receiver
use das_protokoll.Csync.Sender.{Sender, AsyncSink, accepted, refused, start_send, poll_complete}
use das_protokoll.Csync.Sender

-- `Listener`: the socket, which is outside, gives a datagram with the sender's address.
pub record Listener : Type 0 where
  pub buf : List ℕ

pub record Received : Type 0 where
  pub buf : List ℕ
  pub size : ℕ
  pub addr : ℕ

-- A datagram that is longer than the buffer is cut.
unfoldable pub listen : Poll (List ℕ × ℕ) → Listener → Listener × Poll Received
listen not_ready l = (l, not_ready)
listen failed l = (l, failed)
listen (ready (datagram, addr)) l = (
  record { buf = resize [] mtu 0 },
  ready (record {
    buf = take mtu datagram ++ drop (length datagram) l.buf;
    size = if leb (length datagram) mtu then length datagram else mtu;
    addr = addr;
  }),
)

-- The two halves of a connection, with what they share.
pub record Connection : Type 0 where
  pub world : World
  pub receiver : Receiver
  pub sender : Sender

pub data Handled : Type 0 where
  serving : Connection → Handled
  invalid_login : Handled

-- The channel's task goes on, or has ended with an error of the sink.
pub data Forwarding : Type 0 where
  going : Connection → Forwarding
  ended : Forwarding

-- Before the upload starts there is no map and no file.
abbrev pub no_world : World
no_world = record {
  bitmap = record { buf = []; num_bits = 0; zeroes = 0 };
  file = [];
  append = false;
  bitmap_exists = false;
  sent = [];
}

module _ (V : Varmint) where
  module _ (is_utf8 : List ℕ → Bool) (map_mut : List ℕ → Option (List ℕ))
      (stored : List ℕ → List ℕ → Option (List ℕ)) (old_file : List ℕ → List ℕ → List ℕ)
      (now : ℕ) where
    abbrev pub command : List ℕ → Command → Option (World × Receiver)
    command token (upload_request req) =
        Receiver.new map_mut now req.length (stored token req.path) (old_file token req.path)
          no_world

    abbrev pub logged_in : Outcome Login → Option Handled
    logged_in panic = none
    logged_in io_error = some invalid_login
    logged_in (ok login) = do
      (world, receiver) ← command login.client_token login.command
      some (serving (record { world = world; receiver = receiver; sender = Sender.new }))

    unfoldable pub handle_client : Received → Option Handled
    handle_client r = logged_in (decode V is_utf8 (take r.size r.buf))

  -- A message that the sink does not take stays at the front; an error of the sink ends the connection.
  abbrev pub taken :
      ChannelMessage → List ChannelMessage → Connection → Sender × Poll AsyncSink → Forwarding
  taken item rest c (s, ready (refused back)) = going (record c { sender = s })
  taken item rest c (s, ready accepted) =
      going (record c { world = record c.world { sent = rest }; sender = s })
  taken item rest c (s, not_ready) = going (record c { sender = s })
  taken item rest c (s, failed) = ended

  abbrev pub completed : Connection → Sender × Poll (Unit {0}) → Forwarding
  completed c (s, ready u) = going (record c { sender = s })
  completed c (s, not_ready) = going (record c { sender = s })
  completed c (s, failed) = ended

  abbrev pub forward_from : Poll ℕ → List ChannelMessage → Connection → Option Forwarding
  forward_from sent [] c = some (completed c (poll_complete sent c.sender))
  forward_from sent (item ∷ rest) c = do
    r ← start_send V sent c.world.bitmap item c.sender
    some (taken item rest c r)

  -- A step of `forward`, from the channel into the sender; `sent` is what the sender's socket answers.
  unfoldable pub forward : Poll ℕ → Connection → Option Forwarding
  forward sent c = forward_from sent c.world.sent c
