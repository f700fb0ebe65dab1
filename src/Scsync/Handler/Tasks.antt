-- ===== src/Scsync/Handler/Tasks.antt =====
-- v2/scsync/src/handler.rs: the rounds of the two tasks that a client has, the one that reports what is
-- missing and the one that sends chunks.
use das_protokoll.Base.{ℕ, Option, none, some, List, [], ◌>>=◌}
use das_protokoll.Base.Assoc.{find_key, insert_key}
use das_protokoll.Csync.Status.{MissingRange}
use das_protokoll.Crates.{Itertools}
use das_protokoll.Scsync.Codec.{transfer_payload, transfer_status}
use das_protokoll.Scsync.Transfer.{TransferPayload, send_next, missing_ranges}
use das_protokoll.Scsync.Handler.{Message, Client, Handler}

-- A round of the task for the status updates, when it is told that one is due; a node that is no
-- client any more is sent an empty one.
module _ (I : Itertools) where
  abbrev pub ranges_for : Option Client → Handler → Option (List MissingRange)
  ranges_for none h = some []
  ranges_for (some client) h = missing_ranges I client.transfer_in.transfers h.blockdb

  unfoldable pub status_round : ℕ → Handler → Option Message
  status_round addr h = do
    ranges ← ranges_for (find_key addr h.clients) h
    some (transfer_status ranges)

abbrev payload_message : Option TransferPayload → Option Message
payload_message none = none
payload_message (some payload) = some (transfer_payload payload)

-- A round of the task that sends chunks: without a message it ends.
unfoldable pub transfer_round : ℕ → Handler → Option (Handler × Option Message)
transfer_round addr h = do
  client ← find_key addr h.clients
  (out, payload) ← send_next h.blockdb client.transfer_out
  some (
    record h { clients = insert_key addr (record client { transfer_out = out }) h.clients },
    payload_message payload,
  )
