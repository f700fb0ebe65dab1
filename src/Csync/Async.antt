-- ===== src/Csync/Async.antt =====
-- The results of polling, as of `futures` 0.1, and the messages between the two halves of the server.
pub data Poll {ℓ} (A : Type ℓ) : Type ℓ where
  ready : A → Poll A
  not_ready : Poll A
  failed : Poll A

-- v1/csync/src/server/mod.rs, `ChannelMessage`. The map that `upload_start` carries is shared: it is
-- the one that the receiver goes on to change.
pub data ChannelMessage : Type 0 where
  upload_start : ChannelMessage
  upload_status : ChannelMessage
