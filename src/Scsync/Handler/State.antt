-- ===== src/Scsync/Handler/State.antt =====
-- v2/scsync/src/handler.rs, and the messages of codec.rs: the state of a node, and what its handlers cause.
use das_protokoll.Base.{ℕ, Option, none, some, List, [], ◌∷◌, ◌++◌, map}
use das_protokoll.Scsync.BlockDb.{BlockRef, BlockDb}
use das_protokoll.Scsync.Transfer.{TransferOut, Transfer, BlockRequestResponse}
use das_protokoll.Scsync.Codec.{Msg}
use das_protokoll.Scsync.Frontend.Disk.{Node}

pub record RootUpdate : Type 0 where
  pub nonce : ℕ
  pub from_blockid : ℕ
  pub to_blockref : BlockRef

pub record RootUpdateResponse : Type 0 where
  pub from_blockid : ℕ
  pub to_blockid : ℕ
  pub to_key : ℕ

pub record BlockRequest : Type 0 where
  pub blockid : ℕ

abbrev pub Message : Type 0
Message = Msg RootUpdate RootUpdateResponse BlockRequest BlockRequestResponse

pub record TransferIn : Type 0 where
  pub transfers : List Transfer
  pub status_tx : Option ℕ

-- A pending request has the channel that ends its repetition.
pub record Client : Type 0 where
  pub pending_block_requests : List (ℕ × ℕ)
  pub transfer_out : TransferOut
  pub transfer_in : TransferIn

-- `Client::default`; the first chunk id is drawn at random.
abbrev pub default_client : ℕ → Client
default_client transfer_cursor = record {
  pending_block_requests = [];
  transfer_out = record {
    todo = [];
    cursor = none;
    transfers = [];
    transfer_cursor = transfer_cursor;
  };
  transfer_in = record { transfers = []; status_tx = none };
}

-- `channels` is how many have been made.
pub record Handler : Type 0 where
  pub folder : List ℕ
  pub disk : List (List ℕ × Node)
  pub blockdb : BlockDb
  pub clients : List (ℕ × Client)
  pub channels : ℕ

-- A message for the sender's task; the task of `request_retry`, spawned or returned to the receiving
-- task; what a channel of a request is told, or that its sender is gone; the task for the status
-- updates, what it is told, or that its sender is gone; the task that sends chunks.
pub data Effect : Type 0 where
  send : Message → (addr : ℕ) → Effect
  spawn_retry return_retry : (channel addr blockid : ℕ) → Effect
  fulfil cancel : (channel : ℕ) → Effect
  spawn_status : (channel addr : ℕ) → Effect
  status_due close_status : (channel : ℕ) → Effect
  start_transfer : (addr : ℕ) → Effect

abbrev pub each : (ℕ → Effect) → Option ℕ → List Effect
each f none = []
each f (some channel) = f channel ∷ []

-- What goes with a client.
abbrev pub dropped : Option Client → List Effect
dropped none = []
dropped (some client) =
    map (λ (id, channel). cancel channel) client.pending_block_requests
    ++ each close_status client.transfer_in.status_tx
