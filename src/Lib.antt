-- ===== src/Lib.antt =====
-- das-protokoll: in version 1 an upload of files over UDP, in which the server tells the client which
-- chunks are still missing; in version 2 an exchange of the blocks of a tree, in both directions.
--
-- The parts, and the files that model them:
--   * v1/bitte-ein-bit (lib.rs, range.rs): BitMap.antt, a bit map over a buffer with a cached count of
--     zeroes. BitMap/View gives the list of bits that it stands for and what makes it well formed;
--     BitMap/Access, BitMap/Edges, BitMap/Iteration and BitMap/Counts relate the operations to that list.
--   * v1/csync/src/codec.rs: Csync/Chunks.antt (ChunkInfo, index_field_size and Chunk),
--     Csync/Status.antt (write_runlength_encoded, RunlengthIter, MissingRanges) and Csync/Messages.antt
--     (Login, Command and UploadRequest).
--   * v1/csync/src/server/receiver.rs: Csync/Receiver.antt, the state machine that takes the chunks of one
--     upload; the World is what it shares with its surroundings: the map, the file and the channel to the
--     sender. Csync/Receiver/Upload is about the start, Invariant, Transitions, Uploading and Delivery about the
--     polls, and Appending and Resumed about an upload that goes on with a stored map.
--   * v1/csync/src/server/sender.rs: Csync/Sender.antt, which sends the map as a status update.
--   * v1/csync/src/server/congestion.rs: Csync/Congestion.antt, which decides when an update is due;
--     Csync/Congestion/Average and Burst are about the average of the gaps between packets.
--   * v1/csync/src/server/mod.rs and listener.rs: Csync/Server.antt, which takes a login, starts the two halves and
--     forwards the channel; Csync/Server/Connecting puts the server and the client together.
--   * v1/csync/src/client.rs: Csync/Client.antt, the loop that sends the missing chunks and reads updates.
--   * v1/csync/src/timeout.rs: Csync/Timeout.antt.
--   * v2/scsync/src/blockdb.rs: Scsync/BlockDb.antt, the store of blocks; BlockDb/Store is about
--     its operations.
--   * v2/scsync/src/codec.rs: Scsync/Codec.antt, the datagrams of the messages.
--   * v2/scsync/src/frontend/mod.rs: Scsync/Frontend.antt, what the encrypted blocks hold (Dir, Meta, Leaf);
--     Scsync/Frontend/Folder.antt, blockdb_from_folder, which makes the blocks of a folder;
--     Scsync/Frontend/Disk.antt, write_to_dir, which writes the blocks back. Folder/Tree has the trees of files and
--     folders that both are compared with.
--   * v2/scsync/src/frontend/visitor.rs: Scsync/Frontend/Visitor.antt, the traversal of the tree of blocks, with
--     resolve and verify; Visitor/Whole says which stores are complete, Visitor/Answers which blocks a root leads
--     to, and Visitor/Finding and Visitor/Resolving are about a block that is looked for.
--   * v2/scsync/src/handler.rs: Scsync/Transfer.antt, the transfer of a block: Allocation is about the chunk
--     ids that the sender gives out, Sending about its payloads, Filling and Delivery about the block that
--     they fill, Reporting about the status updates. Scsync/Handler.antt is what a node does with each message, and
--     Handler/State its state; Handler/Retry is request_retry, Handler/Tasks has the rounds of a client's two tasks.
--     Progress, Steps and Reachable are about every message, Updates about the new roots, Requests about the
--     blocks that are asked for, Completing and Late about a block's last payload, Reports about the status updates.
--   * v2/scsync/src/main.rs: dispatch in Scsync/Handler.antt, which gives a message to its handler.
-- Base.antt holds the Boolean tests, the lemmas on lists and the arithmetic of u64; Crates.antt the laws of
-- the third-party crates varmint, itertools, byteorder and serde_cbor, which Crates/Instances.antt shows to hold of
-- concrete versions. Sealing in Scsync/Frontend.antt has what is used of AES, aesstream and tiny_keccak, and
-- Scsync/Frontend/Instances.antt such a version. Csync/Async.antt has the answers of a poll and the messages of
-- the channel.
--
-- Conventions. A panic is `none`. Bytes and machine integers are natural numbers; additions and subtractions
-- of a u64 wrap, as in a release build. A socket, a timer, a clock or a file that is polled gives its answer
-- as an argument, so that a theorem is about every order of events. A datagram can be lost, repeated or late:
-- an event may hold any datagram at all. In version 2, a path is the list of its names, the deepest first; a
-- file name, a block's id, a key and an address are numbers; a map is a list of entries; and what a handler
-- sends, spawns and tells its channels is the list of effects that it returns, where a channel is the number
-- that it got when it was made. Keys and the first chunk ids are drawn at random, and are arguments.
--
-- Fuel. find_field_size has seven rounds, enough for every u64. The reader of run lengths gets
-- the length of its input and one; each read takes a byte at least. pump, the client's calls of next_chunk, gets
-- one round more than there are chunks. An iterator over a map gets one round more than there are bits. The recursions over
-- the tree of blocks get a number of levels: one more than the tree's depth is enough, and a yes of verify
-- means that it was.
--
-- Not modelled: the sockets, the digest of the client's token, the spawning of tasks and the command lines;
-- CongestionInfo::num_packets, which computes with floats and is a parameter; the file system, except for
-- what write_to_dir does to it, where permissions, links and input errors are left out; and the locks
-- that the tasks of version 2 share, each of whose rounds is taken as one step.
pub mod Base
pub mod BitMap
pub mod Crates
pub mod Csync
pub mod Scsync
