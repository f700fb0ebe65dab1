-- ===== src/Csync.antt =====
-- v1/csync: the first version of the protocol, an uploading client and a receiving server over UDP.
pub mod Status
pub mod Chunks
pub mod Async
pub mod Congestion
pub mod Sender
pub mod Server
pub mod Receiver
pub mod Client
pub mod Messages
pub mod Timeout
