-- ===== src/Scsync.antt =====
-- v2/scsync: the second version of the protocol, which exchanges the blocks of a tree in both directions.
pub mod BlockDb
pub mod Transfer
pub mod Codec
pub mod Frontend
pub mod Handler
