-- ===== src/Chain.antt =====
-- The crate `crates/chain`.
pub mod Bundle
pub mod Escrow
pub mod Log
pub mod Custody
pub mod Oracle
pub mod Indexer
mod Tests
