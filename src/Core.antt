-- ===== src/Core.antt =====
-- The crate `crates/core`.
pub mod Types
pub mod Config
pub mod Contract
pub mod Settlement
pub mod Slab
pub mod Command
pub mod Quote
pub mod Request
pub mod Selection
pub mod Account
pub mod Reservation
pub mod Ledger
pub mod Event
pub mod Engine
mod Tests
