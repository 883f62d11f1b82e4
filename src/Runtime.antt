-- ===== src/Runtime.antt =====
-- The crate `crates/runtime`: what carries commands and events between the engine and the world.
pub mod Settlement
pub mod Gateway
pub mod Venue
mod Tests
