-- ===== src/Engine.antt =====
-- internal/engine: the trading core, by file.
pub mod Position
pub mod Replay
pub mod Snapshot
pub mod Db
pub mod Reservation
pub mod Ledger
pub mod Accept
pub mod Lease
pub mod Service
pub mod Orders
pub mod Outcomes
mod Tests
