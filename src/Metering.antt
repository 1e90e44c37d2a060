-- ===== src/Metering.antt =====
-- Metering (src/metering): what a call of a provider cost, from the process that observed it to the
-- database, with a write-ahead log and a dead-letter queue on disk.
pub mod Types
pub mod Wal
pub mod Dlq
pub mod Repository
pub mod Emitter
pub mod Members
pub mod WalLaws
pub mod Runs
pub mod Failing
pub mod Batches
pub mod Safe
pub mod Flush
pub mod Spent
pub mod Retries
mod Tests
