-- ===== src/Store.antt =====
-- The Program store of `adapters/sqlite_store.py`: commands admitted once, and their results.
pub mod Tables
pub mod Admission
pub mod Codec
pub mod Heads
pub mod Sound
pub mod Writes
pub mod Decisions
pub mod Stores
pub mod View
pub mod Trusted
pub mod Keys
mod Samples
mod Examples
