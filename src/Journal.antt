-- ===== src/Journal.antt =====
-- The operation journal of `adapters/sqlite_store.py`: intents, deliveries and their evidence.
pub mod Tables
pub mod Operations
pub mod Evidence
pub mod Validation
pub mod Rows
pub mod Consistent
pub mod Parts
pub mod Receipts
pub mod Preservation
pub mod Intents
pub mod Steps
pub mod Startup
pub mod Follows
pub mod Delivery
pub mod Held
pub mod Leases
pub mod Repeats
pub mod Samples
mod Examples
