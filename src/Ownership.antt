-- ===== src/Ownership.antt =====
-- Resources that a claim of work holds, and the witnesses of a handoff: `core/ownership.py`.
pub mod Texts
pub mod Scopes
mod Examples
