-- ===== src/Domain.antt =====
-- `core/domain.py`.
pub mod Checks
pub mod Values
pub mod Topology
pub mod Spec
pub mod Amendment
pub mod Facts
pub mod Projection
pub mod Program
pub mod Validation
pub mod Commands
pub mod Transitions
pub mod Recording
pub mod Apply
pub mod Samples
pub mod Runs
mod Examples
