-- ===== src/Domain.antt =====
-- crates/harbormaster/src/domain: the pure lifecycle vocabulary and its reducer.
pub mod Types
pub mod Policy
pub mod Evidence
pub mod Reducer
pub mod Reconciliation
pub mod Consistency
pub mod Invariants
pub mod Terminal
pub mod Attention
pub mod Acceptance
pub mod Support
pub mod Baseline
mod Tests
