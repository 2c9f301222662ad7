-- ===== src/Coordinator.antt =====
-- crates/harbormaster/src/coordinator: one event, or one reconciliation, from the registry to the
-- database and back. A job polls the database's worker; what the worker answers is an argument.
pub mod Operation
pub mod Job
pub mod Decision
pub mod Commit
pub mod Registration
mod Tests
use omarchy_harbormaster.Common.{ℕ, Bool, Option}
use omarchy_harbormaster.Protocol.Identity.{Revision}
use omarchy_harbormaster.Protocol.Event.{EventEnvelope, HarnessKind}

-- `ReplayEntry` of recovery/spool.rs, less the file that it holds open.
pub record ReplayEntry : Type 0 where
  pub event : EventEnvelope
  pub harness : HarnessKind

pub record DurableReceipt : Type 0 where
  pub event : EventEnvelope
  pub harness : HarnessKind
  pub revision : Revision

pub record CommitStatus : Type 0 where
  pub known_queued_discards : ℕ
  pub unknown_gap : Bool
