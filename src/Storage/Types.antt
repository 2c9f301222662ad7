-- ===== src/Storage/Types.antt =====
-- crates/harbormaster/src/storage/types.rs and reducer_types.rs: the commands of the manager. Of
-- `Request` and `Response` these are the variants that the coordinator sends and reads.
use omarchy_harbormaster.Common.{ℕ, Bool, true, false, Option}
use omarchy_harbormaster.Protocol.Identity.{
  ProducerId, ProducerGeneration, RunId, TurnId, Seq, Revision,
}
use omarchy_harbormaster.Protocol.Event.{EventEnvelope, HarnessKind}
use omarchy_harbormaster.Domain.Types.{Effects, ReductionState, RunProjection, TurnKey}

abbrev pub max_facts : ℕ
max_facts = 20000

abbrev pub max_tombstones : ℕ
max_tombstones = 20000

abbrev pub max_runs : ℕ
max_runs = 10000

abbrev pub max_attention : ℕ
max_attention = 20000

abbrev pub max_outbox_pending : ℕ
max_outbox_pending = 1000

abbrev pub max_outbox_audit : ℕ
max_outbox_audit = 20000

-- An `i64`; `negative n` is -(n + 1).
pub data Timestamp : Type 0 where
  nonnegative negative : ℕ → Timestamp

abbrev pub is_negative : Timestamp → Bool
is_negative (nonnegative n) = false
is_negative (negative n) = true

pub record Registration : Type 0 where
  pub expected_revision : Revision
  pub producer_id : ProducerId
  pub run_id : RunId
  pub harness : HarnessKind
  pub next_sequence : Seq
  pub previous_generation : Option ProducerGeneration

pub record ProducerRecord : Type 0 where
  pub producer_id : ProducerId
  pub harness : HarnessKind
  pub generation : ProducerGeneration
  pub run_id : RunId
  pub next_sequence : Option Seq
  pub active : Bool
  pub reconciled : Bool

pub data EventReceipt : Type 0 where
  missing : EventReceipt
  exact : Revision → EventReceipt
  conflict prior_sequence_unverifiable : EventReceipt

pub record ReducerContext : Type 0 where
  pub revision : Revision
  pub producer : Option ProducerRecord
  pub state : ReductionState
  pub receipt : EventReceipt

pub record ReducerWrite : Type 0 where
  pub expected_revision : Revision
  pub fact : EventEnvelope
  pub effects : Effects
  pub accepted_at : Timestamp
  pub notify : Bool
  pub discarded_events : ℕ

pub data ReconciliationBaseline : Type 0 where
  unavailable : ReconciliationBaseline
  verified : RunProjection → Option TurnId → ReconciliationBaseline

abbrev pub is_verified : ReconciliationBaseline → Bool
is_verified unavailable = false
is_verified (verified _ _) = true

pub record Reconciliation : Type 0 where
  pub registration : Registration
  pub baseline : ReconciliationBaseline
  pub discarded_events : ℕ
  pub resolved_turn : Option TurnKey
  pub continued_turn : Option TurnKey

pub record ProducerRetirement : Type 0 where
  pub expected_revision : Revision
  pub producer_id : ProducerId
  pub generation : ProducerGeneration
  pub discarded_events : ℕ

-- The requests of the reducer path, which the coordinator makes, and the plain registration. The other
-- variants (catalogue, runners, policy, retention, the legacy commit, reviews, backup) are left out.
pub data Request : Type 0 where
  context : EventEnvelope → Request
  apply : ReducerWrite → Request
  reconcile : Reconciliation → Request
  retire_producer : ProducerRetirement → Request
  register : Registration → Request

-- `other` is each variant that no job of the coordinator expects.
pub data Response : Type 0 where
  retired : Revision → Response
  context : ReducerContext → Response
  registered : ProducerGeneration → Revision → Response
  committed : Revision → Bool → Response
  other : Response
