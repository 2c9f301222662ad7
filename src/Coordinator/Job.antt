-- ===== src/Coordinator/Job.antt =====
-- The job of coordinator/commit.rs, its progress and its purposes.
use omarchy_harbormaster.Common.{ℕ, Bool, Option, option_eq, nat_eq}
use omarchy_harbormaster.Protocol.Identity.{ident_eq, Revision}
use omarchy_harbormaster.Protocol.Event.{harness_eq}
use omarchy_harbormaster.Domain.Policy.{ObservationPolicy}
use omarchy_harbormaster.Ingestion.Registry.Types.{Registry}
use omarchy_harbormaster.Storage.{StorageError}
use omarchy_harbormaster.Storage.Types.{Timestamp}
use omarchy_harbormaster.Coordinator.{DurableReceipt, ReplayEntry}
use omarchy_harbormaster.Coordinator.Operation.{Operation}

pub data CommitFailure : Type 0 where
  unreconciled conflict sequence_gap prior_sequence_unverifiable invalid_evidence : CommitFailure
  storage : StorageError → CommitFailure

pub data CommitProgress : Type 0 where
  pending backpressure unknown_outcome : CommitProgress
  committed : Revision → CommitProgress
  rejected : CommitFailure → CommitProgress

pub data Purpose : Type 0 where
  context apply : Purpose
  retire : CommitFailure → Purpose

pub record CommitJob : Type 0 where
  pub registry : Registry
  pub entry : Option ReplayEntry
  pub operation : Operation
  pub purpose : Purpose
  pub policy : ObservationPolicy
  pub accepted_at : Timestamp
  pub notify : Bool
  pub discarded : ℕ
  pub unknown_gap : Bool
  pub retries : ℕ
  pub progress : CommitProgress
  pub done : Bool
  pub receipt : Option DurableReceipt
