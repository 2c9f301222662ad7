-- ===== src/Coordinator/Commit.antt =====
-- crates/harbormaster/src/coordinator/commit.rs: one eligible event to its receipt.
-- A method takes the job, with the registry that it borrows, to its result and the job it leaves.
pub mod Progress
pub mod Turns
pub mod Polls
pub mod Ending
pub mod World
pub mod Standing
pub mod Durable
use omarchy_harbormaster.Common.{
  ℕ, suc, ◌+◌, Bool, true, false, not, ◌&&◌, ◌||◌, Option, none, some, ◌==◌, option_eq, nat_eq, ltb,
  Result, ok, err, if◌then◌else◌,
}
use omarchy_harbormaster.Protocol.Identity.{ident_eq, Revision}
use omarchy_harbormaster.Protocol.Event.{EventEnvelope, harness_eq}
use omarchy_harbormaster.Domain.Types.{Effects}
use omarchy_harbormaster.Domain.Policy.{ObservationPolicy}
use omarchy_harbormaster.Domain.Reducer.{reduce}
use omarchy_harbormaster.Ingestion.{AdmissionError}
use omarchy_harbormaster.Ingestion.Registry.Types.{Registry, saturating_add}
use omarchy_harbormaster.Ingestion.Registry.{invalidate_generation}
use omarchy_harbormaster.Storage.{StorageError}
use omarchy_harbormaster.Storage.Types.{
  EventReceipt, ProducerRecord, ReducerContext, Request, Response, Timestamp,
}
use omarchy_harbormaster.Coordinator.{CommitStatus, DurableReceipt, ReplayEntry}
use omarchy_harbormaster.Coordinator.Operation
use omarchy_harbormaster.Coordinator.Operation.{Operation, Poll, Reply, SubmitFailure}
use omarchy_harbormaster.Coordinator.Job.{CommitFailure, CommitJob, CommitProgress, Purpose}
use omarchy_harbormaster.Coordinator.Decision.{
  accept, counted, decide, failure_of, freeze, freeze_entry, on_context, on_error, on_failure,
  on_response, prepared, reduce_or_retire, refresh, reject, request_retirement, respond, settle,
  write,
}

pub record PendingCommit : Type 0 where
  pub entry : ReplayEntry
  pub request : Request
  pub purpose : Purpose
  pub policy : ObservationPolicy
  pub accepted_at : Timestamp
  pub notify : Bool
  pub discarded : ℕ
  pub unknown_gap : Bool

-- `CommitJob::new`
unfoldable pub new : Registry → ReplayEntry → ObservationPolicy → Timestamp → Bool → CommitJob
new registry entry policy accepted_at notify = record {
  registry = registry;
  entry = some entry;
  operation = Operation.new (Request.context entry.event);
  purpose = Purpose.context;
  policy = policy;
  accepted_at = accepted_at;
  notify = notify;
  discarded = 0;
  unknown_gap = false;
  retries = 0;
  progress = CommitProgress.pending;
  done = false;
  receipt = none;
}

-- `CommitJob::resume`
unfoldable pub resume : Registry → PendingCommit → CommitJob
resume registry p = record {
  registry = registry;
  entry = some p.entry;
  operation = Operation.new p.request;
  purpose = p.purpose;
  policy = p.policy;
  accepted_at = p.accepted_at;
  notify = p.notify;
  discarded = p.discarded;
  unknown_gap = p.unknown_gap;
  retries = 0;
  progress = CommitProgress.pending;
  done = false;
  receipt = none;
}

-- What a poll of the operation means for the job.
unfoldable pub react : ReplayEntry → Poll → CommitJob → CommitProgress × CommitJob
react entry Poll.pending job = (CommitProgress.pending, job)
react entry Poll.backpressure job = (CommitProgress.backpressure, job)
react entry Poll.unknown job = (
  CommitProgress.unknown_outcome,
  record (freeze_entry entry job) { unknown_gap = true; done = true },
)
react entry (Poll.result result) job = respond entry job.purpose result job

-- The assignment to `self.progress`.
abbrev pub shows : CommitProgress × CommitJob → CommitProgress × CommitJob
shows (progress, job) = (progress, record job { progress = progress })

-- `CommitJob::poll`; `none` where the code panics. A job that has given its entry away is done.
unfoldable pub poll : Option SubmitFailure → Reply → CommitJob → Option (CommitProgress × CommitJob)
poll failure reply job = if job.done then some (job.progress, job) else elim job.entry [
  | none ↦ none
  | some entry ↦ elim (Operation.poll failure reply job.operation) [
    | none ↦ none
    | some (polled, operation) ↦
        some (shows (react entry polled (record job { operation = operation })))
  ]
]

-- `CommitJob::status`
unfoldable pub status : CommitJob → CommitStatus
status job = record { known_queued_discards = job.discarded; unknown_gap = job.unknown_gap }

-- `CommitJob::take_committed`
unfoldable pub take_committed : CommitJob → Option (DurableReceipt × ReplayEntry) × CommitJob
take_committed job = elim job.receipt [
  | none ↦ (none, job)
  | some receipt ↦
      let left : CommitJob = record job { receipt = none; entry = none } in
      elim job.entry [ none ↦ (none, left) | some entry ↦ (some (receipt, entry), left) ]
]

-- `CommitJob::into_pending`, with the registry that the job gives back; an operation without a
-- request, which would panic, has nothing to keep.
unfoldable pub into_pending : CommitJob → Option PendingCommit × Registry
into_pending job =
    let frozen : CommitJob = freeze job in
    elim frozen.entry [
      | none ↦ (none, frozen.registry)
      | some entry ↦ elim (Operation.intent frozen.operation) [
        | none ↦ (none, frozen.registry)
        | some request ↦ (
          some (record {
            entry = entry;
            request = request;
            purpose = frozen.purpose;
            policy = frozen.policy;
            accepted_at = frozen.accepted_at;
            notify = frozen.notify;
            discarded = frozen.discarded;
            unknown_gap = frozen.unknown_gap;
          }),
          frozen.registry,
        )
      ]
    ]
