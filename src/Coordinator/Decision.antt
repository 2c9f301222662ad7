-- ===== src/Coordinator/Decision.antt =====
-- crates/harbormaster/src/coordinator/decision.rs: what an answer of the storage means for the job.
-- A method takes the job, with the registry that it borrows, to its result and the job it leaves.
use omarchy_harbormaster.Common.{
  ℕ, ◌+◌, Bool, true, false, not, ◌||◌, Option, none, some, ◌==◌, option_eq, nat_eq, ltb, Result,
  ok, err, if◌then◌else◌,
}
use omarchy_harbormaster.Protocol.Identity.{ident_eq, Revision}
use omarchy_harbormaster.Protocol.Event.{EventEnvelope, harness_eq}
use omarchy_harbormaster.Domain.Types.{Effects}
use omarchy_harbormaster.Domain.Reducer.{reduce}
use omarchy_harbormaster.Ingestion.{AdmissionError}
use omarchy_harbormaster.Ingestion.Registry.Types.{saturating_add}
use omarchy_harbormaster.Ingestion.Registry.{invalidate_generation}
use omarchy_harbormaster.Storage.{StorageError}
use omarchy_harbormaster.Storage.Types.{
  EventReceipt, ProducerRecord, ReducerContext, Request, Response,
}
use omarchy_harbormaster.Coordinator.{ReplayEntry}
use omarchy_harbormaster.Coordinator.Operation
use omarchy_harbormaster.Coordinator.Operation.{Operation, Poll, Reply, SubmitFailure}
use omarchy_harbormaster.Coordinator.Job.{CommitFailure, CommitJob, CommitProgress, Purpose}

-- What `freeze` adds to the known discards.
abbrev pub counted : Result AdmissionError ℕ → ℕ → ℕ
counted (ok count) discarded = saturating_add discarded count
counted (err e) discarded = discarded

-- `freeze`, on the entry that the job still owns.
unfoldable pub freeze_entry : ReplayEntry → CommitJob → CommitJob
freeze_entry entry job =
    let (result, registry) =
      invalidate_generation entry.event.producer_id (some entry.event.generation) job.registry in
    record job { registry = registry; discarded = counted result job.discarded }

-- `CommitJob::freeze`
unfoldable pub freeze : CommitJob → CommitJob
freeze job = elim job.entry [ none ↦ job | some entry ↦ freeze_entry entry job ]

-- `accept`
unfoldable pub accept : ReplayEntry → Revision → CommitJob → CommitProgress × CommitJob
accept entry revision job = (
  CommitProgress.committed revision,
  record job {
    receipt = some (record { event = entry.event; harness = entry.harness; revision = revision });
    done = true;
  },
)

-- `reject`
unfoldable pub reject : CommitFailure → CommitJob → CommitProgress × CommitJob
reject failure job = (CommitProgress.rejected failure, record job { done = true })

-- `retire`
unfoldable pub request_retirement :
    ReplayEntry → Revision → CommitFailure → CommitJob → CommitProgress × CommitJob
request_retirement entry revision failure job =
    let frozen : CommitJob = freeze_entry entry job in
    (
      CommitProgress.pending,
      record frozen {
        operation = Operation.new (
            Request.retire_producer (record {
              expected_revision = revision;
              producer_id = entry.event.producer_id;
              generation = entry.event.generation;
              discarded_events = frozen.discarded;
            }));
        purpose = Purpose.retire failure;
      },
    )

-- Observation that must be reconciled freezes the producer before the write.
unfoldable pub prepared : ReplayEntry → Bool → CommitJob → CommitJob
prepared entry true job = freeze_entry entry job
prepared entry false job = job

-- The write set of an accepted reduction, and the request for it.
unfoldable pub write : ReplayEntry → Revision → Effects → CommitJob → CommitProgress × CommitJob
write entry revision effects job =
    let ready : CommitJob = prepared entry effects.reconciliation_required job in
    (
      CommitProgress.pending,
      record ready {
        operation = Operation.new (
            Request.apply (record {
              expected_revision = revision;
              fact = entry.event;
              effects = effects;
              accepted_at = ready.accepted_at;
              notify = ready.notify;
              discarded_events = ready.discarded;
            }));
        purpose = Purpose.apply;
      },
    )

-- The failure that the receipt or the sequence shows.
unfoldable pub failure_of : EventReceipt → ProducerRecord → EventEnvelope → Option CommitFailure
failure_of EventReceipt.conflict producer event = some CommitFailure.conflict
failure_of EventReceipt.prior_sequence_unverifiable producer event =
    some CommitFailure.prior_sequence_unverifiable
failure_of _ producer event =
    if not (producer.next_sequence == some event.seq) then some CommitFailure.sequence_gap else none

-- The reduction at the end of `context`.
unfoldable pub reduce_or_retire :
    ReplayEntry → ReducerContext → CommitJob → CommitProgress × CommitJob
reduce_or_retire entry read job = elim (reduce read.state entry.event job.policy) [
  | err e ↦ request_retirement entry read.revision CommitFailure.invalid_evidence job
  | ok effects ↦ write entry read.revision effects job
]

-- `context` behind the look for an exact receipt.
unfoldable pub decide :
    ReplayEntry → ReducerContext → ProducerRecord → CommitJob → CommitProgress × CommitJob
decide entry read producer job =
    if not (producer.generation == entry.event.generation)
      || not producer.active
      || not producer.reconciled
    then reject CommitFailure.unreconciled job
    else elim (failure_of read.receipt producer entry.event) [
      | some failure ↦ request_retirement entry read.revision failure job
      | none ↦ reduce_or_retire entry read job
    ]

-- An exact receipt ends the job; any other leads on.
unfoldable pub settle :
    ReplayEntry
    → ReducerContext
    → ProducerRecord
    → EventReceipt
    → CommitJob
    → CommitProgress × CommitJob
settle entry read producer (EventReceipt.exact revision) job = accept entry revision job
settle entry read producer _ job = decide entry read producer job

-- `context`
unfoldable pub on_context : ReplayEntry → ReducerContext → CommitJob → CommitProgress × CommitJob
on_context entry read job = elim read.producer [
  | none ↦ reject CommitFailure.unreconciled job
  | some producer ↦
      if not (producer.run_id == entry.event.run_id) || not (producer.harness == entry.harness)
      then reject CommitFailure.unreconciled job
      else settle entry read producer read.receipt job
]

-- An error of the storage.
unfoldable pub on_error : ReplayEntry → StorageError → CommitJob → CommitProgress × CommitJob
on_error entry e job =
    reject (CommitFailure.storage e) (record (freeze_entry entry job) { unknown_gap = true })

-- A stale revision: the context is read again.
unfoldable pub refresh : ReplayEntry → CommitJob → CommitProgress × CommitJob
refresh entry job = (
  CommitProgress.pending,
  record job {
    retries = job.retries + 1;
    purpose = Purpose.context;
    operation = Operation.new (Request.context entry.event);
  },
)

-- The answers of `response`, by the purpose for which the request was made.
unfoldable pub on_response :
    ReplayEntry → Purpose → Response → CommitJob → CommitProgress × CommitJob
on_response entry Purpose.context (Response.context read) job = on_context entry read job
on_response entry Purpose.apply (Response.committed revision duplicate) job =
    accept entry revision job
on_response entry (Purpose.retire failure) (Response.retired revision) job = reject failure job
on_response entry _ _ job = reject CommitFailure.invalid_evidence job

-- Its errors.
unfoldable pub on_failure : ReplayEntry → StorageError → CommitJob → CommitProgress × CommitJob
on_failure entry StorageError.stale_revision job =
    if ltb job.retries 3 then refresh entry job else on_error entry StorageError.stale_revision job
on_failure entry e job = on_error entry e job

-- `response`
unfoldable pub respond :
    ReplayEntry → Purpose → Result StorageError Response → CommitJob → CommitProgress × CommitJob
respond entry purpose (ok response) job = on_response entry purpose response job
respond entry purpose (err e) job = on_failure entry e job
