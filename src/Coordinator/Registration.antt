-- ===== src/Coordinator/Registration.antt =====
-- crates/harbormaster/src/coordinator/registration.rs: a reconciliation is committed, and only then
-- is its generation installed in the registry.
pub mod Made
pub mod Polls
pub mod Asking
pub mod Installing
mod Tests
use omarchy_harbormaster.Common.{
  ℕ, Bool, true, false, not, ◌&&◌, ◌||◌, List, Option, none, some, ◌==◌, option_eq, Result, ok, err,
  if◌then◌else◌, is_none, ◌>>=◌, ◌>>◌, reject_if,
}
use omarchy_harbormaster.Protocol.Identity.{ident_eq, ProducerGeneration, Revision}
use omarchy_harbormaster.Protocol.Event.{EventKind, harness_eq}
use omarchy_harbormaster.Domain.Types.{ObservationState, RunProjection, TurnKey}
use omarchy_harbormaster.Domain.Policy
use omarchy_harbormaster.Domain.Policy.{DomainError, ObservationPolicy}
use omarchy_harbormaster.Domain.Reconciliation.{
  ReconciliationEvidence, ReconciliationScope, reconcile_projection,
}
use omarchy_harbormaster.Ingestion.{AdmissionError}
use omarchy_harbormaster.Ingestion.Registry.Types.{ProducerRegistration, Registry}
use omarchy_harbormaster.Ingestion.Registry.{install_committed, invalidate_generation}
use omarchy_harbormaster.Storage.{StorageError}
use omarchy_harbormaster.Storage.Types.{
  Reconciliation, ReconciliationBaseline, Registration, Request, Response, is_verified,
}
use omarchy_harbormaster.Coordinator.Operation
use omarchy_harbormaster.Coordinator.Operation.{Operation, Poll, Reply, SubmitFailure}

pub record ReconciliationInput : Type 0 where
  pub registration : Registration
  pub evidence : Option ReconciliationEvidence
  pub uid : ℕ
  pub allowed_signals : List EventKind
  pub resolved_turn : Option TurnKey
  pub continued_turn : Option TurnKey

pub data ReconciliationProgress : Type 0 where
  pending backpressure unknown_outcome : ReconciliationProgress
  installed unavailable : ProducerGeneration → Revision → ReconciliationProgress
  rejected : StorageError → ReconciliationProgress
  admission_rejected : AdmissionError → ReconciliationProgress

pub record ReconciliationJob : Type 0 where
  pub registry : Registry
  pub input : ReconciliationInput
  pub operation : Operation
  pub verified : Bool
  pub done : Bool
  pub progress : ReconciliationProgress

-- The evidence is about another scope than the registration's.
unfoldable pub off_scope : ReconciliationScope → Registration → Bool
off_scope scope registration =
    not (scope.producer_id == registration.producer_id)
    || not (scope.run_id == registration.run_id)
    || not (scope.harness == registration.harness)
    || not (scope.previous_generation == registration.previous_generation)

-- What the projection of the evidence is as a baseline.
unfoldable pub proven : Result DomainError RunProjection → ReconciliationBaseline
proven (ok projection) = ReconciliationBaseline.verified projection projection.turn_id
proven (err e) = ReconciliationBaseline.unavailable

-- `baseline`
unfoldable pub baseline : ReconciliationInput → ReconciliationBaseline
baseline input = elim input.evidence [
  | none ↦ ReconciliationBaseline.unavailable
  | some evidence ↦
      if off_scope evidence.expected_scope input.registration
      then ReconciliationBaseline.unavailable
      else proven (reconcile_projection evidence)
]

-- `map_err(|_| AdmissionError::InvalidHandshake)`
unfoldable pub grants : Result DomainError ObservationPolicy → Result AdmissionError (Unit {0})
grants (ok policy) = ok tt
grants (err e) = err AdmissionError.invalid_handshake

-- The checks of `ReconciliationJob::new`, before anything is changed.
unfoldable pub may_reconcile : ReconciliationInput → Result AdmissionError (Unit {0})
may_reconcile input = do
  grants (Policy.new input.allowed_signals ObservationState.fresh)
  reject_if (not (is_none input.resolved_turn) && not (is_none input.continued_turn))
      AdmissionError.reconciliation_required
  reject_if
      (not (is_verified (baseline input))
        && (not (is_none input.resolved_turn) || not (is_none input.continued_turn)))
      AdmissionError.reconciliation_required

abbrev pub reconciliation : ReconciliationInput → ℕ → Reconciliation
reconciliation input discarded = record {
  registration = input.registration;
  baseline = baseline input;
  discarded_events = discarded;
  resolved_turn = input.resolved_turn;
  continued_turn = input.continued_turn;
}

abbrev pub job : ReconciliationInput → ℕ → Registry → ReconciliationJob
job input discarded registry = record {
  registry = registry;
  input = input;
  operation = Operation.new (Request.reconcile (reconciliation input discarded));
  verified = is_verified (baseline input);
  done = false;
  progress = ReconciliationProgress.pending;
}

-- The job, if the registry has let the old generation go.
unfoldable pub begin :
    ReconciliationInput
    → Result AdmissionError ℕ × Registry
    → Result AdmissionError ReconciliationJob × Registry
begin input (err e, registry) = (err e, registry)
begin input (ok discarded, registry) = (ok (job input discarded registry), registry)

-- `ReconciliationJob::new`: the job, or an error beside the registry that it leaves.
unfoldable pub new :
    Registry → ReconciliationInput → Result AdmissionError ReconciliationJob × Registry
new registry input = elim (may_reconcile input) [
  | err e ↦ (err e, registry)
  | ok _ ↦ begin input (
      invalidate_generation input.registration.producer_id input.registration.previous_generation
        registry)
]

-- The registration that a committed generation is installed with.
abbrev pub installs : ReconciliationInput → ProducerGeneration → ProducerRegistration
installs input generation = record {
  producer_id = input.registration.producer_id;
  generation = generation;
  run_id = input.registration.run_id;
  harness = input.registration.harness;
  uid = input.uid;
  allowed_signals = input.allowed_signals;
  next_sequence = input.registration.next_sequence;
}

-- How the installation went.
unfoldable pub installed_as :
    ProducerGeneration → Revision → Result AdmissionError ℕ → ReconciliationProgress
installed_as generation revision (ok discarded) =
    ReconciliationProgress.installed generation revision
installed_as generation revision (err e) = ReconciliationProgress.admission_rejected e

-- `received`
unfoldable pub received :
    Result StorageError Response → ReconciliationJob → ReconciliationProgress × ReconciliationJob
received (ok (Response.registered generation revision)) j =
    if not j.verified
    then (ReconciliationProgress.unavailable generation revision, j)
    else (let (result, registry) = install_committed (installs j.input generation) j.registry in
        (installed_as generation revision result, record j { registry = registry }))
received (err e) j = (ReconciliationProgress.rejected e, j)
received (ok _) j = (ReconciliationProgress.rejected StorageError.invalid_request, j)

unfoldable pub react : Poll → ReconciliationJob → ReconciliationProgress × ReconciliationJob
react Poll.pending j = (ReconciliationProgress.pending, j)
react Poll.backpressure j = (ReconciliationProgress.backpressure, j)
react Poll.unknown j = (ReconciliationProgress.unknown_outcome, record j { done = true })
react (Poll.result result) j = received result (record j { done = true })

-- The assignment to `self.progress`.
abbrev pub shows :
    ReconciliationProgress × ReconciliationJob → ReconciliationProgress × ReconciliationJob
shows (progress, j) = (progress, record j { progress = progress })

-- `ReconciliationJob::poll`; `none` where the code panics.
unfoldable pub poll :
    Option SubmitFailure
    → Reply
    → ReconciliationJob
    → Option (ReconciliationProgress × ReconciliationJob)
poll failure reply j =
    if j.done then some (j.progress, j) else elim (Operation.poll failure reply j.operation) [
      | none ↦ none
      | some (polled, operation) ↦ some (shows (react polled (record j { operation = operation })))
    ]
