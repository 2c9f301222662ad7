-- ===== src/Coordinator/Registration/Tests.antt =====
-- A reconciliation on verified evidence, and its polls.
use omarchy_harbormaster.Common.{
  is_some_and, reject_if, ℕ, ◌≡◌, ◌⊎◌, true, refl, List, [], ◌∷◌, Option, none, some, ok, nat_eq,
  bytes_eq, option_eq,
}
use omarchy_harbormaster.Common.BTreeMap.{get}
use omarchy_harbormaster.Protocol.Identity.{ident_eq}
use omarchy_harbormaster.Protocol.Event.{EventKind, HarnessKind, envelope_eq, harness_eq, kind_eq}
use omarchy_harbormaster.Domain.Types.{
  ObservationState, ProcessState, key_eq, observation_eq, process_eq, turn_eq,
}
use omarchy_harbormaster.Domain.Policy.{
  ObservationPolicy, mark_signals, position, set_supported, supported_at, supports,
}
use omarchy_harbormaster.Ingestion.Registry.Types.{Registry}
use omarchy_harbormaster.Ingestion.Registry
use omarchy_harbormaster.Ingestion.Registry.{invalidate_generation}
use omarchy_harbormaster.Storage.{StorageError}
use omarchy_harbormaster.Coordinator.Registration.Asking.{asked_valid}
use omarchy_harbormaster.Storage.Types.{is_verified, Reconciliation, Request, Response}
use omarchy_harbormaster.Storage.Validation
use omarchy_harbormaster.Storage.Tests.{generation_1, producer_1, run_1}
use omarchy_harbormaster.Coordinator.Operation
use omarchy_harbormaster.Coordinator.Registration
use omarchy_harbormaster.Coordinator.Registration.{ReconciliationInput, ReconciliationJob}
use omarchy_harbormaster.Coordinator.Registration.Installing.{Leaves, installed_once, poll_all}
use omarchy_harbormaster.Domain.Reconciliation
use omarchy_harbormaster.Domain.Reconciliation.{
  CurrentTurnEvidence, ReconciliationEvidence, ReconciliationScope, RuntimeIdentity, runtime_eq,
  scope_eq,
}
use omarchy_harbormaster.Domain.Policy

abbrev registry_1 : Registry
registry_1 = Registry.new 0

abbrev scope_1 : ReconciliationScope
scope_1 = record {
  producer_id = producer_1;
  previous_generation = none;
  run_id = run_1;
  harness = HarnessKind.codex;
}

abbrev boot_1 : List ℕ
boot_1 = 1 ∷ 2 ∷ 3 ∷ 4 ∷ 5 ∷ 6 ∷ 7 ∷ 8 ∷ 9 ∷ 10 ∷ 11 ∷ 12 ∷ 13 ∷ 14 ∷ 15 ∷ 16 ∷ []

abbrev runtime_1 : RuntimeIdentity
runtime_1 = record { boot_id = boot_1; pid = 77; start_ticks = 5 }

abbrev input_1 : ReconciliationInput
input_1 = record {
  registration = record {
    expected_revision = 0;
    producer_id = producer_1;
    run_id = run_1;
    harness = HarnessKind.codex;
    next_sequence = 7;
    previous_generation = none;
  };
  evidence = some (record {
    expected_scope = scope_1;
    observed_scope = scope_1;
    expected_runtime = runtime_1;
    observed_runtime = runtime_1;
    current_boot = boot_1;
    process = ProcessState.alive;
    freshness = ObservationState.fresh;
    current_turn = CurrentTurnEvidence.known_none;
  });
  uid = 1000;
  allowed_signals = EventKind.turn_started ∷ [];
  resolved_turn = none;
  continued_turn = none;
}

made_1 :
    Registration.new registry_1 input_1 ≡ (ok (Registration.job input_1 0 registry_1), registry_1)
unfolding Registration.new Registration.may_reconcile Registration.grants Registration.begin
    Registration.baseline Registration.off_scope Registration.proven Registry.new
    invalidate_generation get Policy.new mark_signals set_supported supported_at position
    Reconciliation.reconcile_projection Reconciliation.mismatched Reconciliation.unproven
    Reconciliation.baseline_turn Reconciliation.is_open_turn runtime_eq scope_eq kind_eq nat_eq
    ident_eq bytes_eq option_eq harness_eq process_eq observation_eq
made_1 = refl

abbrev polls_1 : List (Option Operation.SubmitFailure × Operation.Reply)
polls_1 =
    (some Operation.SubmitFailure.full, Operation.timeout)
    ∷ (none, Operation.timeout)
    ∷ (none, Operation.answered (ok (Response.registered generation_1 1)))
    ∷ []

installed_once_example :
    (discarded : ℕ) × (left : ReconciliationJob) × (invalidate_generation producer_1 none registry_1
      ≡ (ok discarded, registry_1))
    × (poll_all polls_1 (Registration.job input_1 0 registry_1) ≡ some left)
    × Leaves input_1 registry_1 polls_1 left.registry
installed_once_example =
    installed_once registry_1 registry_1 input_1 (Registration.job input_1 0 registry_1) polls_1
      made_1

asked_valid_example :
    (request : Reconciliation) × (Operation.intent (Registration.job input_1 0 registry_1).operation
      ≡ some (Request.reconcile request))
    × (request.registration ≡ input_1.registration)
    × (request.resolved_turn ≡ input_1.resolved_turn)
    × (request.continued_turn ≡ input_1.continued_turn)
    × ((input_1.resolved_turn ≡ none) ⊎ (input_1.continued_turn ≡ none))
    × ((is_verified request.baseline ≡ true)
        ⊎ ((input_1.resolved_turn ≡ none) × (input_1.continued_turn ≡ none)))
    × (Validation.reconciliation request
        ≡ reject_if
            (is_some_and input_1.continued_turn (Validation.continued_invalid request))
            StorageError.invalid_request)
asked_valid_example =
    asked_valid registry_1 registry_1 input_1 (Registration.job input_1 0 registry_1) made_1
