-- ===== src/Domain/Baseline/Tests.antt =====
-- The baseline of one proven run.
use omarchy_harbormaster.Common.{
  ℕ, ◌≡◌, ◌↔◌, refl, true, List, [], ◌∷◌, some, ok, bytes_eq, nat_eq, option_eq,
}
use omarchy_harbormaster.Protocol.Identity.{ident_eq, RunId, TurnId, ProducerId, ProducerGeneration}
use omarchy_harbormaster.Domain.Policy.{ObservationPolicy, position, supported_at, supports}
use omarchy_harbormaster.Domain.Reducer.{reduce}
use omarchy_harbormaster.Protocol.Event.{
  EventEnvelope, EventPayload, HarnessKind, kind, kind_eq, harness_eq,
}
use omarchy_harbormaster.Domain.Types.{
  Effects, TurnState, RunProjection, ProcessState, ObservationState, key_eq, turn_eq,
  observation_eq, process_eq, attention_eq,
}
use omarchy_harbormaster.Domain.Reconciliation.{
  ReconciliationScope, RuntimeIdentity, CurrentTurnEvidence, ReconciliationEvidence, is_open_turn,
  baseline_turn, mismatched, unproven, reconcile_projection, scope_eq, runtime_eq,
}
use omarchy_harbormaster.Domain.Baseline.{
  reconcile_exact, reconcile-accepted, IsProven, baseline_state,
}

abbrev run_1 : RunId
run_1 = record { text = b'r' ∷ b'1' ∷ [] }

abbrev producer_1 : ProducerId
producer_1 = record { text = b'p' ∷ b'1' ∷ [] }

abbrev generation_1 : ProducerGeneration
generation_1 = record { text = b'g' ∷ b'1' ∷ [] }

abbrev generation_2 : ProducerGeneration
generation_2 = record { text = b'g' ∷ b'2' ∷ [] }

abbrev turn_1 : TurnId
turn_1 = record { text = b't' ∷ b'1' ∷ [] }

abbrev baseline : RunProjection
baseline = record {
  run_id = run_1;
  process = ProcessState.alive;
  observation = ObservationState.fresh;
  turn = TurnState.working;
  turn_id = some turn_1;
}

abbrev scope_1 : ReconciliationScope
scope_1 = record {
  producer_id = producer_1;
  previous_generation = some generation_1;
  run_id = run_1;
  harness = HarnessKind.codex;
}

abbrev boot_1 : List ℕ
boot_1 = 1 ∷ 2 ∷ 3 ∷ 4 ∷ 5 ∷ 6 ∷ 7 ∷ 8 ∷ 9 ∷ 10 ∷ 11 ∷ 12 ∷ 13 ∷ 14 ∷ 15 ∷ 16 ∷ []

abbrev runtime_1 : RuntimeIdentity
runtime_1 = record { boot_id = boot_1; pid = 4321; start_ticks = 99 }

abbrev proven : ReconciliationEvidence
proven = record {
  expected_scope = scope_1;
  observed_scope = scope_1;
  expected_runtime = runtime_1;
  observed_runtime = runtime_1;
  current_boot = boot_1;
  process = ProcessState.alive;
  freshness = ObservationState.fresh;
  current_turn = CurrentTurnEvidence.known turn_1 TurnState.working;
}

reconciled : reconcile_projection proven ≡ ok baseline
unfolding reconcile_projection mismatched unproven baseline_turn is_open_turn scope_eq runtime_eq
    process_eq observation_eq bytes_eq nat_eq option_eq ident_eq harness_eq
reconciled = refl

reconcile_exact_example :
    ((p : RunProjection) × (reconcile_projection proven ≡ ok p)) ↔ IsProven proven
reconcile_exact_example = reconcile_exact proven

abbrev first : EventEnvelope
first = record {
  event_id = record { text = b'e' ∷ b'1' ∷ [] };
  producer_id = producer_1;
  generation = generation_2;
  seq = 1;
  run_id = run_1;
  event = EventPayload.turn_completed (record { turn_id = turn_1 });
}

abbrev all_supported : ObservationPolicy
all_supported = record {
  supported = true ∷ true ∷ true ∷ true ∷ true ∷ true ∷ true ∷ true ∷ true ∷ [];
  freshness = ObservationState.fresh;
}

reconcile-accepted_example :
    (e : Effects) × (reduce (baseline_state proven generation_2 baseline) first all_supported
      ≡ ok e)
unfolding supports position supported_at kind kind_eq nat_eq
reconcile-accepted_example =
    reconcile-accepted proven generation_2 baseline first all_supported reconciled refl refl refl
      refl
