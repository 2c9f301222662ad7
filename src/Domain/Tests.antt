-- ===== src/Domain/Tests.antt =====
-- The domain on concrete runs: a run whose turn works, waits for an approval or is over.
use omarchy_harbormaster.Common.{
  ◌≡◌, ◌≢◌, ◌↔◌, ◌⊎◌, refl, Bool, true, false, ◌&&◌, List, [], ◌∷◌, Option, none, some, ok, err,
  if◌then◌else◌, contains, is_none, bytes_eq, nat_eq, option_eq,
}
use mathlib.Core.Option
use omarchy_harbormaster.Protocol.Identity.{ident_eq, RunId, TurnId, ProducerId, ProducerGeneration}
use omarchy_harbormaster.Protocol.Event.{
  EventEnvelope, EventPayload, EventKind, all_kinds, kind, kind_eq, turn_id, harness_eq,
}
use omarchy_harbormaster.Domain.Types.{
  TurnState, ReductionState, Effects, TombstoneEvidence, ProcessState, ObservationState,
  AttentionReason, is_terminal, key_eq, turn_eq, observation_eq, process_eq, attention_eq,
}
use omarchy_harbormaster.Domain.Policy.{
  ObservationPolicy, new, mark_signals, set_supported, supported_at, position, supports,
  invalid_evidence,
}
use omarchy_harbormaster.Domain.Evidence.{
  same_scope, scoped, turn_key, turn_state, terminal_disagrees, current_terminal, out_of_scope,
  inconsistent, validate,
}
use omarchy_harbormaster.Domain.Reducer.{
  uncertain, terminal, progress, observe_turn, reduce_turn, begin, effects_of, reduce, unchanged,
}
use omarchy_harbormaster.Domain.Reconciliation.{scope_eq, runtime_eq}
use omarchy_harbormaster.Domain.Consistency.{reduce-accepted, after}
use omarchy_harbormaster.Domain.Terminal.{terminal_final, tombstone_exact, approval_waits, entombs}
use omarchy_harbormaster.Domain.Attention.{reconciliation_exact}
use omarchy_harbormaster.Domain.Acceptance.{reduce_total, terminal_replay, IsAdmissible}

abbrev run_1 : RunId
run_1 = record { text = b'r' ∷ b'1' ∷ [] }

abbrev producer_1 : ProducerId
producer_1 = record { text = b'p' ∷ b'1' ∷ [] }

abbrev generation_1 : ProducerGeneration
generation_1 = record { text = b'g' ∷ b'1' ∷ [] }

abbrev event_of : EventPayload → EventEnvelope
event_of payload = record {
  event_id = record { text = b'e' ∷ b'1' ∷ [] };
  producer_id = producer_1;
  generation = generation_1;
  seq = 7;
  run_id = run_1;
  event = payload;
}

abbrev turn_1 : TurnId
turn_1 = record { text = b't' ∷ b'1' ∷ [] }

abbrev turn_2 : TurnId
turn_2 = record { text = b't' ∷ b'2' ∷ [] }

abbrev started : EventEnvelope
started = event_of (EventPayload.turn_started (record { turn_id = turn_1 }))

abbrev started_next : EventEnvelope
started_next = event_of (EventPayload.turn_started (record { turn_id = turn_2 }))

abbrev completed : EventEnvelope
completed = event_of (EventPayload.turn_completed (record { turn_id = turn_1 }))

-- A live run, observed freshly, whose current turn is `turn_1`.
abbrev in_turn : TurnState → Option TombstoneEvidence → ReductionState
in_turn turn tombstone = record {
  projection = record {
    run_id = run_1;
    process = ProcessState.alive;
    observation = ObservationState.fresh;
    turn = turn;
    turn_id = some turn_1;
  };
  current_turn = some (scoped started turn_1);
  tombstone = tombstone;
}

abbrev all_supported : List Bool
all_supported = true ∷ true ∷ true ∷ true ∷ true ∷ true ∷ true ∷ true ∷ true ∷ []

abbrev policy_of : ObservationState → ObservationPolicy
policy_of freshness = record { supported = all_supported; freshness = freshness }

abbrev fresh_policy : ObservationPolicy
fresh_policy = policy_of ObservationState.fresh

policy_made : new all_kinds ObservationState.fresh ≡ ok fresh_policy
unfolding new mark_signals set_supported supported_at position kind_eq nat_eq
policy_made = refl

policy_repeats :
    new (EventKind.run_started ∷ EventKind.run_started ∷ []) ObservationState.fresh
    ≡ err invalid_evidence
unfolding new mark_signals set_supported supported_at position kind_eq nat_eq
policy_repeats = refl

-- The effects of a first completion.
abbrev completed_effects : Effects
completed_effects = record {
  projection = record (in_turn TurnState.working none).projection { turn = TurnState.completed };
  current_turn = some (scoped started turn_1);
  attention = AttentionReason.completion ∷ [];
  resolve_transient = some (scoped started turn_1);
  tombstone = some (record {
    key = scoped started turn_1;
    outcome_id = completed.event_id;
    terminal = some TurnState.completed;
  });
  reconciliation_required = false;
}

reduce-completed :
    reduce (in_turn TurnState.working none) completed fresh_policy ≡ ok completed_effects
unfolding reduce validate out_of_scope inconsistent current_terminal terminal_disagrees supports
    position supported_at kind turn_key turn_id turn_state effects_of begin reduce_turn observe_turn
    terminal is_terminal same_scope ident_eq bytes_eq nat_eq option_eq key_eq turn_eq observation_eq
    kind_eq attention_eq process_eq
reduce-completed = refl

-- A completed turn that is told to have started again changes nothing.
abbrev over : ReductionState
over = in_turn TurnState.completed completed_effects.tombstone

reduce-over : reduce over started fresh_policy ≡ ok (unchanged over)
unfolding reduce validate out_of_scope inconsistent current_terminal terminal_disagrees supports
    position supported_at kind turn_key turn_id turn_state effects_of begin reduce_turn observe_turn
    terminal is_terminal same_scope ident_eq bytes_eq nat_eq option_eq key_eq turn_eq observation_eq
    kind_eq attention_eq process_eq
reduce-over = refl

-- Progress of a turn that waits for an approval leaves it waiting.
reduce_waiting :
    reduce (in_turn TurnState.awaiting_approval none) started fresh_policy
    ≡ ok (unchanged (in_turn TurnState.awaiting_approval none))
unfolding reduce validate out_of_scope inconsistent current_terminal terminal_disagrees supports
    position supported_at kind turn_key turn_id turn_state effects_of begin reduce_turn observe_turn
    progress is_terminal same_scope ident_eq bytes_eq nat_eq option_eq key_eq turn_eq observation_eq
    kind_eq attention_eq process_eq
reduce_waiting = refl

abbrev stale_effects : Effects
stale_effects = record (unchanged (in_turn TurnState.working none)) {
  projection = record (in_turn TurnState.working none).projection {
    observation = ObservationState.stale;
    turn = TurnState.unknown;
  };
  attention = AttentionReason.connection_uncertainty ∷ [];
  reconciliation_required = true;
}

reduce_stale :
    reduce (in_turn TurnState.working none) started (policy_of ObservationState.stale)
    ≡ ok stale_effects
unfolding reduce validate out_of_scope inconsistent current_terminal terminal_disagrees supports
    position supported_at kind turn_key turn_id turn_state effects_of begin reduce_turn observe_turn
    uncertain is_terminal same_scope ident_eq bytes_eq nat_eq option_eq key_eq turn_eq
    observation_eq kind_eq attention_eq process_eq
reduce_stale = refl

reduce_total_example :
    ((e : Effects) × (reduce (in_turn TurnState.working none) completed fresh_policy ≡ ok e))
    ↔ IsAdmissible (in_turn TurnState.working none) completed fresh_policy
reduce_total_example = reduce_total (in_turn TurnState.working none) completed fresh_policy

reduce-accepted_example :
    (out_of_scope (after completed_effects none) started_next ≡ false)
    × (inconsistent (after completed_effects none) started_next ≡ false)
reduce-accepted_example =
    reduce-accepted (in_turn TurnState.working none) completed started_next fresh_policy
      completed_effects reduce-completed refl refl refl

terminal_final_example : (unchanged over).projection.turn ≡ over.projection.turn
unfolding is_terminal
terminal_final_example =
    terminal_final over started fresh_policy (unchanged over) reduce-over refl refl

tombstone_exact_example : completed_effects.tombstone ≡ (
    if is_terminal (turn_state completed.event)
      && is_none (in_turn TurnState.working none).tombstone
    then Option.map (entombs completed) (turn_key completed)
    else none)
tombstone_exact_example =
    tombstone_exact (in_turn TurnState.working none) completed fresh_policy completed_effects
      reduce-completed

approval_waits_example :
    ((unchanged (in_turn TurnState.awaiting_approval none)).projection.turn
      ≡ TurnState.awaiting_approval)
    ⊎ (is_terminal (unchanged (in_turn TurnState.awaiting_approval none)).projection.turn ≡ true)
approval_waits_example =
    approval_waits (in_turn TurnState.awaiting_approval none) started fresh_policy
      (unchanged (in_turn TurnState.awaiting_approval none)) reduce_waiting refl refl refl

reconciliation_exact_example :
    stale_effects.reconciliation_required
    ≡ contains stale_effects.attention AttentionReason.connection_uncertainty
reconciliation_exact_example =
    reconciliation_exact (in_turn TurnState.working none) started (policy_of ObservationState.stale)
      stale_effects reduce_stale

stale_is_not_fresh : ObservationState.stale ≢ ObservationState.fresh
stale_is_not_fresh h = cc h

terminal_replay_example :
    reduce (after completed_effects completed_effects.tombstone) completed fresh_policy
    ≡ ok (unchanged (after completed_effects completed_effects.tombstone))
unfolding is_terminal turn_state
terminal_replay_example =
    terminal_replay (in_turn TurnState.working none) completed fresh_policy completed_effects
      reduce-completed refl refl refl
