-- ===== src/Domain/Evidence.antt =====
-- crates/harbormaster/src/domain/evidence.rs: causal identity is checked before any effect.
use omarchy_harbormaster.Common.{
  Bool, not, ◌&&◌, ◌||◌, Option, none, some, ◌==◌, option_eq, Result, ok, ◌>>◌, if◌then◌else◌,
  is_some_and, is_none, reject_if,
}
use mathlib.Core.Option
use omarchy_harbormaster.Protocol.Identity.{ident_eq, TurnId}
use omarchy_harbormaster.Protocol.Event.{EventEnvelope, EventPayload, turn_id, kind}
use omarchy_harbormaster.Domain.Types.{
  TurnKey, TurnState, TombstoneEvidence, ReductionState, is_terminal, turn_eq, key_eq,
}
use omarchy_harbormaster.Domain.Policy.{
  DomainError, ObservationPolicy, invalid_scope, invalid_evidence, unsupported_signal, supports,
}

unfoldable pub same_scope : TurnKey → EventEnvelope → Bool
same_scope key event =
    key.run_id == event.run_id
    && key.producer_id == event.producer_id
    && key.generation == event.generation

abbrev pub scoped : EventEnvelope → TurnId → TurnKey
scoped event id = record {
  producer_id = event.producer_id;
  generation = event.generation;
  run_id = event.run_id;
  turn_id = id;
}

unfoldable pub turn_key : EventEnvelope → Option TurnKey
turn_key event = Option.map (scoped event) (turn_id event.event)

unfoldable pub turn_state : EventPayload → TurnState
turn_state (EventPayload.turn_started _) = TurnState.working
turn_state (EventPayload.turn_awaiting_input _) = TurnState.awaiting_input
turn_state (EventPayload.turn_awaiting_approval _) = TurnState.awaiting_approval
turn_state (EventPayload.turn_completed _) = TurnState.completed
turn_state (EventPayload.turn_failed _) = TurnState.failed
turn_state (EventPayload.turn_interrupted _) = TurnState.interrupted
turn_state _ = TurnState.unknown

-- The tombstone's verdict on the turn that the projection shows.
unfoldable pub terminal_disagrees : TurnState → Option TombstoneEvidence → Bool
terminal_disagrees turn none = is_terminal turn
terminal_disagrees turn (some t) =
    is_some_and t.terminal (λ kind. not (kind == turn))
    || (is_none t.terminal && not (is_terminal turn) && not (turn == TurnState.unknown))

unfoldable pub current_terminal : ReductionState → EventEnvelope → Result DomainError (Unit {0})
current_terminal state event =
    if not (state.current_turn == turn_key event)
    then ok tt
    else reject_if (terminal_disagrees state.projection.turn state.tombstone) invalid_evidence

-- The first test of `validate`.
unfoldable pub out_of_scope : ReductionState → EventEnvelope → Bool
out_of_scope state event =
    not (state.projection.run_id == event.run_id)
    || is_some_and state.current_turn (λ current. not (same_scope current event))

-- Its second test.
unfoldable pub inconsistent : ReductionState → EventEnvelope → Bool
inconsistent state event =
    not (state.projection.turn_id == Option.map (λ current. current.turn_id) state.current_turn)
    || (is_none state.current_turn && not (state.projection.turn == TurnState.unknown))
    || is_some_and state.tombstone (λ t.
      not (some t.key == turn_key event) || is_some_and t.terminal (λ kind. not (is_terminal kind)))

unfoldable pub validate :
    ReductionState → EventEnvelope → ObservationPolicy → Result DomainError (Unit {0})
validate state event policy = do
  reject_if (out_of_scope state event) invalid_scope
  reject_if (inconsistent state event) invalid_evidence
  current_terminal state event
  reject_if (not (supports policy (kind event.event))) unsupported_signal
