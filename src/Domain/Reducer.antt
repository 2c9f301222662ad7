-- ===== src/Domain/Reducer.antt =====
-- crates/harbormaster/src/domain/reducer.rs: each function takes `&mut Effects` to the new effects.
use omarchy_harbormaster.Common.{
  Bool, true, false, not, ◌&&◌, ◌||◌, List, [], ◌∷◌, ◌++◌, none, some, ◌==◌, option_eq, Result, ok,
  ◌>>◌, if◌then◌else◌, is_none, is_none_or, contains,
}
use omarchy_harbormaster.Protocol.Event.{
  EventEnvelope, EventPayload, EventKind, RunExitedPayload, TerminationReason, HealthPayload,
  kind_eq, all_kinds,
}
use omarchy_harbormaster.Domain.Types.{
  TurnKey, TurnState, ReductionState, Effects, AttentionReason, ObservationState, ProcessState,
  is_terminal, turn_eq, key_eq, attention_eq, observation_eq, process_eq,
}
use omarchy_harbormaster.Domain.Policy.{DomainError, ObservationPolicy, supports}
use omarchy_harbormaster.Domain.Evidence.{validate, turn_key, turn_state}

-- `Vec::push`
abbrev pub push : List AttentionReason → AttentionReason → List AttentionReason
push reasons reason = reasons ++ reason ∷ []

unfoldable pub uncertain : ObservationState → Bool → Effects → Effects
uncertain freshness lose_current effects = record effects {
  attention =
      if contains effects.attention AttentionReason.connection_uncertainty
      then effects.attention
      else push effects.attention AttentionReason.connection_uncertainty;
  projection = record effects.projection {
    observation = freshness;
    turn =
        if lose_current && not (is_terminal effects.projection.turn)
        then TurnState.unknown
        else effects.projection.turn;
  };
  reconciliation_required = true;
}

unfoldable pub stale_unless_explicit : ObservationPolicy → ObservationState
stale_unless_explicit policy =
    if policy.freshness == ObservationState.fresh then ObservationState.stale else policy.freshness

unfoldable pub terminal : EventEnvelope → TurnKey → TurnState → Effects → Effects
terminal event key observed effects =
    let marked : Effects = record effects {
      tombstone =
          some (record { key = key; outcome_id = event.event_id; terminal = some observed });
      resolve_transient = some key;
      attention = push effects.attention (
          if observed == TurnState.completed
          then AttentionReason.completion
          else AttentionReason.failure);
    } in
    if is_none_or effects.current_turn (λ current. current == key)
    then record marked {
      projection = record effects.projection { turn = observed; turn_id = some key.turn_id };
      current_turn = some key;
    }
    else marked

-- What a wait asks of the user.
unfoldable pub push_wait : TurnState → List AttentionReason → List AttentionReason
push_wait TurnState.awaiting_input reasons = push reasons AttentionReason.input
push_wait TurnState.awaiting_approval reasons = push reasons AttentionReason.native_approval
push_wait _ reasons = reasons

unfoldable pub progress : TurnKey → TurnState → Effects → Effects
progress key observed effects =
    let same : Bool = effects.current_turn == some key in
    let turn : TurnState = effects.projection.turn in
    if not same && not (is_none effects.current_turn) && not (is_terminal turn)
    then uncertain ObservationState.stale false effects
    else if same && observed == TurnState.working && not (turn == TurnState.working)
    then effects
    else let changed : Bool = not same || not (turn == observed) in
      record effects {
        resolve_transient =
            if changed && not same then effects.current_turn else effects.resolve_transient;
        attention = if changed then push_wait observed effects.attention else effects.attention;
        projection = record effects.projection {
          turn = if not same || not (turn == TurnState.awaiting_approval) then observed else turn;
          turn_id = some key.turn_id;
          observation = ObservationState.fresh;
        };
        current_turn = some key;
      }

abbrev pub is_gone : ProcessState → Bool
is_gone ProcessState.exited = true
is_gone ProcessState.zombie = true
is_gone _ = false

-- The part of `reduce_turn` behind the test for a tombstone.
unfoldable pub observe_turn :
    EventEnvelope → TurnKey → TurnState → ObservationPolicy → Effects → Effects
observe_turn event key observed policy effects =
    if is_terminal observed
    then terminal event key observed effects
    else if not (policy.freshness == ObservationState.fresh)
    then uncertain policy.freshness true effects
    else if is_gone effects.projection.process
    then uncertain ObservationState.stale true effects
    else progress key observed effects

unfoldable pub reduce_turn :
    ReductionState → EventEnvelope → TurnKey → ObservationPolicy → Effects → Effects
reduce_turn state event key policy effects =
    let observed : TurnState = turn_state event.event in
    elim state.tombstone [
      | some t ↦
          if is_terminal observed && not (t.terminal == some observed)
          then uncertain (stale_unless_explicit policy) false effects
          else effects
      | none ↦ observe_turn event key observed policy effects
    ]

unfoldable pub exited_process : RunExitedPayload → ProcessState
exited_process (RunExitedPayload.exit_code _) = ProcessState.exited
exited_process (RunExitedPayload.terminated TerminationReason.signaled) = ProcessState.exited
exited_process (RunExitedPayload.terminated _) = ProcessState.unknown

-- A supported signal that the producer no longer names: `ALL.iter().any(…)`.
unfoldable pub any_missing : ObservationPolicy → List EventKind → List EventKind → Bool
any_missing policy named [] = false
any_missing policy named (signal ∷ signals) =
    (supports policy signal && not (contains named signal)) || any_missing policy named signals

unfoldable pub reduce_health : HealthPayload → ObservationPolicy → Effects → Effects
reduce_health health policy effects =
    let missing : Bool = any_missing policy health.signals all_kinds in
    if missing || not (policy.freshness == ObservationState.fresh)
    then uncertain (if missing then ObservationState.unsupported else policy.freshness) true effects
    else effects

unfoldable pub reduce_run : EventPayload → ObservationPolicy → Effects → Effects
reduce_run (EventPayload.run_exited exit) policy effects =
    uncertain (stale_unless_explicit policy) true
      (record effects { projection = record effects.projection { process = exited_process exit } })
reduce_run (EventPayload.producer_health health) policy effects =
    reduce_health health policy effects
reduce_run _ policy effects = effects

abbrev pub unchanged : ReductionState → Effects
unchanged state = record {
  projection = state.projection;
  current_turn = state.current_turn;
  attention = [];
  resolve_transient = none;
  tombstone = none;
  reconciliation_required = false;
}

-- What `reduce` starts from: unfresh observation makes everything uncertain at once.
unfoldable pub begin : ReductionState → ObservationPolicy → Effects
begin state policy =
    if not (policy.freshness == ObservationState.fresh)
    then uncertain policy.freshness true (unchanged state)
    else unchanged state

-- `reduce` behind `validate`.
unfoldable pub effects_of : ReductionState → EventEnvelope → ObservationPolicy → Effects
effects_of state event policy = elim (turn_key event) [
  | some key ↦ reduce_turn state event key policy (begin state policy)
  | none ↦ reduce_run event.event policy (begin state policy)
]

unfoldable pub reduce :
    ReductionState → EventEnvelope → ObservationPolicy → Result DomainError Effects
reduce state event policy = do validate state event policy; ok (effects_of state event policy)
