-- ===== src/Domain/Terminal.antt =====
-- What domain/reducer.rs promises of terminal turns, waits and tombstones.
use omarchy_harbormaster.Common.{
  ◌≡◌, ◌≢◌, ◌⊎◌, refl, true, false, none, some, ok, arith, inl, inr, Option-cases, ◌&&◌,
  if◌then◌else◌, option_eq, is_none,
}
use mathlib.Core.Option
use omarchy_harbormaster.Protocol.Event.{EventEnvelope, EventPayload, turn_id}
use omarchy_harbormaster.Domain.Types.{
  TurnKey, TurnState, ReductionState, Effects, TombstoneEvidence, is_terminal,
}
use omarchy_harbormaster.Domain.Policy.{ObservationPolicy}
use omarchy_harbormaster.Domain.Evidence.{
  validate, current_terminal, terminal_disagrees, scoped, turn_key, turn_state,
}
use omarchy_harbormaster.Domain.Reducer.{
  reduce, effects_of, begin, reduce_turn, observe_turn, terminal, progress, uncertain, reduce_run,
  reduce_health,
}
use omarchy_harbormaster.Domain.Invariants.{reduce-ok}

-- A validated event of a turn that is shown as over comes with its tombstone.
validate_tombstone :
    (state : ReductionState) (event : EventEnvelope) (policy : ObservationPolicy) (key : TurnKey)
    → validate state event policy ≡ ok tt
    → turn_key event ≡ some key
    → state.current_turn ≡ some key
    → is_terminal state.projection.turn ≡ true
    → is_none state.tombstone ≡ false
unfolding validate current_terminal terminal_disagrees
validate_tombstone state event policy key h k c t = ground arith

module _ (state : ReductionState) (event : EventEnvelope) (policy : ObservationPolicy)
    (over : is_terminal state.projection.turn ≡ true) where
  begin_final :
      ((begin state policy).projection.turn ≡ state.projection.turn)
      × ((begin state policy).current_turn ≡ state.current_turn)
  unfolding begin uncertain
  begin_final = ground arith

  reduce_turn_final :
      (key : TurnKey) (e : Effects)
      → turn_key event ≡ some key
      → validate state event policy ≡ ok tt
      → e.projection.turn ≡ state.projection.turn
      → e.current_turn ≡ state.current_turn
      → (reduce_turn state event key policy e).current_turn ≡ state.current_turn
      → (reduce_turn state event key policy e).projection.turn ≡ state.projection.turn
  unfolding reduce_turn observe_turn terminal progress uncertain
  reduce_turn_final key e k v t c same =
      ground (arith, validate_tombstone state event policy key v k)

  reduce_run_final :
      (payload : EventPayload) (e : Effects)
      → e.projection.turn ≡ state.projection.turn
      → (reduce_run payload policy e).projection.turn ≡ state.projection.turn
  unfolding reduce_run reduce_health uncertain
  reduce_run_final (EventPayload.run_exited exit) e t = ground arith
  reduce_run_final (EventPayload.producer_health health) e t = ground arith
  reduce_run_final _ e t = t

  effects_of_final :
      validate state event policy ≡ ok tt
      → (effects_of state event policy).current_turn ≡ state.current_turn
      → (effects_of state event policy).projection.turn ≡ state.projection.turn
  unfolding effects_of
  effects_of_final v same = elim (Option-cases (turn_key event)) [
    | inl run ↦ rw (run, effects_of) (reduce_run_final event.event _ begin_final.0)
    | inr (key, k) ↦
        rw (k, effects_of)
          (reduce_turn_final key _ k v begin_final.0 begin_final.1 (rw (k, effects_of) at same))
  ]

-- A turn that is shown as completed, failed or interrupted stays so while it is the current turn:
-- when a reduction succeeds on such a state and leaves the current turn, it leaves the outcome.
pub terminal_final :
    (state : ReductionState) (event : EventEnvelope) (policy : ObservationPolicy) (e : Effects)
    → reduce state event policy ≡ ok e
    → is_terminal state.projection.turn ≡ true
    → e.current_turn ≡ state.current_turn
    → e.projection.turn ≡ state.projection.turn
terminal_final state event policy e h over same =
    let done = reduce-ok state event policy h in
    ground (arith, done.1, effects_of_final state event policy over done.0)

-- The tombstone of a terminal observation.
abbrev pub entombs : EventEnvelope → TurnKey → TombstoneEvidence
entombs event key = record {
  key = key;
  outcome_id = event.event_id;
  terminal = some (turn_state event.event);
}

module _ (state : ReductionState) (event : EventEnvelope) (policy : ObservationPolicy) where
  reduce_turn_tombstone :
      (key : TurnKey) (e : Effects)
      → e.tombstone ≡ none
      → (reduce_turn state event key policy e).tombstone ≡ (
          if is_terminal (turn_state event.event) && is_none state.tombstone
          then some (entombs event key)
          else none)
  unfolding reduce_turn observe_turn terminal progress uncertain
  reduce_turn_tombstone key e h = ground arith

  reduce_run_tombstone :
      (payload : EventPayload) (e : Effects)
      → e.tombstone ≡ none
      → (reduce_run payload policy e).tombstone ≡ none
  unfolding reduce_run reduce_health uncertain
  reduce_run_tombstone (EventPayload.run_exited exit) e h = h
  reduce_run_tombstone (EventPayload.producer_health health) e h = ground arith
  reduce_run_tombstone _ e h = h

  begin_tombstone : (begin state policy).tombstone ≡ none
  unfolding begin uncertain
  begin_tombstone = ground arith

-- Only an observation of a turn is terminal.
pub run_not_terminal :
    (payload : EventPayload) → turn_id payload ≡ none → is_terminal (turn_state payload) ≡ false
unfolding turn_id turn_state is_terminal
run_not_terminal (EventPayload.run_started _) h = refl
run_not_terminal _ h = ground arith

-- A reduction that succeeds leaves a tombstone exactly for the first terminal observation of a
-- turn: with the event's turn, its id and its outcome when none stood before, and none otherwise.
pub tombstone_exact :
    (state : ReductionState) (event : EventEnvelope) (policy : ObservationPolicy) (e : Effects)
    → reduce state event policy ≡ ok e
    → e.tombstone ≡ (
        if is_terminal (turn_state event.event) && is_none state.tombstone
        then Option.map (entombs event) (turn_key event)
        else none)
unfolding effects_of turn_key
tombstone_exact state event policy e h =
    let done = reduce-ok state event policy h in
    let start = begin_tombstone state event policy in
    elim (Option-cases (turn_id event.event)) [
      | inl run ↦
          rw (done.1, effects_of, turn_key, run, run_not_terminal event.event run)
            (reduce_run_tombstone state event policy event.event _ start)
      | inr (id, k) ↦
          rw (done.1, effects_of, turn_key, k)
            (reduce_turn_tombstone state event policy (scoped event id) _ start)
    ]

-- Still waiting, uncertain, or on another turn.
abbrev Waits : ReductionState → Effects → Type 0
Waits state e =
    (e.reconciliation_required ≡ true)
    ⊎ (e.current_turn ≢ state.current_turn)
    ⊎ (e.projection.turn ≡ TurnState.awaiting_approval)
    ⊎ (is_terminal e.projection.turn ≡ true)

module _ (state : ReductionState) (event : EventEnvelope) (policy : ObservationPolicy)
    (waits : state.projection.turn ≡ TurnState.awaiting_approval) where
  begin_waits :
      ((begin state policy).current_turn ≡ state.current_turn)
      × (((begin state policy).reconciliation_required ≡ true)
          ⊎ ((begin state policy).projection.turn ≡ TurnState.awaiting_approval))
  unfolding begin uncertain
  begin_waits = ground arith

  reduce_turn-Waits :
      (key : TurnKey) (e : Effects)
      → e.current_turn ≡ state.current_turn
      → ((e.reconciliation_required ≡ true) ⊎ (e.projection.turn ≡ TurnState.awaiting_approval))
      → Waits state (reduce_turn state event key policy e)
  unfolding reduce_turn observe_turn terminal progress uncertain
  reduce_turn-Waits key e c h = ground arith

  reduce_run-Waits :
      (payload : EventPayload) (e : Effects)
      → ((e.reconciliation_required ≡ true) ⊎ (e.projection.turn ≡ TurnState.awaiting_approval))
      → Waits state (reduce_run payload policy e)
  unfolding reduce_run reduce_health uncertain
  reduce_run-Waits (EventPayload.run_exited exit) e h = inl refl
  reduce_run-Waits (EventPayload.producer_health health) e h = ground arith
  reduce_run-Waits _ e h = ground arith

  effects_of-Waits : Waits state (effects_of state event policy)
  unfolding effects_of
  effects_of-Waits = elim (Option-cases (turn_key event)) [
    | inl run ↦ rw (run, effects_of) (reduce_run-Waits event.event _ begin_waits.1)
    | inr (key, k) ↦ rw (k, effects_of) (reduce_turn-Waits key _ begin_waits.0 begin_waits.1)
  ]

-- A native approval is never taken as given: when a reduction succeeds on a turn that awaits
-- approval, keeps that turn current and demands no reconciliation, the turn still awaits approval
-- or is over.
pub approval_waits :
    (state : ReductionState) (event : EventEnvelope) (policy : ObservationPolicy) (e : Effects)
    → reduce state event policy ≡ ok e
    → state.projection.turn ≡ TurnState.awaiting_approval
    → e.current_turn ≡ state.current_turn
    → e.reconciliation_required ≡ false
    → (e.projection.turn ≡ TurnState.awaiting_approval) ⊎ (is_terminal e.projection.turn ≡ true)
approval_waits state event policy e h waits same certain =
    ground (arith, (reduce-ok state event policy h).1, effects_of-Waits state event policy waits)
