-- ===== src/Domain/Consistency.antt =====
-- What a reduction keeps of the state that domain/evidence.rs checks.
use omarchy_harbormaster.Common.{
  ◌≡◌, Bool, true, false, Option, none, some, option_eq, ok, is_some_and, not, arith,
}
use mathlib.Core.Option
use omarchy_harbormaster.Protocol.Event.{EventEnvelope}
use omarchy_harbormaster.Domain.Types.{
  TurnKey, TurnState, ReductionState, RunProjection, Effects, TombstoneEvidence, ObservationState,
}
use omarchy_harbormaster.Domain.Policy.{ObservationPolicy}
use omarchy_harbormaster.Domain.Evidence.{
  validate, same_scope, turn_state, out_of_scope, inconsistent, turn_key,
}
use omarchy_harbormaster.Domain.Reducer.{reduce, terminal, progress, uncertain, unchanged}
use omarchy_harbormaster.Domain.Invariants.{IsKept, effects_of-keeps, reduce-ok}

-- The shown turn is the current one, and an idle run shows no progress.
pub record IsConsistent (projection : RunProjection) (current : Option TurnKey) : Type 0 where
  pub shown : projection.turn_id ≡ Option.map (λ (key : TurnKey). key.turn_id) current
  pub idle : current ≡ none → projection.turn ≡ TurnState.unknown

uncertain-IsConsistent :
    (freshness : ObservationState) (lose : Bool) (e : Effects)
    → IsConsistent e.projection e.current_turn
    → IsConsistent (uncertain freshness lose e).projection (uncertain freshness lose e).current_turn
unfolding uncertain
uncertain-IsConsistent freshness lose e c = ground arith

terminal-IsConsistent :
    (event : EventEnvelope) (key : TurnKey) (observed : TurnState) (e : Effects)
    → IsConsistent e.projection e.current_turn
    → IsConsistent
        (terminal event key observed e).projection
        (terminal event key observed e).current_turn
unfolding terminal
terminal-IsConsistent event key observed e c = ground arith

progress-IsConsistent :
    (key : TurnKey) (observed : TurnState) (e : Effects)
    → IsConsistent e.projection e.current_turn
    → IsConsistent (progress key observed e).projection (progress key observed e).current_turn
unfolding progress uncertain
progress-IsConsistent key observed e c = ground arith

consistency_kept :
    (event : EventEnvelope) → IsKept event (λ e. IsConsistent e.projection e.current_turn)
consistency_kept event = record {
  by_uncertain = uncertain-IsConsistent;
  by_terminal = λ key e _ _ c. terminal-IsConsistent event key (turn_state event.event) e c;
  by_progress = λ key e _ _ _ c. progress-IsConsistent key (turn_state event.event) e c;
  by_exit = λ process freshness e c.
      uncertain-IsConsistent freshness true _ (record { shown = c.shown; idle = c.idle });
}

-- The current turn, if there is one, belongs to the event's run, producer and generation.
abbrev pub InScope : EventEnvelope → Effects → Type 0
InScope event e =
    (e.projection.run_id ≡ event.run_id)
    × (is_some_and e.current_turn (λ current. not (same_scope current event)) ≡ false)

pub key_in_scope :
    (event : EventEnvelope) (key : TurnKey)
    → turn_key event ≡ some key
    → same_scope key event ≡ true
unfolding turn_key same_scope
key_in_scope event key k = ground arith

pub scope_kept : (event : EventEnvelope) → IsKept event (InScope event)
unfolding uncertain terminal progress
scope_kept event = record {
  by_uncertain = λ freshness lose e s. s;
  by_terminal = λ key e k _ s. ground (arith, key_in_scope event key k);
  by_progress = λ key e k _ _ s. ground (arith, key_in_scope event key k);
  by_exit = λ process freshness e s. s;
}

-- What `validate` has checked.
pub validate-IsConsistent :
    (state : ReductionState) (event : EventEnvelope) (policy : ObservationPolicy)
    → validate state event policy ≡ ok tt
    → IsConsistent state.projection state.current_turn × InScope event (unchanged state)
unfolding validate out_of_scope inconsistent
validate-IsConsistent state event policy h = ground arith

pub reduce_keeps :
    (state : ReductionState) (event : EventEnvelope) (policy : ObservationPolicy) (e : Effects)
    → reduce state event policy ≡ ok e
    → IsConsistent e.projection e.current_turn × InScope event e
reduce_keeps state event policy e h =
    let done = reduce-ok state event policy h in
    let valid = validate-IsConsistent state event policy done.0 in
    let consistent = effects_of-keeps _ state event policy (consistency_kept event) valid.0 in
    let scope = effects_of-keeps _ state event policy (scope_kept event) valid.1 in
    ground (arith, done.1, consistent, scope)

-- The state that the effects of a reduction leave, with what is known of the next event's turn.
abbrev pub after : Effects → Option TombstoneEvidence → ReductionState
after e tombstone = record {
  projection = e.projection;
  current_turn = e.current_turn;
  tombstone = tombstone;
}

-- When a reduction succeeds, the state that it leaves is in the scope of every later event of the
-- same run, producer and generation, and is consistent for it: the first two tests of `validate`
-- pass when no tombstone stands for the later event's turn.
pub reduce-accepted :
    (state : ReductionState) (event next : EventEnvelope) (policy : ObservationPolicy) (e : Effects)
    → reduce state event policy ≡ ok e
    → next.run_id ≡ event.run_id
    → next.producer_id ≡ event.producer_id
    → next.generation ≡ event.generation
    → (out_of_scope (after e none) next ≡ false) × (inconsistent (after e none) next ≡ false)
unfolding out_of_scope inconsistent same_scope
reduce-accepted state event next policy e h run producer generation =
    ground (arith, reduce_keeps state event policy e h)
