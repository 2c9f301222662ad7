-- ===== src/Storage/Validation/Reduced.antt =====
-- What domain/reducer.rs decides passes the checks of storage/reducer_validation.rs.
use omarchy_harbormaster.Common.{
  ◌≡◌, refl, sym, subst, Bool, true, false, not, ◌&&◌, Option, none, some, option_eq, nat_eq, ok,
  arith, is_none, is_some_and, if◌then◌else◌,
}
use mathlib.Core.Option
use omarchy_harbormaster.Protocol.Identity.{ident_eq}
use omarchy_harbormaster.Protocol.Event.{EventEnvelope, EventPayload, kind}
use omarchy_harbormaster.Domain.Types.{
  Effects, ReductionState, TurnKey, attention_eq, is_terminal, turn_eq,
}
use omarchy_harbormaster.Domain.Policy.{ObservationPolicy}
use omarchy_harbormaster.Domain.Evidence.{same_scope, turn_key, turn_state}
use omarchy_harbormaster.Domain.Reducer
use omarchy_harbormaster.Domain.Reducer.{
  begin, effects_of, observe_turn, progress, push_wait, reduce, reduce_health, reduce_run,
  reduce_turn, uncertain, unchanged,
}
use omarchy_harbormaster.Domain.Invariants.{IsKept, effects_of-keeps, reduce-ok}
use omarchy_harbormaster.Domain.Consistency.{
  InScope, IsConsistent, key_in_scope, reduce_keeps, validate-IsConsistent,
}
use omarchy_harbormaster.Domain.Terminal.{entombs, tombstone_exact}
use omarchy_harbormaster.Storage.Types.{ReducerWrite, is_negative}
use omarchy_harbormaster.Storage.Validation.{
  apply_invalid, reason_ord, terminal, tombstone_invalid, turn_invalid,
}
use omarchy_harbormaster.Storage.Validation.Brief.{IsBrief, brief_fits, effects_of-IsBrief}

-- A turn whose transient attention is to be resolved is in the event's scope, and so is the current.
abbrev IsResolving : EventEnvelope → Effects → Type 0
IsResolving event e =
    (is_some_and e.resolve_transient (λ key. not (same_scope key event)) ≡ false) × InScope event e

IsResolving-kept : (event : EventEnvelope) → IsKept event (IsResolving event)
unfolding uncertain Reducer.terminal progress
IsResolving-kept event = record {
  by_uncertain = λ freshness lose e s. s;
  by_terminal = λ key e k _ s. ground (arith, key_in_scope event key k);
  by_progress = λ key e k _ _ s. ground (arith, key_in_scope event key k);
  by_exit = λ process freshness e s. s;
}

turn_valid :
    (event : EventEnvelope) (e : Effects)
    → IsConsistent e.projection e.current_turn
    → InScope event e
    → turn_invalid event e ≡ false
unfolding turn_invalid
turn_valid event e c s = ground (arith, c.shown, c.idle)

terminal_state :
    (payload : EventPayload)
    → is_terminal (turn_state payload) ≡ true
    → terminal (kind payload) ≡ some (turn_state payload)
unfolding is_terminal terminal kind turn_state
terminal_state (EventPayload.turn_completed _) h = refl
terminal_state (EventPayload.turn_failed _) h = refl
terminal_state (EventPayload.turn_interrupted _) h = refl
terminal_state _ h = ground arith

entombed_valid :
    (event : EventEnvelope) (key : TurnKey)
    → turn_key event ≡ some key
    → is_terminal (turn_state event.event) ≡ true
    → tombstone_invalid event (entombs event key) ≡ false
unfolding tombstone_invalid turn_key
entombed_valid event key k over =
    ground (arith, key_in_scope event key k, terminal_state event.event over)

tombstone_valid :
    (state : ReductionState) (event : EventEnvelope) (policy : ObservationPolicy) (e : Effects)
    → reduce state event policy ≡ ok e
    → is_some_and e.tombstone (tombstone_invalid event) ≡ false
tombstone_valid state event policy e h =
    go (is_terminal (turn_state event.event)) (is_none state.tombstone) (turn_key event) refl refl
      (tombstone_exact state event policy e h)
  where
    go :
        (over blank : Bool) (key : Option TurnKey)
        → is_terminal (turn_state event.event) ≡ over
        → turn_key event ≡ key
        → e.tombstone ≡ (if over && blank then Option.map (entombs event) key else none)
        → is_some_and e.tombstone (tombstone_invalid event) ≡ false
    go true true (some key) over k t =
        subst (λ x. is_some_and x (tombstone_invalid event) ≡ false) (sym t)
          (entombed_valid event key k over)
    go true true none over k t =
        subst (λ x. is_some_and x (tombstone_invalid event) ≡ false) (sym t) refl
    go true false key over k t =
        subst (λ x. is_some_and x (tombstone_invalid event) ≡ false) (sym t) refl
    go false blank key over k t =
        subst (λ x. is_some_and x (tombstone_invalid event) ≡ false) (sym t) refl

-- What a reduction of an event decides, written at a time from 1970 on, is a write set that the
-- storage does not refuse for its shape.
pub reduced_valid :
    (state : ReductionState) (policy : ObservationPolicy) (set : ReducerWrite)
    → reduce state set.fact policy ≡ ok set.effects
    → is_negative set.accepted_at ≡ false
    → apply_invalid set ≡ false
unfolding apply_invalid
reduced_valid state policy set h dated =
    let done = reduce-ok state set.fact policy h in
    let start = validate-IsConsistent state set.fact policy done.0 in
    let (short, fresh) =
      brief_fits set.effects.attention (
        subst (λ x. IsBrief x.attention) (sym done.1) (effects_of-IsBrief state set.fact policy)) in
    let (consistent, scope) = reduce_keeps state set.fact policy set.effects h in
    let (resolving, _) =
      subst (IsResolving set.fact) (sym done.1)
        (effects_of-keeps _ state set.fact policy (IsResolving-kept set.fact) (refl, start.1)) in
    ground (
      arith,
      dated,
      short,
      fresh,
      scope.0,
      turn_valid set.fact set.effects consistent scope,
      resolving,
      tombstone_valid state set.fact policy set.effects h,
    )
