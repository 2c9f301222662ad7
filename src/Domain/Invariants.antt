-- ===== src/Domain/Invariants.antt =====
-- An induction rule over domain/reducer.rs: what its four ways to change the effects keep holds of
-- every reduction.
use omarchy_harbormaster.Common.{◌≡◌, Bool, true, false, some, ok, arith, Option-cases, inl, inr}
use omarchy_harbormaster.Protocol.Event.{EventEnvelope, EventPayload}
use omarchy_harbormaster.Domain.Types.{
  TurnKey, ReductionState, Effects, ProcessState, ObservationState, is_terminal,
}
use omarchy_harbormaster.Domain.Policy.{ObservationPolicy}
use omarchy_harbormaster.Domain.Evidence.{validate, turn_key, turn_state}
use omarchy_harbormaster.Domain.Reducer.{
  reduce, effects_of, begin, reduce_turn, observe_turn, terminal, progress, uncertain, reduce_run,
  reduce_health, unchanged, is_gone, stale_unless_explicit,
}

-- `P` is kept by each change that a reduction of `event` can make.
pub record IsKept (event : EventEnvelope) (P : Effects → Type 0) : Type 0 where
  pub by_uncertain :
      (freshness : ObservationState) (lose : Bool) (e : Effects)
      → P e
      → P (uncertain freshness lose e)
  pub by_terminal :
      (key : TurnKey) (e : Effects)
      → turn_key event ≡ some key
      → is_terminal (turn_state event.event) ≡ true
      → P e
      → P (terminal event key (turn_state event.event) e)
  pub by_progress :
      (key : TurnKey) (e : Effects)
      → turn_key event ≡ some key
      → is_terminal (turn_state event.event) ≡ false
      → is_gone e.projection.process ≡ false
      → P e
      → P (progress key (turn_state event.event) e)
  pub by_exit :
      (process : ProcessState) (freshness : ObservationState) (e : Effects)
      → P e
      → P (
          uncertain freshness true
            (record e { projection = record e.projection { process = process } }))

module _ (P : Effects → Type 0) (state : ReductionState) (event : EventEnvelope)
    (policy : ObservationPolicy) (kept : IsKept event P) where
  begin-keeps : P (unchanged state) → P (begin state policy)
  unfolding begin
  begin-keeps h = ground (arith, kept.by_uncertain policy.freshness true (unchanged state) h)

  observe_turn-keeps :
      (key : TurnKey) (e : Effects)
      → turn_key event ≡ some key
      → P e
      → P (observe_turn event key (turn_state event.event) policy e)
  unfolding observe_turn
  observe_turn-keeps key e k h = ground (
    arith,
    kept.by_uncertain policy.freshness true e h,
    kept.by_uncertain ObservationState.stale true e h,
    kept.by_terminal key e k,
    kept.by_progress key e k,
  )

  reduce_turn-keeps :
      (key : TurnKey) (e : Effects)
      → turn_key event ≡ some key
      → P e
      → P (reduce_turn state event key policy e)
  unfolding reduce_turn
  reduce_turn-keeps key e k h = ground (
    arith,
    observe_turn-keeps key e k h,
    kept.by_uncertain (stale_unless_explicit policy) false e h,
  )

  reduce_run-keeps : (payload : EventPayload) (e : Effects) → P e → P (reduce_run payload policy e)
  unfolding reduce_run reduce_health
  reduce_run-keeps (EventPayload.run_exited exit) e h = kept.by_exit _ _ e h
  reduce_run-keeps (EventPayload.producer_health health) e h = ground (
    arith,
    kept.by_uncertain ObservationState.unsupported true e h,
    kept.by_uncertain policy.freshness true e h,
  )
  reduce_run-keeps _ e h = h

  -- The rule.
  pub effects_of-keeps : P (unchanged state) → P (effects_of state event policy)
  unfolding effects_of
  effects_of-keeps h = elim (Option-cases (turn_key event)) [
    | inl run ↦ rw (run, effects_of) (reduce_run-keeps event.event _ (begin-keeps h))
    | inr (key, turn) ↦ rw (turn, effects_of) (reduce_turn-keeps key _ turn (begin-keeps h))
  ]

-- A reduction that succeeds passed `validate` and has the effects of `effects_of`.
pub reduce-ok :
    (state : ReductionState) (event : EventEnvelope) (policy : ObservationPolicy) {e : Effects}
    → reduce state event policy ≡ ok e
    → (validate state event policy ≡ ok tt) × (e ≡ effects_of state event policy)
unfolding reduce
reduce-ok state event policy h = ground arith
