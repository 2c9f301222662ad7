-- ===== src/Domain/Attention.antt =====
-- What domain/reducer.rs asks of the user, and when it demands reconciliation.
use omarchy_harbormaster.Common.{
  ◌≡◌, ◌≢◌, ◌⊎◌, refl, Bool, true, false, List, [], ◌∷◌, ◌||◌, ◌==◌, ok, arith, inl, inr, contains,
  Option-cases,
}
use omarchy_harbormaster.Common.BTreeSet.{Distinct}
use omarchy_harbormaster.Protocol.Event.{EventEnvelope, EventPayload}
use omarchy_harbormaster.Domain.Types.{
  TurnKey, TurnState, ReductionState, Effects, ObservationState, AttentionReason, attention_eq,
  is_terminal,
}
use omarchy_harbormaster.Domain.Policy.{ObservationPolicy}
use omarchy_harbormaster.Domain.Evidence.{turn_key, turn_state}
use omarchy_harbormaster.Domain.Reducer.{
  reduce, effects_of, begin, reduce_turn, observe_turn, terminal, progress, uncertain, reduce_run,
  reduce_health, unchanged, push, push_wait, stale_unless_explicit,
}
use omarchy_harbormaster.Domain.Invariants.{IsKept, effects_of-keeps, reduce-ok}

contains-push :
    (reasons : List AttentionReason) (a b : AttentionReason)
    → contains (push reasons a) b ≡ (contains reasons b || a == b)
contains-push [] a b = ground arith
contains-push (x ∷ xs) a b = ground (arith, contains-push xs a b)

push-Distinct :
    (reasons : List AttentionReason) (a : AttentionReason)
    → Distinct reasons
    → contains reasons a ≡ false
    → Distinct (push reasons a)
push-Distinct [] a d n = (refl, tt)
push-Distinct (x ∷ xs) a d n = ground (arith, push-Distinct xs a d.1, contains-push xs a x)

-- Reconciliation is demanded exactly with connection uncertainty.
abbrev IsHonest : Effects → Type 0
IsHonest e = contains e.attention AttentionReason.connection_uncertainty ≡ e.reconciliation_required

uncertain-IsHonest :
    (freshness : ObservationState) (lose : Bool) (e : Effects)
    → IsHonest e
    → IsHonest (uncertain freshness lose e)
unfolding uncertain
uncertain-IsHonest freshness lose e h = ground (
  arith,
  contains-push e.attention AttentionReason.connection_uncertainty
      AttentionReason.connection_uncertainty,
)

terminal-IsHonest :
    (event : EventEnvelope) (key : TurnKey) (observed : TurnState) (e : Effects)
    → IsHonest e
    → IsHonest (terminal event key observed e)
unfolding terminal
terminal-IsHonest event key observed e h = ground (
  arith,
  contains-push e.attention AttentionReason.completion AttentionReason.connection_uncertainty,
  contains-push e.attention AttentionReason.failure AttentionReason.connection_uncertainty,
)

progress-IsHonest :
    (key : TurnKey) (observed : TurnState) (e : Effects)
    → IsHonest e
    → IsHonest (progress key observed e)
unfolding progress push_wait
progress-IsHonest key observed e h = ground (
  arith,
  contains-push e.attention AttentionReason.input AttentionReason.connection_uncertainty,
  contains-push e.attention AttentionReason.native_approval AttentionReason.connection_uncertainty,
  uncertain-IsHonest ObservationState.stale false e h,
)

IsHonest-kept : (event : EventEnvelope) → IsKept event IsHonest
IsHonest-kept event = record {
  by_uncertain = uncertain-IsHonest;
  by_terminal = λ key e _ _ h. terminal-IsHonest event key (turn_state event.event) e h;
  by_progress = λ key e _ _ _ h. progress-IsHonest key (turn_state event.event) e h;
  by_exit = λ process freshness e h. uncertain-IsHonest freshness true _ h;
}

-- A reduction that succeeds demands reconciliation exactly when it tells the user of connection
-- uncertainty.
pub reconciliation_exact :
    (state : ReductionState) (event : EventEnvelope) (policy : ObservationPolicy) (e : Effects)
    → reduce state event policy ≡ ok e
    → e.reconciliation_required ≡ contains e.attention AttentionReason.connection_uncertainty
reconciliation_exact state event policy e h =
    let done = reduce-ok state event policy h in
    ground (arith, done.1, effects_of-keeps _ state event policy (IsHonest-kept event) refl)

-- Uncertain, and with no progress shown.
abbrev pub IsDark : Effects → Type 0
IsDark e =
    (e.reconciliation_required ≡ true)
    × (e.projection.observation ≢ ObservationState.fresh)
    × ((e.projection.turn ≡ TurnState.unknown) ⊎ (is_terminal e.projection.turn ≡ true))

uncertain-IsDark :
    (freshness : ObservationState) (lose : Bool) (e : Effects)
    → freshness ≢ ObservationState.fresh
    → ((lose ≡ true) ⊎ IsDark e)
    → IsDark (uncertain freshness lose e)
unfolding uncertain
uncertain-IsDark freshness lose e f h = ground arith

terminal-IsDark :
    (event : EventEnvelope) (key : TurnKey) (observed : TurnState) (e : Effects)
    → is_terminal observed ≡ true
    → IsDark e
    → IsDark (terminal event key observed e)
unfolding terminal
terminal-IsDark event key observed e t h = ground arith

stale_unless_explicit-ne-fresh :
    (policy : ObservationPolicy) → stale_unless_explicit policy ≢ ObservationState.fresh
unfolding stale_unless_explicit
stale_unless_explicit-ne-fresh policy = ground arith

module _ (state : ReductionState) (event : EventEnvelope) (policy : ObservationPolicy)
    (stale : policy.freshness ≢ ObservationState.fresh) where
  begin-IsDark : IsDark (begin state policy)
  unfolding begin
  begin-IsDark =
      ground (arith, uncertain-IsDark policy.freshness true (unchanged state) stale (inl refl))

  reduce_turn-IsDark :
      (key : TurnKey) (e : Effects) → IsDark e → IsDark (reduce_turn state event key policy e)
  unfolding reduce_turn observe_turn
  reduce_turn-IsDark key e h = ground (
    arith,
    terminal-IsDark event key (turn_state event.event) e,
    uncertain-IsDark policy.freshness true e stale (inl refl),
    uncertain-IsDark (stale_unless_explicit policy) false e (stale_unless_explicit-ne-fresh policy)
        (inr h),
  )

  reduce_run-IsDark :
      (payload : EventPayload) (e : Effects) → IsDark e → IsDark (reduce_run payload policy e)
  unfolding reduce_run reduce_health
  reduce_run-IsDark (EventPayload.run_exited exit) e h =
      uncertain-IsDark (stale_unless_explicit policy) true _ (stale_unless_explicit-ne-fresh policy)
        (inl refl)
  reduce_run-IsDark (EventPayload.producer_health health) e h = ground (
    arith,
    uncertain-IsDark policy.freshness true e stale (inl refl),
    uncertain-IsDark ObservationState.unsupported true e (λ p. cc) (inl refl),
  )
  reduce_run-IsDark _ e h = h

  effects_of-IsDark : IsDark (effects_of state event policy)
  unfolding effects_of
  effects_of-IsDark = elim (Option-cases (turn_key event)) [
    | inl run ↦ rw (run, effects_of) (reduce_run-IsDark event.event _ begin-IsDark)
    | inr (key, k) ↦ rw (k, effects_of) (reduce_turn-IsDark key _ begin-IsDark)
  ]

-- Observation that is not fresh shows no progress: a reduction under such a policy succeeds only
-- with reconciliation demanded, with a projection that is not fresh, and with a turn that is
-- unknown or over.
pub stale_shows_nothing :
    (state : ReductionState) (event : EventEnvelope) (policy : ObservationPolicy) (e : Effects)
    → reduce state event policy ≡ ok e
    → policy.freshness ≢ ObservationState.fresh
    → (e.reconciliation_required ≡ true)
      × (e.projection.observation ≢ ObservationState.fresh)
      × ((e.projection.turn ≡ TurnState.unknown) ⊎ (is_terminal e.projection.turn ≡ true))
stale_shows_nothing state event policy e h stale =
    ground (arith, (reduce-ok state event policy h).1, effects_of-IsDark state event policy stale)
