-- ===== src/Storage/Validation/Brief.antt =====
-- How much attention a reduction of domain/reducer.rs asks for: what `apply` of
-- storage/reducer_validation.rs counts.
use omarchy_harbormaster.Common.{
  ◌≡◌, ◌≢◌, ◌⊎◌, inl, inr, refl, sym, ap, subst, Bool, true, false, List, [], ◌∷◌, ◌++◌, ◌==◌,
  option_eq, nat_eq, ltb, length, arith, Option-cases, if◌then◌else◌,
}
use omarchy_harbormaster.Common.BTreeSet
use omarchy_harbormaster.Common.BTreeSet.{collect}
use omarchy_harbormaster.Protocol.Identity.{ident_eq}
use omarchy_harbormaster.Protocol.Event.{EventEnvelope, EventPayload, HealthPayload}
use omarchy_harbormaster.Domain.Types.{
  AttentionReason, Effects, ObservationState, ReductionState, TurnKey, TurnState, attention_eq,
  turn_eq,
}
use omarchy_harbormaster.Domain.Policy.{ObservationPolicy}
use omarchy_harbormaster.Domain.Evidence.{turn_key, turn_state}
use omarchy_harbormaster.Domain.Reducer
use omarchy_harbormaster.Domain.Reducer.{
  begin, effects_of, observe_turn, progress, push_wait, reduce, reduce_health, reduce_run,
  reduce_turn, uncertain, unchanged,
}
use omarchy_harbormaster.Storage.Validation.{any_repeated, reason_ord}

-- Nothing is asked but that the connection is looked after.
abbrev pub IsQuiet : List AttentionReason → Type 0
IsQuiet reasons = (reasons ≡ []) ⊎ (reasons ≡ AttentionReason.connection_uncertainty ∷ [])

-- At most one more reason, and another one.
pub data IsBrief (reasons : List AttentionReason) : Type 0 where
  quiet : IsQuiet reasons → IsBrief reasons
  one : (reason : AttentionReason) → reasons ≡ reason ∷ [] → IsBrief reasons
  more :
      (reason : AttentionReason)
      → reason ≢ AttentionReason.connection_uncertainty
      → reasons ≡ AttentionReason.connection_uncertainty ∷ reason ∷ []
      → IsBrief reasons

one_fits : (reason : AttentionReason) → any_repeated (reason ∷ []) ≡ false
unfolding any_repeated collect BTreeSet.insert nat_eq
one_fits reason = refl

two_fit :
    (reason : AttentionReason)
    → reason ≢ AttentionReason.connection_uncertainty
    → any_repeated (AttentionReason.connection_uncertainty ∷ reason ∷ []) ≡ false
unfolding any_repeated collect BTreeSet.insert reason_ord nat_eq
two_fit AttentionReason.connection_uncertainty h = absurd (h refl)
two_fit AttentionReason.input h = refl
two_fit AttentionReason.native_approval h = refl
two_fit AttentionReason.failure h = refl
two_fit AttentionReason.completion h = refl

pub brief_fits :
    (reasons : List AttentionReason)
    → IsBrief reasons
    → (ltb 8 (length reasons) ≡ false) × (any_repeated reasons ≡ false)
unfolding any_repeated collect nat_eq
brief_fits reasons (quiet (inl e)) =
    subst (λ r. (ltb 8 (length r) ≡ false) × (any_repeated r ≡ false)) (sym e) (refl, refl)
brief_fits reasons (quiet (inr e)) =
    subst (λ r. (ltb 8 (length r) ≡ false) × (any_repeated r ≡ false)) (sym e)
      (refl, one_fits AttentionReason.connection_uncertainty)
brief_fits reasons (one reason e) =
    subst (λ r. (ltb 8 (length r) ≡ false) × (any_repeated r ≡ false)) (sym e)
      (refl, one_fits reason)
brief_fits reasons (more reason other e) =
    subst (λ r. (ltb 8 (length r) ≡ false) × (any_repeated r ≡ false)) (sym e)
      (refl, two_fit reason other)

uncertain-IsQuiet :
    (freshness : ObservationState) (lose : Bool) (e : Effects)
    → IsQuiet e.attention
    → IsQuiet (uncertain freshness lose e).attention
unfolding uncertain
uncertain-IsQuiet freshness lose e (inl h) = inr (ground arith)
uncertain-IsQuiet freshness lose e (inr h) = inr (ground arith)

pushed-IsBrief :
    (reason : AttentionReason) (reasons : List AttentionReason)
    → reason ≢ AttentionReason.connection_uncertainty
    → IsQuiet reasons
    → IsBrief (reasons ++ reason ∷ [])
pushed-IsBrief reason reasons other (inl e) = one reason (ap (λ r. r ++ reason ∷ []) e)
pushed-IsBrief reason reasons other (inr e) = more reason other (ap (λ r. r ++ reason ∷ []) e)

terminal-attention :
    (event : EventEnvelope) (key : TurnKey) (observed : TurnState) (e : Effects)
    → (Reducer.terminal event key observed e).attention
      ≡ e.attention
        ++ (if observed == TurnState.completed
            then AttentionReason.completion
            else AttentionReason.failure)
          ∷ []
unfolding Reducer.terminal
terminal-attention event key observed e = ground arith

outcome_reason :
    (b : Bool)
    → (if b then AttentionReason.completion else AttentionReason.failure)
      ≢ AttentionReason.connection_uncertainty
outcome_reason true h = cc
outcome_reason false h = cc

terminal-IsBrief :
    (event : EventEnvelope) (key : TurnKey) (observed : TurnState) (e : Effects)
    → IsQuiet e.attention
    → IsBrief (Reducer.terminal event key observed e).attention
terminal-IsBrief event key observed e q =
    subst IsBrief (sym (terminal-attention event key observed e))
      (pushed-IsBrief _ e.attention (outcome_reason (observed == TurnState.completed)) q)

push_wait-IsBrief :
    (observed : TurnState) (reasons : List AttentionReason)
    → IsQuiet reasons
    → IsBrief (push_wait observed reasons)
unfolding push_wait
push_wait-IsBrief TurnState.awaiting_input reasons q =
    pushed-IsBrief AttentionReason.input reasons (λ h. cc) q
push_wait-IsBrief TurnState.awaiting_approval reasons q =
    pushed-IsBrief AttentionReason.native_approval reasons (λ h. cc) q
push_wait-IsBrief _ reasons q = quiet q

progress-attention :
    (key : TurnKey) (observed : TurnState) (e : Effects)
    → ((progress key observed e).attention ≡ (uncertain ObservationState.stale false e).attention)
      ⊎ ((progress key observed e).attention ≡ e.attention)
      ⊎ ((progress key observed e).attention ≡ push_wait observed e.attention)
unfolding progress
progress-attention key observed e = ground arith

progress-IsBrief :
    (key : TurnKey) (observed : TurnState) (e : Effects)
    → IsQuiet e.attention
    → IsBrief (progress key observed e).attention
progress-IsBrief key observed e q = elim (progress-attention key observed e) [
  | inl h ↦ subst IsBrief (sym h) (quiet (uncertain-IsQuiet ObservationState.stale false e q))
  | inr (inl h) ↦ subst IsBrief (sym h) (quiet q)
  | inr (inr h) ↦ subst IsBrief (sym h) (push_wait-IsBrief observed e.attention q)
]

-- A reduction ends in one step on what it began with.
module _ (P : Effects → Type 0) (state : ReductionState) (event : EventEnvelope)
    (policy : ObservationPolicy) where
  reduce_turn-steps :
      (key : TurnKey) (e : Effects)
      → P e
      → P (Reducer.terminal event key (turn_state event.event) e)
      → P (progress key (turn_state event.event) e)
      → ((freshness : ObservationState) (lose : Bool) → P (uncertain freshness lose e))
      → P (reduce_turn state event key policy e)
  unfolding reduce_turn observe_turn
  reduce_turn-steps key e same over on dark = ground (
    arith,
    same,
    over,
    on,
    dark (Reducer.stale_unless_explicit policy) false,
    dark policy.freshness true,
    dark ObservationState.stale true,
  )

  reduce_health-steps :
      (health : HealthPayload) (e : Effects)
      → P e
      → ((freshness : ObservationState) (lose : Bool) → P (uncertain freshness lose e))
      → P (reduce_health health policy e)
  unfolding reduce_health
  reduce_health-steps health e same dark =
      ground (arith, same, dark policy.freshness true, dark ObservationState.unsupported true)

module _ (state : ReductionState) (event : EventEnvelope) (policy : ObservationPolicy) where
  begin-IsQuiet : IsQuiet (begin state policy).attention
  unfolding begin uncertain
  begin-IsQuiet = ground arith

  reduce_turn-IsBrief :
      (key : TurnKey) (e : Effects)
      → IsQuiet e.attention
      → IsBrief (reduce_turn state event key policy e).attention
  reduce_turn-IsBrief key e q =
      reduce_turn-steps (λ x. IsBrief x.attention) state event policy key e (quiet q)
        (terminal-IsBrief event key (turn_state event.event) e q)
        (progress-IsBrief key (turn_state event.event) e q)
        (λ freshness lose. quiet (uncertain-IsQuiet freshness lose e q))

  reduce_run-IsBrief :
      (payload : EventPayload) (e : Effects)
      → IsQuiet e.attention
      → IsBrief (reduce_run payload policy e).attention
  unfolding reduce_run
  reduce_run-IsBrief (EventPayload.run_exited exit) e q = quiet (uncertain-IsQuiet _ true _ q)
  reduce_run-IsBrief (EventPayload.producer_health health) e q =
      reduce_health-steps (λ x. IsBrief x.attention) state event policy health e (quiet q)
        (λ freshness lose. quiet (uncertain-IsQuiet freshness lose e q))
  reduce_run-IsBrief _ e q = quiet q

  pub effects_of-IsBrief : IsBrief (effects_of state event policy).attention
  unfolding effects_of
  effects_of-IsBrief = elim (Option-cases (turn_key event)) [
    | inl run ↦ rw (run, effects_of) (reduce_run-IsBrief event.event _ begin-IsQuiet)
    | inr (key, k) ↦ rw (k, effects_of) (reduce_turn-IsBrief key _ begin-IsQuiet)
  ]
