-- ===== src/Storage/Validation/Tests.antt =====
-- The write set of a reduced event passes the checks.
use omarchy_harbormaster.Common.{
  ◌≡◌, refl, true, false, [], ◌∷◌, none, ok, nat_eq, bytes_eq, option_eq,
}
use omarchy_harbormaster.Protocol.Identity.{ident_eq}
use omarchy_harbormaster.Protocol.Event.{kind, kind_eq, turn_id}
use omarchy_harbormaster.Domain.Types.{
  ObservationState, ReductionState, TurnState, is_terminal, key_eq, observation_eq, turn_eq,
}
use omarchy_harbormaster.Domain.Evidence.{
  current_terminal, inconsistent, out_of_scope, same_scope, turn_key, turn_state, validate,
}
use omarchy_harbormaster.Domain.Policy.{ObservationPolicy, position, supported_at, supports}
use omarchy_harbormaster.Domain.Reducer.{
  begin, effects_of, observe_turn, progress, push_wait, reduce, reduce_turn,
}
use omarchy_harbormaster.Storage.Validation.{apply_invalid}
use omarchy_harbormaster.Storage.Validation.Reduced.{reduced_valid}
use omarchy_harbormaster.Storage.Tests.{fact_1, set_1, shown_1}

abbrev idle : ReductionState
idle = record {
  projection = record (shown_1 TurnState.unknown) { turn_id = none };
  current_turn = none;
  tombstone = none;
}

abbrev policy : ObservationPolicy
policy = record {
  supported = true ∷ true ∷ true ∷ true ∷ true ∷ true ∷ true ∷ true ∷ true ∷ [];
  freshness = ObservationState.fresh;
}

reduced_1 : reduce idle fact_1 policy ≡ ok set_1.effects
unfolding reduce validate out_of_scope inconsistent current_terminal supports position supported_at
    kind turn_key turn_id turn_state effects_of begin reduce_turn observe_turn progress push_wait
    is_terminal same_scope nat_eq ident_eq bytes_eq option_eq turn_eq observation_eq key_eq kind_eq
reduced_1 = refl

reduced_valid_example : apply_invalid set_1 ≡ false
reduced_valid_example = reduced_valid idle policy set_1 reduced_1 refl
