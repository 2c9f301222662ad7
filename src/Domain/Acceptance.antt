-- ===== src/Domain/Acceptance.antt =====
-- Which observations domain/evidence.rs accepts, and that a repeated one changes nothing.
use omarchy_harbormaster.Common.{
  ◌≡◌, ◌⊎◌, ◌↔◌, refl, sym, ap, ◌∙◌, true, false, Option, none, some, ok, arith, inl, inr,
  option_eq, is_some_and, not, Option-cases, Bool-cases, ◌==◌,
}
use omarchy_harbormaster.Protocol.Event.{EventEnvelope, kind, turn_id}
use omarchy_harbormaster.Domain.Types.{
  TurnKey, TurnState, ReductionState, Effects, ObservationState, TombstoneEvidence, is_terminal,
  key_eq,
}
use omarchy_harbormaster.Domain.Policy.{ObservationPolicy, supports}
use omarchy_harbormaster.Domain.Evidence.{
  validate, current_terminal, terminal_disagrees, turn_key, turn_state, same_scope, out_of_scope,
  inconsistent,
}
use omarchy_harbormaster.Domain.Reducer.{
  reduce, effects_of, begin, reduce_turn, observe_turn, terminal, unchanged,
}
use omarchy_harbormaster.Domain.Invariants.{reduce-ok}
use omarchy_harbormaster.Domain.Consistency.{IsConsistent, InScope, after, reduce_keeps}
use omarchy_harbormaster.Domain.Terminal.{entombs, run_not_terminal}

-- The key's run, producer and generation are the event's.
abbrev pub SameScope : EventEnvelope → Option TurnKey → Type 0
SameScope event none = Unit
SameScope event (some key) =
    (key.run_id ≡ event.run_id)
    × (key.producer_id ≡ event.producer_id)
    × (key.generation ≡ event.generation)

-- A tombstone is for the event's turn, and names an outcome or nothing.
abbrev IsEntombed : EventEnvelope → Option TombstoneEvidence → Type 0
IsEntombed event none = Unit
IsEntombed event (some t) =
    (turn_key event ≡ some t.key)
    × ((t.terminal ≡ none)
        ⊎ ((kind : TurnState) × (t.terminal ≡ some kind) × (is_terminal kind ≡ true)))

-- What is shown of the event's turn agrees with its tombstone.
abbrev Agrees : TurnState → Option TombstoneEvidence → Type 0
Agrees turn none = is_terminal turn ≡ false
Agrees turn (some t) =
    (t.terminal ≡ some turn)
    ⊎ ((t.terminal ≡ none) × ((is_terminal turn ≡ true) ⊎ (turn ≡ TurnState.unknown)))

pub record IsAdmissible (state : ReductionState) (event : EventEnvelope)
    (policy : ObservationPolicy) : Type 0 where
  pub run : state.projection.run_id ≡ event.run_id
  pub scope : SameScope event state.current_turn
  pub consistent : IsConsistent state.projection state.current_turn
  pub entombed : IsEntombed event state.tombstone
  pub agrees : state.current_turn ≡ turn_key event → Agrees state.projection.turn state.tombstone
  pub supported : supports policy (kind event.event) ≡ true

module _ (state : ReductionState) (event : EventEnvelope) where
  out_of_scope_iff :
      (out_of_scope state event ≡ false)
      ↔ ((state.projection.run_id ≡ event.run_id) × SameScope event state.current_turn)
  unfolding out_of_scope same_scope
  out_of_scope_iff = ground arith

  inconsistent_iff :
      (inconsistent state event ≡ false)
      ↔ (IsConsistent state.projection state.current_turn × IsEntombed event state.tombstone)
  unfolding inconsistent
  inconsistent_iff = ground arith

  Agrees-iff :
      (turn : TurnState) (tombstone : Option TombstoneEvidence)
      → (terminal_disagrees turn tombstone ≡ false) ↔ Agrees turn tombstone
  unfolding terminal_disagrees
  Agrees-iff turn tombstone = ground arith

  current_terminal_iff :
      (current_terminal state event ≡ ok tt)
      ↔ (state.current_turn ≡ turn_key event → Agrees state.projection.turn state.tombstone)
  unfolding current_terminal
  current_terminal_iff = (
    λ h e. (Agrees-iff _ _).0 (ground arith),
    λ h. elim (Bool-cases (state.current_turn == turn_key event)) [
      | inl same ↦ ground (arith, (Agrees-iff _ _).1 (h (ground arith)))
      | inr other ↦ ground arith
    ],
  )

  validate_parts :
      (policy : ObservationPolicy)
      → (validate state event policy ≡ ok tt) ↔ (
          (out_of_scope state event ≡ false)
          × (inconsistent state event ≡ false)
          × (current_terminal state event ≡ ok tt)
          × (supports policy (kind event.event) ≡ true))
  unfolding validate
  validate_parts policy = ground arith

  validate_iff :
      (policy : ObservationPolicy)
      → (validate state event policy ≡ ok tt) ↔ IsAdmissible state event policy
  validate_iff policy = (
    λ h.
        let parts = (validate_parts policy).0 h in
        let scope = out_of_scope_iff.0 parts.0 in
        let state_facts = inconsistent_iff.0 parts.1 in
        record {
          run = scope.0;
          scope = scope.1;
          consistent = state_facts.0;
          entombed = state_facts.1;
          agrees = current_terminal_iff.0 parts.2;
          supported = parts.3;
        },
    λ a. (validate_parts policy).1 (
      out_of_scope_iff.1 (a.run, a.scope),
      inconsistent_iff.1 (a.consistent, a.entombed),
      current_terminal_iff.1 a.agrees,
      a.supported,
    ),
  )

turn_key-none : (event : EventEnvelope) → turn_key event ≡ none → turn_id event.event ≡ none
unfolding turn_key
turn_key-none event h = ground arith

-- A reduction succeeds exactly on a state that is in the event's scope, consistent, with a
-- tombstone only for the event's turn, that agrees with it where the event's turn is the current
-- one, and for a kind that the policy supports.
pub reduce_total :
    (state : ReductionState) (event : EventEnvelope) (policy : ObservationPolicy)
    → ((e : Effects) × (reduce state event policy ≡ ok e)) ↔ IsAdmissible state event policy
unfolding reduce
reduce_total state event policy =
    let valid = validate_iff state event policy in
    (
      λ (e, h). valid.0 (reduce-ok state event policy h).0,
      λ a. (effects_of state event policy, ground (arith, valid.1 a)),
    )

module _ (state : ReductionState) (event : EventEnvelope) (policy : ObservationPolicy)
    (key : TurnKey) (fresh : policy.freshness ≡ ObservationState.fresh)
    (turn : turn_key event ≡ some key) (over : is_terminal (turn_state event.event) ≡ true) where
  first_terminal :
      state.tombstone ≡ none
      → effects_of state event policy
        ≡ terminal event key (turn_state event.event) (unchanged state)
  unfolding effects_of begin reduce_turn observe_turn
  first_terminal first = rw (turn, effects_of) (ground arith)

  -- The tombstone of the observation silences it.
  later_terminal :
      (t : TombstoneEvidence)
      → state.tombstone ≡ some t
      → t.terminal ≡ some (turn_state event.event)
      → effects_of state event policy ≡ unchanged state
  unfolding effects_of begin reduce_turn
  later_terminal t entombed same = rw (turn, effects_of) (ground arith)

  terminal_leaves :
      let e = terminal event key (turn_state event.event) (unchanged state) in
      (e.tombstone ≡ some (entombs event key))
      × (e.current_turn ≡ some key → e.projection.turn ≡ turn_state event.event)
  unfolding terminal
  terminal_leaves = ground arith

same_scope_of :
    (event : EventEnvelope) (current : Option TurnKey)
    → is_some_and current (λ key. not (same_scope key event)) ≡ false
    → SameScope event current
unfolding same_scope
same_scope_of event current h = ground arith

-- With its own tombstone in place a terminal observation is admissible again.
again-IsAdmissible :
    (event : EventEnvelope) (policy : ObservationPolicy) (key : TurnKey) (e : Effects)
    → turn_key event ≡ some key
    → is_terminal (turn_state event.event) ≡ true
    → supports policy (kind event.event) ≡ true
    → IsConsistent e.projection e.current_turn
    → InScope event e
    → (e.current_turn ≡ some key → e.projection.turn ≡ turn_state event.event)
    → IsAdmissible (after e (some (entombs event key))) event policy
again-IsAdmissible event policy key e turn over supported consistent scope shown = record {
  run = scope.0;
  scope = same_scope_of event e.current_turn scope.1;
  consistent = consistent;
  entombed = (turn, inr (turn_state event.event, refl, over));
  agrees = λ same. inl (ap some (sym (shown (same ∙ turn))));
  supported = supported;
}

reduce_again :
    (event : EventEnvelope) (policy : ObservationPolicy) (key : TurnKey) (e : Effects)
    → policy.freshness ≡ ObservationState.fresh
    → turn_key event ≡ some key
    → is_terminal (turn_state event.event) ≡ true
    → IsAdmissible (after e (some (entombs event key))) event policy
    → reduce (after e (some (entombs event key))) event policy
      ≡ ok (unchanged (after e (some (entombs event key))))
unfolding reduce
reduce_again event policy key e fresh turn over valid =
    let again = after e (some (entombs event key)) in
    ground (
      arith,
      (validate_iff again event policy).1 valid,
      later_terminal again event policy key fresh turn over (entombs event key) refl refl,
    )

-- After a terminal observation has been reduced under a fresh policy, the same observation again,
-- with the tombstone that it left, is accepted and changes nothing.
pub terminal_replay :
    (state : ReductionState) (event : EventEnvelope) (policy : ObservationPolicy) (e : Effects)
    → reduce state event policy ≡ ok e
    → policy.freshness ≡ ObservationState.fresh
    → state.tombstone ≡ none
    → is_terminal (turn_state event.event) ≡ true
    → reduce (after e e.tombstone) event policy ≡ ok (unchanged (after e e.tombstone))
terminal_replay state event policy e h fresh first over = elim (Option-cases (turn_key event)) [
  | inl run ↦ cc (run_not_terminal event.event (turn_key-none event run))
  | inr (key, turn) ↦
      let done = reduce-ok state event policy h in
      let start = first_terminal state event policy key fresh turn over first in
      let leaves = terminal_leaves state event policy key fresh turn over in
      let kept = reduce_keeps state event policy e h in
      let entombed : e.tombstone ≡ some (entombs event key) =
        ground (arith, done.1, start, leaves) in
      let shown : e.current_turn ≡ some key → e.projection.turn ≡ turn_state event.event =
        λ c. ground (arith, done.1, start, leaves, c) in
      let supported = ((reduce_total state event policy).0 (e, h)).supported in
      let valid = again-IsAdmissible event policy key e turn over supported kept.0 kept.1 shown in
      rw entombed (reduce_again event policy key e fresh turn over valid)
]
