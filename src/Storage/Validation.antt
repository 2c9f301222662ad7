-- ===== src/Storage/Validation.antt =====
-- crates/harbormaster/src/storage/reducer_validation.rs: the shape of a request, before it queues.
pub mod Brief
pub mod Reduced
mod Tests
use omarchy_harbormaster.Common.{
  ◌≡◌, refl, ℕ, Bool, true, false, not, ◌&&◌, ◌||◌, List, Option, none, some, ◌==◌, option_eq, ltb,
  length, if◌then◌else◌, Result, ◌>>=◌, ◌>>◌, reject_if, ok_or, is_some_and, is_none, is_none_or,
  nat_eq,
}
use mathlib.Core.Option
use omarchy_harbormaster.Common.BTreeSet
use omarchy_harbormaster.Common.BTreeSet.{Ord}
use omarchy_harbormaster.Protocol.Identity.{ident_eq}
use omarchy_harbormaster.Protocol.Event.{
  EventEnvelope, EventKind, turn_completed, turn_failed, turn_interrupted, kind, turn_id,
}
use omarchy_harbormaster.Domain.Types.{
  AttentionReason, Effects, ObservationState, ProcessState, TombstoneEvidence, TurnKey, TurnState,
  is_terminal, turn_eq, process_eq, observation_eq, attention_eq,
}
use omarchy_harbormaster.Domain.Evidence.{same_scope}
use omarchy_harbormaster.Domain.Reconciliation.{is_open_turn}
use omarchy_harbormaster.Storage.{StorageError}
use omarchy_harbormaster.Storage.Types.{
  Reconciliation, ReconciliationBaseline, ReducerWrite, is_negative, unavailable, verified,
  is_verified,
}
use omarchy_harbormaster.Storage.Database.{Json}

-- `terminal`
unfoldable pub terminal : EventKind → Option TurnState
terminal turn_completed = some TurnState.completed
terminal turn_failed = some TurnState.failed
terminal turn_interrupted = some TurnState.interrupted
terminal _ = none

-- `reason as u8`
abbrev pub reason_number : AttentionReason → ℕ
reason_number AttentionReason.input = 0
reason_number AttentionReason.native_approval = 1
reason_number AttentionReason.failure = 2
reason_number AttentionReason.connection_uncertainty = 3
reason_number AttentionReason.completion = 4

abbrev pub nth_reason : ℕ → AttentionReason
nth_reason n =
    if n == 0
    then AttentionReason.input
    else if n == 1
    then AttentionReason.native_approval
    else if n == 2
    then AttentionReason.failure
    else if n == 3
    then AttentionReason.connection_uncertainty
    else AttentionReason.completion

nth_reason-number : (a : AttentionReason) → nth_reason (reason_number a) ≡ a
unfolding nat_eq
nth_reason-number AttentionReason.input = refl
nth_reason-number _ = refl

pub reason_number_injective : (a b : AttentionReason) → reason_number a ≡ reason_number b → a ≡ b
reason_number_injective a b h = cc (nth_reason-number a, nth_reason-number b)

instance unfoldable pub reason_ord : Ord AttentionReason
reason_ord = record { rank = reason_number; rank_injective = reason_number_injective }

-- Two reasons alike: the set of their numbers is smaller than the list.
unfoldable pub any_repeated : List AttentionReason → Bool
any_repeated reasons = not (length (BTreeSet.collect reasons) == length reasons)

-- The tests on the current turn.
unfoldable pub turn_invalid : EventEnvelope → Effects → Bool
turn_invalid fact effects =
    not (
      effects.projection.turn_id
      == Option.map (λ (key : TurnKey). key.turn_id) effects.current_turn)
    || (is_none effects.current_turn && not (effects.projection.turn == TurnState.unknown))
    || is_some_and effects.current_turn
        (λ key. not (same_scope key fact) || not (effects.projection.turn_id == some key.turn_id))

-- The test on the tombstone.
unfoldable pub tombstone_invalid : EventEnvelope → TombstoneEvidence → Bool
tombstone_invalid fact item =
    not (same_scope item.key fact)
    || not (turn_id fact.event == some item.key.turn_id)
    || not (item.outcome_id == fact.event_id)
    || is_none_or item.terminal (λ state. not (is_terminal state))
    || not (item.terminal == terminal (kind fact.event))

-- The condition of `apply`.
unfoldable pub apply_invalid : ReducerWrite → Bool
apply_invalid set =
    let effects : Effects = set.effects in
    is_negative set.accepted_at
    || ltb 8 (length effects.attention)
    || any_repeated effects.attention
    || not (effects.projection.run_id == set.fact.run_id)
    || turn_invalid set.fact effects
    || is_some_and effects.resolve_transient (λ key. not (same_scope key set.fact))
    || is_some_and effects.tombstone (tombstone_invalid set.fact)

-- What `reconciliation` asks of a verified baseline.
unfoldable pub baseline_invalid : Reconciliation → ReconciliationBaseline → Bool
baseline_invalid request unavailable = false
baseline_invalid request (verified projection current_turn) =
    not (projection.run_id == request.registration.run_id)
    || not (projection.process == ProcessState.alive)
    || not (projection.observation == ObservationState.fresh)
    || not (projection.turn_id == current_turn)
    || (if is_none current_turn
        then not (projection.turn == TurnState.unknown)
        else not (is_open_turn projection.turn))

abbrev pub is_wait : TurnState → Bool
is_wait TurnState.awaiting_input = true
is_wait TurnState.awaiting_approval = true
is_wait _ = false

-- The baseline shows the wait that is to go on.
unfoldable pub shows_wait : TurnKey → ReconciliationBaseline → Bool
shows_wait key unavailable = false
shows_wait key (verified projection current_turn) =
    is_wait projection.turn && current_turn == some key.turn_id

unfoldable pub continued_invalid : Reconciliation → TurnKey → Bool
continued_invalid request key =
    not (is_none request.resolved_turn)
    || not (key.producer_id == request.registration.producer_id)
    || not (key.run_id == request.registration.run_id)
    || not (request.registration.previous_generation == some key.generation)
    || not (shows_wait key request.baseline)

-- `reconciliation`
unfoldable pub reconciliation : Reconciliation → Result StorageError (Unit {0})
reconciliation request = do
  reject_if (baseline_invalid request request.baseline) StorageError.invalid_request
  reject_if
      (not (is_verified request.baseline)
        && (not (is_none request.resolved_turn) || not (is_none request.continued_turn)))
      StorageError.invalid_request
  reject_if (is_some_and request.continued_turn (continued_invalid request))
      StorageError.invalid_request

module _ {Text : Type 0} where
  -- `apply`; `frame_fits` is the verdict of `encode_frame`.
  unfoldable pub apply : Json Text → ReducerWrite → Result StorageError (Unit {0})
  apply json set = do
    reject_if (apply_invalid set) StorageError.invalid_request
    reject_if (not (json.frame_fits set.fact)) StorageError.invalid_request
    identity ← ok_or (json.to_vec set) StorageError.invalid_request
    reject_if (ltb 24576 (json.len identity)) StorageError.invalid_request
