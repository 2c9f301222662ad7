-- ===== src/Coordinator/Registration/Asking.antt =====
-- What a job of coordinator/registration.rs asks for passes the checks of the storage, but for a
-- turn that is said to go on.
use omarchy_harbormaster.Common.{
  ℕ, ◌≡◌, ◌⊎◌, refl, sym, subst, Bool, true, false, not, ◌&&◌, ◌||◌, Option, none, some, ◌==◌,
  option_eq, Result, ok, err, arith, is_none, is_some_and, if◌then◌else◌, reject_if,
}
use omarchy_harbormaster.Protocol.Identity.{TurnId, ident_eq}
use omarchy_harbormaster.Domain.Types.{
  RunProjection, TurnState, observation_eq, process_eq, turn_eq,
}
use omarchy_harbormaster.Domain.Policy.{DomainError}
use omarchy_harbormaster.Domain.Reconciliation.{
  CurrentTurnEvidence, ReconciliationEvidence, baseline_turn, is_open_turn, reconcile_projection,
}
use omarchy_harbormaster.Domain.Baseline.{reconcile_parts}
use omarchy_harbormaster.Ingestion.Registry.Types.{Registry}
use omarchy_harbormaster.Storage.{StorageError}
use omarchy_harbormaster.Storage.Types.{
  Reconciliation, ReconciliationBaseline, Request, is_verified,
}
use omarchy_harbormaster.Storage.Validation
use omarchy_harbormaster.Storage.Validation.{baseline_invalid, continued_invalid}
use omarchy_harbormaster.Coordinator.Operation
use omarchy_harbormaster.Coordinator.Registration.{
  ReconciliationInput, ReconciliationJob, baseline, may_reconcile, new, off_scope, proven,
  reconciliation,
}
use omarchy_harbormaster.Coordinator.Registration.Made.{new-IsMade}

shown_turn :
    (current : CurrentTurnEvidence) (turn : TurnState) (id : Option TurnId)
    → baseline_turn current ≡ ok (turn, id)
    → (if is_none id then not (turn == TurnState.unknown) else not (is_open_turn turn)) ≡ false
unfolding baseline_turn
shown_turn CurrentTurnEvidence.known_none turn id h = ground arith
shown_turn _ turn id h = ground arith

-- A baseline that is proven for the registration's scope is one that the storage takes.
proven_valid :
    (request : Reconciliation) (evidence : ReconciliationEvidence)
    (m : Result DomainError RunProjection)
    → reconcile_projection evidence ≡ m
    → off_scope evidence.expected_scope request.registration ≡ false
    → baseline_invalid request (proven m) ≡ false
unfolding proven baseline_invalid off_scope
proven_valid request evidence (err e) h scope = refl
proven_valid request evidence (ok p) h scope =
    let (_, _, turn, run, alive, fresh) = reconcile_parts evidence p h in
    ground (arith, run, alive, fresh, shown_turn evidence.current_turn p.turn p.turn_id turn)

baseline_valid :
    (input : ReconciliationInput) (discarded : ℕ)
    → baseline_invalid (reconciliation input discarded) (baseline input) ≡ false
unfolding baseline baseline_invalid
baseline_valid input discarded = go input.evidence
  where
    gate :
        (evidence : ReconciliationEvidence) (off : Bool)
        → off_scope evidence.expected_scope input.registration ≡ off
        → baseline_invalid (reconciliation input discarded) (
            if off
            then ReconciliationBaseline.unavailable
            else proven (reconcile_projection evidence))
          ≡ false
    gate evidence true e = refl
    gate evidence false e = proven_valid (reconciliation input discarded) evidence _ refl e

    go :
        (evidence : Option ReconciliationEvidence)
        → baseline_invalid (reconciliation input discarded) (elim evidence [
          | none ↦ ReconciliationBaseline.unavailable
          | some e ↦
              if off_scope e.expected_scope input.registration
              then ReconciliationBaseline.unavailable
              else proven (reconcile_projection e)
        ])
          ≡ false
    go none = refl
    go (some evidence) = gate evidence _ refl

-- Of the previous turn a job claims one thing at most, and only on verified evidence.
claims_backed :
    (input : ReconciliationInput)
    → may_reconcile input ≡ ok tt
    → ((input.resolved_turn ≡ none) ⊎ (input.continued_turn ≡ none))
      × ((is_verified (baseline input) ≡ true)
          ⊎ ((input.resolved_turn ≡ none) × (input.continued_turn ≡ none)))
unfolding may_reconcile
claims_backed input h = ground arith

claims_valid :
    (input : ReconciliationInput)
    → may_reconcile input ≡ ok tt
    → (not (is_verified (baseline input))
        && (not (is_none input.resolved_turn) || not (is_none input.continued_turn)))
      ≡ false
unfolding may_reconcile
claims_valid input h = ground arith

-- A job that is made holds a request for the reconciliation of its registration. The request claims
-- that the previous turn is resolved or that it goes on, not both, and either only on a verified
-- baseline; the storage's check of its shape comes down to the check of a turn that goes on.
pub asked_valid :
    (registry after : Registry) (input : ReconciliationInput) (j : ReconciliationJob)
    → new registry input ≡ (ok j, after)
    → (request : Reconciliation) × (Operation.intent j.operation ≡ some (Request.reconcile request))
      × (request.registration ≡ input.registration)
      × (request.resolved_turn ≡ input.resolved_turn)
      × (request.continued_turn ≡ input.continued_turn)
      × ((input.resolved_turn ≡ none) ⊎ (input.continued_turn ≡ none))
      × ((is_verified request.baseline ≡ true)
          ⊎ ((input.resolved_turn ≡ none) × (input.continued_turn ≡ none)))
      × (Validation.reconciliation request
          ≡ reject_if
              (is_some_and input.continued_turn (continued_invalid request))
              StorageError.invalid_request)
unfolding Validation.reconciliation Operation.intent
asked_valid registry after input j h =
    let made = new-IsMade registry input j after h in
    let request = reconciliation input made.discarded in
    (
      request,
      subst (λ i. Operation.intent i.operation ≡ some (Request.reconcile request)) (sym made.made)
          refl,
      refl,
      refl,
      refl,
      (claims_backed input made.allowed).0,
      (claims_backed input made.allowed).1,
      rw (baseline_valid input made.discarded, claims_valid input made.allowed) refl,
    )
