-- ===== src/Domain/Reconciliation.antt =====
-- crates/harbormaster/src/domain/reconciliation.rs
use omarchy_harbormaster.Common.{
  ℕ, Bool, true, false, not, ◌||◌, List, Option, none, some, Eq, ◌==◌, option_eq, Result, ok, err,
  ◌>>=◌, ◌>>◌, if◌then◌else◌, reject_if, ℕ_discrete, bytes_eq, nat_eq, [], ◌∷◌,
}
use omarchy_harbormaster.Protocol.Identity.{
  ident_dec, ProducerId, ProducerGeneration, RunId, TurnId,
}
use omarchy_harbormaster.Protocol.Event.{HarnessKind, harness_dec}
use omarchy_harbormaster.Domain.Types.{
  TurnState, ObservationState, ProcessState, RunProjection, process_eq, observation_eq,
}
use omarchy_harbormaster.Domain.Policy.{DomainError, invalid_scope, invalid_evidence}

pub record ReconciliationScope : Type 0 where
  pub producer_id : ProducerId
  pub previous_generation : Option ProducerGeneration
  pub run_id : RunId
  pub harness : HarnessKind

-- `boot_id` is the array `[u8; 16]`.
pub record RuntimeIdentity : Type 0 where
  pub boot_id : List ℕ
  pub pid : ℕ
  pub start_ticks : ℕ

pub data CurrentTurnEvidence : Type 0 where
  known_none : CurrentTurnEvidence
  known : TurnId → TurnState → CurrentTurnEvidence
  unavailable conflicting : CurrentTurnEvidence

pub record ReconciliationEvidence : Type 0 where
  pub expected_scope : ReconciliationScope
  pub observed_scope : ReconciliationScope
  pub expected_runtime : RuntimeIdentity
  pub observed_runtime : RuntimeIdentity
  pub current_boot : List ℕ
  pub process : ProcessState
  pub freshness : ObservationState
  pub current_turn : CurrentTurnEvidence

pub scope_dec : Discrete ReconciliationScope
scope_dec = hlevel (ident_dec, harness_dec)

instance unfoldable pub scope_eq : Eq ReconciliationScope
unfolding scope_dec
scope_eq = record { dec = scope_dec }

pub runtime_dec : Discrete RuntimeIdentity
runtime_dec = hlevel ℕ_discrete

instance unfoldable pub runtime_eq : Eq RuntimeIdentity
unfolding runtime_dec
runtime_eq = record { dec = runtime_dec }

-- `[0; 16]`
abbrev pub zero_boot : List ℕ
zero_boot = 0 ∷ 0 ∷ 0 ∷ 0 ∷ 0 ∷ 0 ∷ 0 ∷ 0 ∷ 0 ∷ 0 ∷ 0 ∷ 0 ∷ 0 ∷ 0 ∷ 0 ∷ 0 ∷ []

unfoldable pub is_open_turn : TurnState → Bool
is_open_turn TurnState.working = true
is_open_turn TurnState.awaiting_input = true
is_open_turn TurnState.awaiting_approval = true
is_open_turn _ = false

unfoldable pub baseline_turn : CurrentTurnEvidence → Result DomainError (TurnState × Option TurnId)
baseline_turn known_none = ok (TurnState.unknown, none)
baseline_turn (known turn_id state) =
    if is_open_turn state then ok (state, some turn_id) else err invalid_evidence
baseline_turn unavailable = err invalid_evidence
baseline_turn conflicting = err invalid_evidence

-- The first test of `reconcile_projection`.
unfoldable pub mismatched : ReconciliationEvidence → Bool
mismatched evidence =
    not (evidence.expected_scope == evidence.observed_scope)
    || not (evidence.expected_runtime == evidence.observed_runtime)
    || not (evidence.expected_runtime.boot_id == evidence.current_boot)

-- Its second test.
unfoldable pub unproven : ReconciliationEvidence → Bool
unproven evidence =
    not (evidence.process == ProcessState.alive)
    || not (evidence.freshness == ObservationState.fresh)
    || evidence.expected_runtime.pid == 0
    || evidence.expected_runtime.start_ticks == 0
    || evidence.current_boot == zero_boot

unfoldable pub reconcile_projection : ReconciliationEvidence → Result DomainError RunProjection
reconcile_projection evidence = do
  reject_if (mismatched evidence) invalid_scope
  reject_if (unproven evidence) invalid_evidence
  baseline ← baseline_turn evidence.current_turn
  ok (record {
    run_id = evidence.expected_scope.run_id;
    process = ProcessState.alive;
    observation = ObservationState.fresh;
    turn = baseline.0;
    turn_id = baseline.1;
  })
