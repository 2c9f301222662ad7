-- ===== src/Domain/Baseline.antt =====
-- When domain/reconciliation.rs gives a baseline, and what the baseline says.
mod Tests
use omarchy_harbormaster.Common.{
  ◌≡◌, ◌≢◌, ◌↔◌, ◌∙◌, sym, refl, true, false, Option, none, some, ok, arith, bytes_eq, nat_eq,
}
use mathlib.Core.Option
use omarchy_harbormaster.Protocol.Identity.{TurnId, ProducerGeneration}
use omarchy_harbormaster.Domain.Types.{
  TurnKey, TurnState, Effects, ReductionState, ObservationState, ProcessState, RunProjection,
  is_terminal, process_eq, observation_eq,
}
use omarchy_harbormaster.Domain.Reconciliation.{
  ReconciliationEvidence, CurrentTurnEvidence, known_none, known, unavailable, conflicting,
  scope_eq, runtime_eq, zero_boot, is_open_turn, mismatched, unproven, baseline_turn,
  reconcile_projection,
}
use omarchy_harbormaster.Domain.Consistency.{IsConsistent}
use omarchy_harbormaster.Domain.Acceptance.{IsAdmissible, SameScope, reduce_total}
use omarchy_harbormaster.Domain.Policy.{ObservationPolicy, supports}
use omarchy_harbormaster.Domain.Reducer.{reduce}
use omarchy_harbormaster.Protocol.Event.{EventEnvelope, kind}

-- The evidence on the current turn is definite, and shows no outcome.
abbrev IsDefinite : CurrentTurnEvidence → Type 0
IsDefinite known_none = Unit
IsDefinite (known turn_id state) = is_open_turn state ≡ true
IsDefinite unavailable = ⊥
IsDefinite conflicting = ⊥

-- Independent evidence agrees on a live process, observed freshly, in the current boot.
pub record IsProven (evidence : ReconciliationEvidence) : Type 0 where
  pub scope : evidence.expected_scope ≡ evidence.observed_scope
  pub runtime : evidence.expected_runtime ≡ evidence.observed_runtime
  pub boot : evidence.expected_runtime.boot_id ≡ evidence.current_boot
  pub alive : evidence.process ≡ ProcessState.alive
  pub fresh : evidence.freshness ≡ ObservationState.fresh
  pub pid : evidence.expected_runtime.pid ≢ 0
  pub ticks : evidence.expected_runtime.start_ticks ≢ 0
  pub booted : evidence.current_boot ≢ zero_boot
  pub turn : IsDefinite evidence.current_turn

module _ (evidence : ReconciliationEvidence) where
  mismatched_iff : (mismatched evidence ≡ false) ↔ (
      (evidence.expected_scope ≡ evidence.observed_scope)
      × (evidence.expected_runtime ≡ evidence.observed_runtime)
      × (evidence.expected_runtime.boot_id ≡ evidence.current_boot))
  unfolding mismatched
  mismatched_iff = ground arith

  unproven_iff : (unproven evidence ≡ false) ↔ (
      (evidence.process ≡ ProcessState.alive)
      × (evidence.freshness ≡ ObservationState.fresh)
      × (evidence.expected_runtime.pid ≢ 0)
      × (evidence.expected_runtime.start_ticks ≢ 0)
      × (evidence.current_boot ≢ zero_boot))
  unfolding unproven
  unproven_iff = ground arith

  pub reconcile_parts :
      (p : RunProjection)
      → reconcile_projection evidence ≡ ok p
      → (mismatched evidence ≡ false)
        × (unproven evidence ≡ false)
        × (baseline_turn evidence.current_turn ≡ ok (p.turn, p.turn_id))
        × (p.run_id ≡ evidence.expected_scope.run_id)
        × (p.process ≡ ProcessState.alive)
        × (p.observation ≡ ObservationState.fresh)
  unfolding reconcile_projection
  reconcile_parts p h = ground arith

  reconcile_made :
      (turn : TurnState) (turn_id : Option TurnId)
      → mismatched evidence ≡ false
      → unproven evidence ≡ false
      → baseline_turn evidence.current_turn ≡ ok (turn, turn_id)
      → (p : RunProjection) × (reconcile_projection evidence ≡ ok p)
  unfolding reconcile_projection
  reconcile_made turn turn_id m u b = (
    record {
      run_id = evidence.expected_scope.run_id;
      process = ProcessState.alive;
      observation = ObservationState.fresh;
      turn = turn;
      turn_id = turn_id;
    },
    ground arith,
  )

baseline_definite :
    (current : CurrentTurnEvidence) (turn : TurnState) (turn_id : Option TurnId)
    → baseline_turn current ≡ ok (turn, turn_id)
    → IsDefinite current × (is_terminal turn ≡ false) × (turn_id ≡ none → turn ≡ TurnState.unknown)
unfolding baseline_turn is_open_turn is_terminal
baseline_definite known_none turn turn_id h = ground arith
baseline_definite _ turn turn_id h = ground arith

baseline_total :
    (current : CurrentTurnEvidence)
    → IsDefinite current
    → (b : TurnState × Option TurnId) × (baseline_turn current ≡ ok (b.0, b.1))
unfolding baseline_turn
baseline_total known_none d = ((TurnState.unknown, none), refl)
baseline_total (known turn_id state) d = ((state, some turn_id), ground arith)
baseline_total unavailable d = absurd d
baseline_total conflicting d = absurd d

-- A baseline is given exactly on evidence that agrees in scope, runtime and boot, on a live and
-- freshly observed process with a pid, start ticks and a boot id, and with a definite current turn
-- that is not over.
pub reconcile_exact :
    (evidence : ReconciliationEvidence)
    → ((p : RunProjection) × (reconcile_projection evidence ≡ ok p)) ↔ IsProven evidence
reconcile_exact evidence = (
  λ (p, h).
      let parts = reconcile_parts evidence p h in
      let agree = (mismatched_iff evidence).0 parts.0 in
      let proven = (unproven_iff evidence).0 parts.1 in
      record {
        scope = agree.0;
        runtime = agree.1;
        boot = agree.2;
        alive = proven.0;
        fresh = proven.1;
        pid = proven.2;
        ticks = proven.3;
        booted = proven.4;
        turn = (baseline_definite evidence.current_turn p.turn p.turn_id parts.2).0;
      },
  λ a.
      let baseline = baseline_total evidence.current_turn a.turn in
      reconcile_made evidence baseline.0.0 baseline.0.1
        ((mismatched_iff evidence).1 (a.scope, a.runtime, a.boot))
        ((unproven_iff evidence).1 (a.alive, a.fresh, a.pid, a.ticks, a.booted)) baseline.1,
)

-- The key of the baseline's turn in a newly issued generation.
abbrev pub baseline_key :
    ReconciliationEvidence → ProducerGeneration → RunProjection → Option TurnKey
baseline_key evidence generation p =
    Option.map
      (λ id. record {
        producer_id = evidence.expected_scope.producer_id;
        generation = generation;
        run_id = p.run_id;
        turn_id = id;
      })
      p.turn_id

reconcile-IsConsistent :
    (evidence : ReconciliationEvidence) (generation : ProducerGeneration) (p : RunProjection)
    → reconcile_projection evidence ≡ ok p
    → (p.run_id ≡ evidence.expected_scope.run_id)
      × (p.process ≡ ProcessState.alive)
      × (p.observation ≡ ObservationState.fresh)
      × (is_terminal p.turn ≡ false)
      × IsConsistent p (baseline_key evidence generation p)
reconcile-IsConsistent evidence generation p h =
    let parts = reconcile_parts evidence p h in
    let turn = baseline_definite evidence.current_turn p.turn p.turn_id parts.2 in
    (
      parts.3,
      parts.4,
      parts.5,
      turn.1,
      record { shown = ground arith; idle = λ e. turn.2 (ground arith) },
    )

-- The state that a reconciliation leaves, with no tombstone for the turn of the next event.
abbrev pub baseline_state :
    ReconciliationEvidence → ProducerGeneration → RunProjection → ReductionState
baseline_state evidence generation p = record {
  projection = p;
  current_turn = baseline_key evidence generation p;
  tombstone = none;
}

baseline_scope :
    (evidence : ReconciliationEvidence) (generation : ProducerGeneration) (p : RunProjection)
    (event : EventEnvelope) (turn_id : Option TurnId)
    → p.run_id ≡ event.run_id
    → event.producer_id ≡ evidence.expected_scope.producer_id
    → event.generation ≡ generation
    → SameScope event (
        Option.map
          (λ id. record {
            producer_id = evidence.expected_scope.producer_id;
            generation = generation;
            run_id = p.run_id;
            turn_id = id;
          })
          turn_id)
baseline_scope evidence generation p event none run producer same = tt
baseline_scope evidence generation p event (some id) run producer same =
    (run, sym producer, sym same)

-- After a reconciliation that succeeds, the baseline is shown with its turn as the current one, in
-- the newly issued generation. From there the reducer accepts every first event of the run, the
-- producer and that generation whose kind the policy supports.
pub reconcile-accepted :
    (evidence : ReconciliationEvidence) (generation : ProducerGeneration) (p : RunProjection)
    (event : EventEnvelope) (policy : ObservationPolicy)
    → reconcile_projection evidence ≡ ok p
    → event.run_id ≡ evidence.expected_scope.run_id
    → event.producer_id ≡ evidence.expected_scope.producer_id
    → event.generation ≡ generation
    → supports policy (kind event.event) ≡ true
    → (e : Effects) × (reduce (baseline_state evidence generation p) event policy ≡ ok e)
reconcile-accepted evidence generation p event policy h run producer same supported =
    let (shown, alive, fresh, open_turn, consistent) =
      reconcile-IsConsistent evidence generation p h in
    (reduce_total (baseline_state evidence generation p) event policy).1 (record {
      run = shown ∙ sym run;
      scope = baseline_scope evidence generation p event p.turn_id (shown ∙ sym run) producer same;
      consistent = consistent;
      entombed = tt;
      agrees = λ _. open_turn;
      supported = supported;
    })
