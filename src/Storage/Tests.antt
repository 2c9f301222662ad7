-- ===== src/Storage/Tests.antt =====
-- The storage on concrete requests: a registration, an event, a retirement. The written text of a
-- set is the set itself.
use omarchy_harbormaster.Common.{
  ◌+◌, ◌≡◌, ◌++◌, refl, true, false, List, [], ◌∷◌, none, some, ok, sym, nat_eq, bytes_eq,
  option_eq,
}
use omarchy_harbormaster.Common.BTreeMap.{get, insert}
use omarchy_harbormaster.Common.BTreeSet.{collect}
use omarchy_harbormaster.Protocol.Identity.{
  ident_eq, ProducerGeneration, ProducerId, RunId, TurnId, checked_next,
}
use omarchy_harbormaster.Protocol.Event.{
  EventEnvelope, EventPayload, HarnessKind, envelope_eq, harness_eq,
}
use omarchy_harbormaster.Domain.Types.{
  ObservationState, ProcessState, RunProjection, TurnKey, TurnState, attention_eq, key_eq,
  observation_eq, process_eq, turn_eq,
}
use omarchy_harbormaster.Domain.Evidence.{same_scope}
use omarchy_harbormaster.Storage.Types.{
  EventReceipt, Reconciliation, ReconciliationBaseline, ReducerContext, ReducerWrite, Request,
  Response, Timestamp,
}
use omarchy_harbormaster.Storage.Database.{
  Database, FactRow, Json, discarded_next, producer, require_revision, rival,
}
use omarchy_harbormaster.Storage.Attention
use omarchy_harbormaster.Storage.Engine.{dispatch, execute, validate}
use omarchy_harbormaster.Storage.Reconciling
use omarchy_harbormaster.Storage.Reconciling.Registered.{registered_as, registered_exact}
use omarchy_harbormaster.Storage.Reduction
use omarchy_harbormaster.Storage.Transaction
use omarchy_harbormaster.Storage.Validation
use omarchy_harbormaster.Storage.Soundness.{IsCodec, IsIntact}
use omarchy_harbormaster.Storage.Soundness.History.{
  Step, empty, request, restart, run, run-IsIntact, step,
}
use omarchy_harbormaster.Storage.Receipts.{committed_once, committed_receipt}
use omarchy_harbormaster.Storage.Receipts.Growth.{by_other, here, run_from-Keeps}

abbrev pub run_1 : RunId
run_1 = record { text = b'r' ∷ [] }

abbrev pub producer_1 : ProducerId
producer_1 = record { text = b'p' ∷ [] }

abbrev pub generation_1 : ProducerGeneration
generation_1 = record { text = b'g' ∷ [] }

abbrev pub turn_1 : TurnId
turn_1 = record { text = b't' ∷ [] }

abbrev key_1 : TurnKey
key_1 = record {
  producer_id = producer_1;
  generation = generation_1;
  run_id = run_1;
  turn_id = turn_1;
}

abbrev pub fact_1 : EventEnvelope
fact_1 = record {
  event_id = record { text = b'e' ∷ [] };
  producer_id = producer_1;
  generation = generation_1;
  seq = 7;
  run_id = run_1;
  event = EventPayload.turn_started (record { turn_id = turn_1 });
}

abbrev pub shown_1 : TurnState → RunProjection
shown_1 turn = record {
  run_id = run_1;
  process = ProcessState.alive;
  observation = ObservationState.fresh;
  turn = turn;
  turn_id = some turn_1;
}

abbrev pub set_1 : ReducerWrite
set_1 = record {
  expected_revision = 1;
  fact = fact_1;
  effects = record {
    projection = shown_1 TurnState.working;
    current_turn = some key_1;
    attention = [];
    resolve_transient = none;
    tombstone = none;
    reconciliation_required = false;
  };
  accepted_at = Timestamp.nonnegative 0;
  notify = true;
  discarded_events = 0;
}

abbrev pub reconciliation_1 : Reconciliation
reconciliation_1 = record {
  registration = record {
    expected_revision = 0;
    producer_id = producer_1;
    run_id = run_1;
    harness = HarnessKind.codex;
    next_sequence = 7;
    previous_generation = none;
  };
  baseline =
      ReconciliationBaseline.verified (record (shown_1 TurnState.unknown) { turn_id = none }) none;
  discarded_events = 0;
  resolved_turn = none;
  continued_turn = none;
}

-- The text that stands for a written set is its fact.
abbrev pub json_1 : Json EventEnvelope
json_1 = record {
  to_vec = λ set. some set.fact;
  len = λ text. 100;
  fact = λ text. some text;
  frame_fits = λ fact. true;
}

pub json_1-IsCodec : IsCodec json_1
json_1-IsCodec set text h frame = sym h

abbrev steps_1 : List Step
steps_1 = request (some generation_1) (Request.reconcile reconciliation_1) ∷ []

abbrev pub db_1 : Database EventEnvelope
db_1 = record empty {
  revision = 1;
  producers =
      (
        producer_1,
        record {
          generation = generation_1;
          run = run_1;
          harness = HarnessKind.codex;
          next_seq = some 7;
          active = true;
          reconciled = true;
        },
      )
      ∷ [];
  projections =
      (
        run_1,
        record {
          process = ProcessState.alive;
          observation = ObservationState.fresh;
          turn = TurnState.unknown;
          turn_id = none;
          producer = none;
          generation = none;
        },
      )
      ∷ [];
}

reconciled : run json_1 steps_1 empty ≡ db_1
unfolding run step execute validate dispatch Validation.reconciliation Validation.baseline_invalid
    Reconciling.reconcile Reconciling.validate_previous_turn require_revision checked_next
    discarded_next Transaction.may_register Transaction.is_stale Transaction.active_rival
    Transaction.upsert Transaction.upserted producer get insert Reconciling.update_obligations
    Reconciling.continue_turn Reconciling.baseline_of Reduction.projection nat_eq ident_eq bytes_eq
    option_eq turn_eq process_eq observation_eq harness_eq
reconciled = refl

registered_1 :
    execute json_1 (some generation_1) (Request.reconcile reconciliation_1) empty
    ≡ (ok (Response.registered generation_1 1), db_1)
unfolding execute validate dispatch Validation.reconciliation Validation.baseline_invalid
    Reconciling.reconcile Reconciling.validate_previous_turn require_revision checked_next
    discarded_next Transaction.may_register Transaction.is_stale Transaction.active_rival
    Transaction.upsert Transaction.upserted producer get insert Reconciling.update_obligations
    Reconciling.continue_turn Reconciling.baseline_of Reduction.projection nat_eq ident_eq bytes_eq
    option_eq turn_eq process_eq observation_eq harness_eq
registered_1 = refl

registered_exact_example :
    (producer db_1 producer_1
      ≡ some (registered_as reconciliation_1.registration generation_1 true))
    × (db_1.revision ≡ 1)
    × ((empty {Text = EventEnvelope}).revision + 1 ≡ 1)
registered_exact_example =
    registered_exact json_1 reconciliation_1 (some generation_1) empty db_1 generation_1 1
      registered_1

abbrev pub db_2 : Database EventEnvelope
db_2 = record db_1 {
  revision = 2;
  producers =
      (
        producer_1,
        record {
          generation = generation_1;
          run = run_1;
          harness = HarnessKind.codex;
          next_seq = some 8;
          active = true;
          reconciled = true;
        },
      )
      ∷ [];
  facts = Reduction.fact_row set_1 fact_1 2 ∷ [];
  projections =
      (
        run_1,
        record {
          process = ProcessState.alive;
          observation = ObservationState.fresh;
          turn = TurnState.working;
          turn_id = some turn_1;
          producer = some producer_1;
          generation = some generation_1;
        },
      )
      ∷ [];
}

applied :
    execute json_1 none (Request.apply set_1) (run json_1 steps_1 empty)
    ≡ (ok (Response.committed 2 false), db_2)
unfolding run step execute validate dispatch Validation.reconciliation Validation.baseline_invalid
    Reconciling.reconcile Reconciling.validate_previous_turn require_revision checked_next
    discarded_next Transaction.may_register Transaction.is_stale Transaction.active_rival
    Transaction.upsert Transaction.upserted producer get insert Reconciling.update_obligations
    Reconciling.continue_turn Reconciling.baseline_of Reduction.projection nat_eq ident_eq bytes_eq
    option_eq turn_eq process_eq observation_eq harness_eq Validation.apply Validation.apply_invalid
    Validation.any_repeated Validation.turn_invalid collect same_scope Reduction.apply
    Reduction.duplicate rival Reduction.apply_new Reduction.scope Reduction.in_sequence
    Attention.apply Attention.ensure_all Reduction.bury Reduction.record_fact
    Reduction.update_producer Reduction.moved_on
applied = refl

run-IsIntact_example : IsIntact json_1 (run json_1 steps_1 empty)
run-IsIntact_example = run-IsIntact json_1 steps_1 json_1-IsCodec

-- A restart, and a fact that a request outside the reducer path adds.
abbrev row_2 : FactRow EventEnvelope
row_2 =
    Reduction.fact_row
      (record set_1 { fact = record fact_1 { event_id = record { text = b'f' ∷ [] }; seq = 8 } })
      (record fact_1 { event_id = record { text = b'f' ∷ [] }; seq = 8 }) 3

abbrev added : Database EventEnvelope
added = record (run json_1 (restart ∷ []) db_2) {
  facts = (run json_1 (restart ∷ []) db_2).facts ++ row_2 ∷ [];
}

committed_once_example :
    execute json_1 none (Request.apply set_1) added ≡ (ok (Response.committed 2 true), added)
committed_once_example =
    committed_once json_1 set_1 none none (run json_1 steps_1 empty) db_2 added 2 false applied
      (by_other (row_2 ∷ [], refl) (run_from-Keeps json_1 db_2 db_2 (restart ∷ []) here))

committed_receipt_example :
    (read : ReducerContext) × (execute json_1 none
        (Request.context fact_1)
        (run json_1 (restart ∷ []) db_2)
      ≡ (ok (Response.context read), run json_1 (restart ∷ []) db_2))
    × (read.receipt ≡ EventReceipt.exact 2)
    × (read.revision ≡ (run json_1 (restart ∷ []) db_2).revision)
committed_receipt_example =
    committed_receipt json_1 set_1 none none steps_1 db_2 2 false (restart ∷ []) json_1-IsCodec
      applied
