-- ===== src/Storage/Retiring/Tests.antt =====
-- A retirement of the producer, and what comes after it.
use omarchy_harbormaster.Common.{
  ◌≡◌, ◌⊎◌, refl, Bool, true, false, [], ◌∷◌, none, some, ok, nat_eq, bytes_eq, option_eq,
}
use omarchy_harbormaster.Common.BTreeMap.{get}
use omarchy_harbormaster.Common.BTreeSet.{collect}
use omarchy_harbormaster.Protocol.Identity.{ident_eq, checked_next}
use omarchy_harbormaster.Protocol.Event.{EventEnvelope, HarnessKind, envelope_eq, harness_eq}
use omarchy_harbormaster.Domain.Types.{
  ObservationState, ProcessState, TurnState, attention_eq, is_terminal, key_eq, observation_eq,
  process_eq, turn_eq,
}
use omarchy_harbormaster.Domain.Evidence.{same_scope}
use omarchy_harbormaster.Storage.Types.{ProducerRetirement, Request, Response}
use omarchy_harbormaster.Storage.Database.{
  Database, discarded_next, producer, require_revision, rival,
}
use omarchy_harbormaster.Storage.Context
use omarchy_harbormaster.Storage.Engine.{
  any_active, dispatch, execute, invalidate_generations, validate,
}
use omarchy_harbormaster.Storage.Reconciling
use omarchy_harbormaster.Storage.Reduction
use omarchy_harbormaster.Storage.Retirement
use omarchy_harbormaster.Storage.Validation
use omarchy_harbormaster.Storage.Soundness.History.{restart, run, step}
use omarchy_harbormaster.Storage.Revisions.{expected, one_writer}
use omarchy_harbormaster.Storage.Retiring.Forever.{retired_forever}
use omarchy_harbormaster.Storage.Tests.{
  db_2, generation_1, json_1, producer_1, run_1, set_1, turn_1,
}

abbrev retirement_1 : ProducerRetirement
retirement_1 = record {
  expected_revision = 2;
  producer_id = producer_1;
  generation = generation_1;
  discarded_events = 3;
}

expected_alike :
    expected (Request.apply (record set_1 { expected_revision = 2 }))
    ≡ expected (Request.retire_producer retirement_1)
unfolding expected
expected_alike = refl

one_writer_example :
    ((execute json_1 none (Request.apply (record set_1 { expected_revision = 2 })) db_2).1 ≡ db_2)
    ⊎ ((execute json_1 none (Request.retire_producer retirement_1) (
          run json_1
            (restart ∷ [])
            (execute json_1 none
              (Request.apply (record set_1 { expected_revision = 2 }))
              db_2).1)).1
        ≡ run json_1
            (restart ∷ [])
            (execute json_1 none (Request.apply (record set_1 { expected_revision = 2 })) db_2).1)
one_writer_example =
    one_writer json_1 none none (Request.apply (record set_1 { expected_revision = 2 }))
      (Request.retire_producer retirement_1) db_2 (restart ∷ []) expected_alike

abbrev db_3 : Database EventEnvelope
db_3 = record db_2 {
  revision = 3;
  discarded = 3;
  producers =
      (
        producer_1,
        record {
          generation = generation_1;
          run = run_1;
          harness = HarnessKind.codex;
          next_seq = some 8;
          active = false;
          reconciled = false;
        },
      )
      ∷ [];
  projections =
      (
        run_1,
        record {
          process = ProcessState.alive;
          observation = ObservationState.stale;
          turn = TurnState.unknown;
          turn_id = some turn_1;
          producer = some producer_1;
          generation = some generation_1;
        },
      )
      ∷ [];
}

retired :
    execute json_1 none (Request.retire_producer retirement_1) db_2
    ≡ (ok (Response.retired 3), db_3)
unfolding execute validate dispatch Reconciling.retire Reconciling.may_retire require_revision
    checked_next discarded_next producer get Context.projection Context.current_scope
    Retirement.retire Retirement.degrade Retirement.observed_by Retirement.selects
    Retirement.deactivate is_terminal nat_eq ident_eq bytes_eq option_eq
retired = refl

stored_still :
    execute json_1 none (Request.apply set_1) (run json_1 (restart ∷ []) db_3)
    ≡ (ok (Response.committed 2 true), db_3)
unfolding run step execute validate dispatch Validation.apply Validation.apply_invalid
    Validation.any_repeated Validation.turn_invalid collect same_scope Reduction.apply
    Reduction.duplicate rival nat_eq ident_eq bytes_eq option_eq turn_eq envelope_eq
    invalidate_generations any_active
stored_still = refl

retired_forever_example : (◌≡◌ {A = Bool} true true) × (db_3 ≡ run json_1 (restart ∷ []) db_3)
retired_forever_example =
    retired_forever json_1 retirement_1 set_1 none none db_2 db_3 db_3 3 2 true (restart ∷ [])
      retired (tt, tt) refl refl stored_still
