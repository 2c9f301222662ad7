-- ===== src/Coordinator/Tests.antt =====
-- The coordinator on a concrete event: read, written and received, over a database that serves it.
use omarchy_harbormaster.Common.{
  ◌≡◌, ◌≤◌, refl, true, List, [], ◌∷◌, none, some, Result, ok, err, nat_eq, bytes_eq, option_eq,
  arith,
}
use omarchy_harbormaster.Common.BTreeMap.{get, insert}
use omarchy_harbormaster.Common.BTreeSet.{collect}
use omarchy_harbormaster.Protocol.Identity.{ident_eq, checked_next}
use omarchy_harbormaster.Protocol.Event.{
  EventEnvelope, HarnessKind, envelope_eq, harness_eq, kind, kind_eq, turn_id,
}
use omarchy_harbormaster.Domain.Types.{
  ObservationState, is_terminal, key_eq, observation_eq, process_eq, turn_eq,
}
use omarchy_harbormaster.Domain.Evidence.{
  current_terminal, inconsistent, out_of_scope, same_scope, terminal_disagrees, turn_key,
  turn_state,
}
use omarchy_harbormaster.Domain.Evidence
use omarchy_harbormaster.Domain.Policy.{ObservationPolicy, position, supported_at, supports}
use omarchy_harbormaster.Domain.Reducer
use omarchy_harbormaster.Ingestion.Registry.Types.{Registry}
use omarchy_harbormaster.Ingestion.Registry
use omarchy_harbormaster.Ingestion.Registry.{invalidate_generation}
use omarchy_harbormaster.Storage.{StorageError}
use omarchy_harbormaster.Storage.Types.{Response, Timestamp}
use omarchy_harbormaster.Storage.Database.{discarded_next, producer, require_revision, rival}
use omarchy_harbormaster.Storage.Attention
use omarchy_harbormaster.Storage.Context
use omarchy_harbormaster.Storage.Engine.{dispatch, execute, validate}
use omarchy_harbormaster.Storage.Reduction
use omarchy_harbormaster.Storage.Validation
use omarchy_harbormaster.Storage.Tests.{db_1, fact_1, json_1, json_1-IsCodec}
use omarchy_harbormaster.Coordinator.{DurableReceipt, ReplayEntry}
use omarchy_harbormaster.Coordinator.Operation
use omarchy_harbormaster.Coordinator.Commit
use omarchy_harbormaster.Coordinator.Decision
use omarchy_harbormaster.Coordinator.Job.{CommitJob}
use omarchy_harbormaster.Coordinator.Commit.World
use omarchy_harbormaster.Coordinator.Commit.World.{
  World, begins, moves-Reaches, Move, lose, move, moves, poll_once, serve,
}
use omarchy_harbormaster.Coordinator.Commit.Standing.{IsReceipted}
use omarchy_harbormaster.Coordinator.Commit.Ending.{answer_all, commit_ends}
use omarchy_harbormaster.Coordinator.Commit.Durable.{receipt_durable, started}
use omarchy_harbormaster.Domain.Reconciliation.{runtime_eq, scope_eq}

abbrev entry_1 : ReplayEntry
entry_1 = record { event = fact_1; harness = HarnessKind.codex }

abbrev policy_1 : ObservationPolicy
policy_1 = record {
  supported = true ∷ true ∷ true ∷ true ∷ true ∷ true ∷ true ∷ true ∷ true ∷ [];
  freshness = ObservationState.fresh;
}

abbrev registry_1 : Registry
registry_1 = Registry.new 0

-- Poll and submit, serve, poll the context and queue the write, serve, poll the commit.
abbrev moves_1 : List Move
moves_1 =
    poll_once none
    ∷ serve none true
    ∷ poll_once none
    ∷ poll_once none
    ∷ serve none true
    ∷ poll_once none
    ∷ []

abbrev receipt_1 : DurableReceipt
receipt_1 = record { event = fact_1; harness = HarnessKind.codex; revision = 2 }

received_1 :
    (moves json_1 moves_1
      (started registry_1 entry_1 policy_1 (Timestamp.nonnegative 0) true db_1)).job.receipt
    ≡ some receipt_1
unfolding moves move World.served World.polled World.channel World.sent execute dispatch validate
    Context.context Context.receipt Context.stored_receipt Context.projection Context.current_scope
    Context.turn_tombstone Context.tombstone Context.find_tombstone Context.decode_fact producer get
    insert rival Commit.new Commit.poll Commit.react Decision.respond Decision.on_response
    Decision.on_context Decision.settle Decision.decide Decision.failure_of
    Decision.reduce_or_retire Decision.write Decision.prepared Decision.accept Operation.poll
    Operation.submit Operation.await Operation.wait_timeout Operation.receive Operation.answer
    Reducer.reduce Evidence.validate out_of_scope inconsistent current_terminal terminal_disagrees
    supports position supported_at kind turn_key turn_id turn_state Reducer.effects_of Reducer.begin
    Reducer.reduce_turn Reducer.observe_turn Reducer.progress is_terminal Validation.apply
    Validation.apply_invalid Validation.any_repeated Validation.turn_invalid collect same_scope
    Reduction.apply Reduction.duplicate Reduction.apply_new Reduction.scope Reduction.in_sequence
    Attention.apply Attention.ensure_all Reduction.bury Reduction.record_fact
    Reduction.update_producer Reduction.moved_on Reduction.projection require_revision checked_next
    nat_eq ident_eq bytes_eq option_eq turn_eq process_eq observation_eq harness_eq key_eq kind_eq
    envelope_eq Reducer.push_wait discarded_next
received_1 = refl

abbrev start_1 : World EventEnvelope
start_1 = started registry_1 entry_1 policy_1 (Timestamp.nonnegative 0) true db_1

receipt_durable_example :
    IsReceipted json_1 entry_1 receipt_1 (moves json_1 moves_1 start_1).database
receipt_durable_example =
    receipt_durable json_1 db_1 registry_1 entry_1 policy_1 (Timestamp.nonnegative 0) true
      (moves json_1 moves_1 start_1) receipt_1 json_1-IsCodec
      (moves-Reaches json_1 moves_1 start_1 start_1 begins) received_1

abbrev stale_8 : List (Result StorageError Response)
stale_8 =
    err StorageError.stale_revision
    ∷ err StorageError.stale_revision
    ∷ err StorageError.stale_revision
    ∷ ok (Response.retired 4)
    ∷ err StorageError.stale_revision
    ∷ err StorageError.stale_revision
    ∷ err StorageError.stale_revision
    ∷ ok (Response.retired 9)
    ∷ []

commit_ends_example :
    (left : CommitJob) × (answer_all stale_8
        (Commit.new registry_1 entry_1 policy_1 (Timestamp.nonnegative 0) true)
      ≡ some left)
    × (left.done ≡ true)
    × (left.retries ≤ 3)
commit_ends_example =
    commit_ends registry_1 entry_1 policy_1 (Timestamp.nonnegative 0) true stale_8 (omega arith)
