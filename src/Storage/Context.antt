-- ===== src/Storage/Context.antt =====
-- crates/harbormaster/src/storage/context.rs: one consistent read before a reduction.
use omarchy_harbormaster.Common.{
  Bool, not, ◌&&◌, List, [], ◌∷◌, Option, none, some, ◌==◌, option_eq, ltb, if◌then◌else◌, Result,
  ok, err, ◌>>=◌, is_some_and, is_none_or, nat_eq, ok_or,
}
use omarchy_harbormaster.Common.BTreeMap.{get}
use omarchy_harbormaster.Protocol.Identity.{ident_eq, RunId, TurnId, ProducerId, ProducerGeneration}
use omarchy_harbormaster.Protocol.Event.{EventEnvelope, envelope_eq}
use omarchy_harbormaster.Domain.Types.{
  RunProjection, TurnKey, TombstoneEvidence, ProcessState, ObservationState, TurnState, key_eq,
  is_terminal,
}
use omarchy_harbormaster.Domain.Evidence.{turn_key}
use omarchy_harbormaster.Storage.{StorageError}
use omarchy_harbormaster.Storage.Types.{EventReceipt, ProducerRecord, ReducerContext}
use omarchy_harbormaster.Storage.Database.{
  Database, FactRow, Json, ProjectionRow, TombstoneRow, producer, rival,
}

-- `SELECT … FROM tombstones WHERE` the primary key is `key`.
unfoldable pub find_tombstone : TurnKey → List TombstoneRow → Option TombstoneRow
find_tombstone key [] = none
find_tombstone key (row ∷ rows) = if row.key == key then some row else find_tombstone key rows

-- `tombstone`; a stored state that ends no turn is an invalid query.
unfoldable pub tombstone :
    TurnKey → List TombstoneRow → Result StorageError (Option TombstoneEvidence)
tombstone key rows = elim (find_tombstone key rows) [
  | none ↦ ok none
  | some row ↦
      if is_some_and row.terminal (λ state. not (is_terminal state))
      then err StorageError.persistence_unavailable
      else ok (some (record { key = key; outcome_id = row.event; terminal = row.terminal }))
]

-- The scope columns of a projection, with its turn.
unfoldable pub current_scope :
    RunId
    → Option ProducerId
    → Option ProducerGeneration
    → Option TurnId
    → Result StorageError (Option TurnKey)
current_scope run (some producer) (some generation) (some turn) = ok (
    some (record { producer_id = producer; generation = generation; run_id = run; turn_id = turn }))
current_scope run none none turn = ok none
current_scope run _ _ _ = err StorageError.persistence_unavailable

abbrev pub unknown_projection : RunId → RunProjection
unknown_projection run = record {
  run_id = run;
  process = ProcessState.unknown;
  observation = ObservationState.stale;
  turn = TurnState.unknown;
  turn_id = none;
}

abbrev pub shown : RunId → ProjectionRow → RunProjection
shown run row = record {
  run_id = run;
  process = row.process;
  observation = row.observation;
  turn = row.turn;
  turn_id = row.turn_id;
}

-- The producer has gone past the event, whose fact is no longer stored.
abbrev pub passed : EventEnvelope → ProducerRecord → Bool
passed fact observer =
    observer.generation == fact.generation
    && observer.run_id == fact.run_id
    && is_none_or observer.next_sequence (λ next. ltb fact.seq next)

module _ {Text : Type 0} where
  -- `projection`
  unfoldable pub projection :
      Database Text → RunId → Result StorageError (RunProjection × Option TurnKey)
  projection db run = elim (get run db.projections) [
    | none ↦ ok (unknown_projection run, none)
    | some row ↦ do
      current ← current_scope run row.producer row.generation row.turn_id
      ok (shown run row, current)
  ]

  -- `decode_fact`
  unfoldable pub decode_fact : Json Text → Text → Result StorageError EventEnvelope
  decode_fact json identity =
      if ltb 24576 (json.len identity)
      then err StorageError.corrupt_database
      else ok_or (json.fact identity) StorageError.corrupt_database

  -- The answer of `receipt` on the fact that it finds.
  unfoldable pub stored_receipt :
      Json Text → EventEnvelope → FactRow Text → Result StorageError EventReceipt
  stored_receipt json fact row = do
    stored ← decode_fact json row.write_set
    ok (if stored == fact then EventReceipt.exact row.revision else EventReceipt.conflict)

  -- `receipt`
  unfoldable pub receipt :
      Json Text
      → Database Text
      → EventEnvelope
      → Option ProducerRecord
      → Result StorageError EventReceipt
  receipt json db fact known = elim (rival fact db.facts) [
    | some row ↦ stored_receipt json fact row
    | none ↦
        if is_some_and known (passed fact)
        then ok EventReceipt.prior_sequence_unverifiable
        else ok EventReceipt.missing
  ]

  -- The tombstone of the event's turn, if it has a turn.
  unfoldable pub turn_tombstone :
      Database Text → EventEnvelope → Result StorageError (Option TombstoneEvidence)
  turn_tombstone db fact = elim (turn_key fact) [
    | none ↦ ok none
    | some key ↦ tombstone key db.tombstones
  ]

  -- `context`
  unfoldable pub context :
      Json Text → Database Text → EventEnvelope → Result StorageError ReducerContext
  context json db fact = do
    let known = producer db fact.producer_id
    found ← receipt json db fact known
    current ← projection db fact.run_id
    over ← turn_tombstone db fact
    ok (record {
      revision = db.revision;
      producer = known;
      receipt = found;
      state = record { projection = current.0; current_turn = current.1; tombstone = over };
    })
