-- ===== src/Storage/Reduction.antt =====
-- crates/harbormaster/src/storage/reducer_transaction.rs: one event's effects, all or nothing.
pub mod Applied
pub mod Frames
pub mod Scope
use omarchy_harbormaster.Common.{
  ℕ, Bool, true, false, not, ◌&&◌, ◌||◌, List, [], ◌∷◌, ◌++◌, Option, none, some, Eq, ◌==◌,
  option_eq, nat_eq, ltb, length, if◌then◌else◌, Result, ok, err, ◌>>=◌, ◌>>◌, reject_if, ok_or,
  is_none,
}
use mathlib.Core.Option
use omarchy_harbormaster.Common.BTreeMap.{BTreeMap, get, insert, len}
use omarchy_harbormaster.Protocol.Identity.{
  ident_eq, ProducerId, ProducerGeneration, Revision, Seq, checked_next,
}
use omarchy_harbormaster.Protocol.Event.{EventEnvelope}
use omarchy_harbormaster.Domain.Types.{RunProjection, TombstoneEvidence, TurnKey}
use omarchy_harbormaster.Storage.{StorageError}
use omarchy_harbormaster.Storage.Types.{
  ProducerRecord, ReducerWrite, Response, max_facts, max_runs, max_tombstones,
}
use omarchy_harbormaster.Storage.Database.{
  Database, FactRow, Json, ProducerRow, ProjectionRow, TombstoneRow, advance, capacity,
  discarded_next, producer, require_revision, rival,
}
use omarchy_harbormaster.Storage.Context.{tombstone}
use omarchy_harbormaster.Storage.Attention

-- How the event's sequence stands to the one that is due.
unfoldable pub in_sequence : Option Seq → Seq → Result StorageError (Unit {0})
in_sequence none seq = err StorageError.conflict
in_sequence (some next) seq =
    if next == seq
    then ok tt
    else if ltb next seq
    then err StorageError.sequence_gap
    else err StorageError.conflict

-- `scope`, on the producer that it reads.
unfoldable pub scope : EventEnvelope → Option ProducerRecord → Result StorageError (Unit {0})
scope fact known = do
  found ← ok_or known StorageError.unknown_producer
  reject_if
      (not found.active
        || not found.reconciled
        || not (found.generation == fact.generation)
        || not (found.run_id == fact.run_id))
      StorageError.stale_generation
  in_sequence found.next_sequence fact.seq

abbrev pub projected : RunProjection → Option TurnKey → ProjectionRow
projected projection current = record {
  process = projection.process;
  observation = projection.observation;
  turn = projection.turn;
  turn_id = projection.turn_id;
  producer = Option.map (λ (key : TurnKey). key.producer_id) current;
  generation = Option.map (λ (key : TurnKey). key.generation) current;
}

-- The producer's row after a fact of its generation.
unfoldable pub moved_on : EventEnvelope → Bool → ProducerRow → ProducerRow
moved_on fact reconciled row =
    if row.generation == fact.generation
    then record row {
      next_seq = checked_next fact.seq;
      active = reconciled;
      reconciled = reconciled;
    }
    else row

abbrev pub tombstone_row : ReducerWrite → Revision → TombstoneEvidence → TombstoneRow
tombstone_row set next item = record {
  key = item.key;
  event = item.outcome_id;
  created = set.accepted_at;
  terminal = item.terminal;
  outcome_revision = some next;
}

-- The producer's update: `WHERE producer=?3 AND generation=?4`.
unfoldable pub update_producer :
    EventEnvelope → Bool → BTreeMap ProducerId ProducerRow → BTreeMap ProducerId ProducerRow
update_producer fact reconciled producers = elim (get fact.producer_id producers) [
  | none ↦ producers
  | some row ↦ insert fact.producer_id (moved_on fact reconciled row) producers
]

module _ {Text : Type 0} where
  -- `duplicate`
  unfoldable pub duplicate :
      ⦃t : Eq Text⦄
      → EventEnvelope
      → Text
      → List (FactRow Text)
      → Result StorageError (Option Revision)
  duplicate fact identity facts = elim (rival fact facts) [
    | none ↦ ok none
    | some row ↦
        if row.write_set == identity then ok (some row.revision) else err StorageError.conflict
  ]

  -- `projection`
  unfoldable pub projection :
      RunProjection → Option TurnKey → Database Text → Result StorageError (Database Text)
  projection shown current db = do
    if is_none (get shown.run_id db.projections)
        then capacity (len db.projections) max_runs 1
        else ok tt
    ok (record db { projections = insert shown.run_id (projected shown current) db.projections })

  -- `tombstone`
  unfoldable pub bury :
      ReducerWrite
      → Revision
      → Option TombstoneEvidence
      → Database Text
      → Result StorageError (Database Text)
  bury set next none db = ok db
  bury set next (some item) db = do
    known ← tombstone item.key db.tombstones
    reject_if (not (is_none known)) StorageError.conflict
    capacity (length db.tombstones) max_tombstones 1
    ok (record db { tombstones = db.tombstones ++ tombstone_row set next item ∷ [] })

  abbrev pub fact_row : ReducerWrite → Text → Revision → FactRow Text
  fact_row set identity next = record {
    event = set.fact.event_id;
    producer = set.fact.producer_id;
    generation = set.fact.generation;
    seq = set.fact.seq;
    run = set.fact.run_id;
    accepted = set.accepted_at;
    write_set = identity;
    revision = next;
  }

  -- The last writes of `apply`. No row has the new fact's keys: `duplicate` has looked for one.
  unfoldable pub record_fact : ReducerWrite → Text → ℕ → Revision → Database Text → Database Text
  record_fact set identity discarded next db = record db {
    facts = db.facts ++ fact_row set identity next ∷ [];
    producers = update_producer set.fact (not set.effects.reconciliation_required) db.producers;
    discarded = discarded;
    revision = next;
  }

  -- `apply` on a fact that is not stored.
  unfoldable pub apply_new :
      ReducerWrite → Text → Database Text → Result StorageError (Response × Database Text)
  apply_new set identity db = do
    next ← require_revision db set.expected_revision
    scope set.fact (producer db set.fact.producer_id)
    discarded ← discarded_next db set.discarded_events
    capacity (length db.facts) max_facts 1
    shown ← projection set.effects.projection set.effects.current_turn db
    asked ← Attention.apply set next shown
    buried ← bury set next set.effects.tombstone asked
    ok (Response.committed next false, record_fact set identity discarded next buried)

  -- `apply`
  unfoldable pub apply :
      ⦃t : Eq Text⦄
      → Json Text
      → ReducerWrite
      → Database Text
      → Result StorageError (Response × Database Text)
  apply json set db = do
    identity ← ok_or (json.to_vec set) StorageError.invalid_request
    known ← duplicate set.fact identity db.facts
    elim known [
      | some revision ↦ ok (Response.committed revision true, db)
      | none ↦ apply_new set identity db
    ]
