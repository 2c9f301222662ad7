-- ===== src/Storage/Database.antt =====
-- The tables of crates/harbormaster/src/storage/schema_layout.rs and the queries that the
-- transactions share (queries.rs, `capacity` of transaction.rs). A row has the columns of its
-- table, decoded; the one row of `metadata` is fields of the record. `Text` is the type of what
-- serde_json writes, and `Json` what the code asks of serde_json, and of `encode_frame` and `parse_event` of protocol/event.rs,
-- which decode with serde_json and are not modelled.
use omarchy_harbormaster.Common.{
  ℕ, ◌+◌, Bool, not, ◌&&◌, ◌||◌, List, [], ◌∷◌, Option, none, some, ◌==◌, option_eq, nat_eq, ltb,
  if◌then◌else◌, Result, ok, err, ok_or, reject_if,
}
use mathlib.Core.Option
use omarchy_harbormaster.Common.BTreeMap.{BTreeMap, get}
use omarchy_harbormaster.Protocol.Identity.{
  ident_eq, EventId, ProducerId, ProducerGeneration, RunId, TurnId, Seq, Revision, checked_next,
  u64_limit,
}
use omarchy_harbormaster.Protocol.Event.{EventEnvelope, HarnessKind}
use omarchy_harbormaster.Domain.Types.{
  AttentionReason, DeliveryState, ObservationState, ProcessState, TurnKey, TurnState,
}
use omarchy_harbormaster.Storage.{StorageError}
use omarchy_harbormaster.Storage.Types.{ProducerRecord, ReducerWrite, Timestamp}

pub record ProducerRow : Type 0 where
  pub generation : ProducerGeneration
  pub run : RunId
  pub harness : HarnessKind
  pub next_seq : Option Seq
  pub active : Bool
  pub reconciled : Bool

pub record FactRow (Text : Type 0) : Type 0 where
  pub event : EventId
  pub producer : ProducerId
  pub generation : ProducerGeneration
  pub seq : Seq
  pub run : RunId
  pub accepted : Timestamp
  pub write_set : Text
  pub revision : Revision

pub record ProjectionRow : Type 0 where
  pub process : ProcessState
  pub observation : ObservationState
  pub turn : TurnState
  pub turn_id : Option TurnId
  pub producer : Option ProducerId
  pub generation : Option ProducerGeneration

pub record AttentionRow : Type 0 where
  pub producer : ProducerId
  pub generation : ProducerGeneration
  pub event : EventId
  pub run : RunId
  pub reason : AttentionReason
  pub reviewed : Bool
  pub turn_id : Option TurnId
  pub resolved : Bool
  pub outcome_revision : Option Revision
  pub scoped : Bool
  pub resolution_generation : Option ProducerGeneration

pub record OutboxRow : Type 0 where
  pub producer : ProducerId
  pub generation : ProducerGeneration
  pub event : EventId
  pub run : RunId
  pub state : DeliveryState
  pub created : Timestamp
  pub changed : Timestamp
  pub outcome_revision : Option Revision

-- `key` is the primary key: the producer, the generation, the run and the turn.
pub record TombstoneRow : Type 0 where
  pub key : TurnKey
  pub event : EventId
  pub created : Timestamp
  pub terminal : Option TurnState
  pub outcome_revision : Option Revision

pub record Database (Text : Type 0) : Type 0 where
  pub revision : Revision
  pub discarded : ℕ
  pub producers : BTreeMap ProducerId ProducerRow
  pub facts : List (FactRow Text)
  pub projections : BTreeMap RunId ProjectionRow
  pub attention : List AttentionRow
  pub outbox : List OutboxRow
  pub tombstones : List TombstoneRow

pub record Json (Text : Type 0) : Type 0 where
  -- `serde_json::to_vec` of a write set
  pub to_vec : ReducerWrite → Option Text
  pub len : Text → ℕ
  -- the member `fact` of a written set, through `parse_event`
  pub fact : Text → Option EventEnvelope
  -- `encode_frame` succeeds
  pub frame_fits : EventEnvelope → Bool

abbrev pub producer_record : ProducerId → ProducerRow → ProducerRecord
producer_record id row = record {
  producer_id = id;
  harness = row.harness;
  generation = row.generation;
  run_id = row.run;
  next_sequence = row.next_seq;
  active = row.active;
  reconciled = row.reconciled;
}

module _ {Text : Type 0} where
  -- `queries::require_revision`
  unfoldable pub require_revision : Database Text → Revision → Result StorageError Revision
  require_revision db expected =
      if not (db.revision == expected)
      then err StorageError.stale_revision
      else ok_or (checked_next expected) StorageError.resource_exhausted

  -- `queries::advance`
  abbrev pub advance : Revision → Database Text → Database Text
  advance next db = record db { revision = next }

  -- `queries::producer`
  unfoldable pub producer : Database Text → ProducerId → Option ProducerRecord
  producer db id = Option.map (producer_record id) (get id db.producers)

  -- `discarded_next` of reconciliation.rs.
  unfoldable pub discarded_next : Database Text → ℕ → Result StorageError ℕ
  discarded_next db adding =
      if ltb (db.discarded + adding) u64_limit
      then ok (db.discarded + adding)
      else err StorageError.resource_exhausted

-- `capacity` of transaction.rs, given what its query counts.
abbrev pub capacity : ℕ → ℕ → ℕ → Result StorageError (Unit {0})
capacity count maximum adding =
    reject_if (ltb maximum (count + adding)) StorageError.resource_exhausted

module _ {Text : Type 0} (fact : EventEnvelope) where
  -- A stored fact of the event's producer and generation, with its id or its sequence.
  abbrev pub rivals : FactRow Text → Bool
  rivals row =
      row.producer == fact.producer_id
      && row.generation == fact.generation
      && (row.event == fact.event_id || row.seq == fact.seq)

  -- `SELECT … FROM facts WHERE … LIMIT 1`
  unfoldable pub rival : List (FactRow Text) → Option (FactRow Text)
  rival [] = none
  rival (row ∷ rows) = if rivals row then some row else rival rows
