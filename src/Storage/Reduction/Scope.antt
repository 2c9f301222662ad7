-- ===== src/Storage/Reduction/Scope.antt =====
-- The producer that `scope` of storage/reducer_transaction.rs lets through.
use omarchy_harbormaster.Common.{◌≡◌, true, some, ok, arith, Option-cases, inl, inr}
use omarchy_harbormaster.Common.BTreeMap.{get}
use omarchy_harbormaster.Protocol.Identity.{ident_eq}
use omarchy_harbormaster.Protocol.Event.{EventEnvelope}
use omarchy_harbormaster.Storage.Database.{Database, ProducerRow, producer}
use omarchy_harbormaster.Storage.Reduction.{in_sequence, scope}

-- The event is the next one of an observer that may still report.
pub record IsLive (fact : EventEnvelope) (row : ProducerRow) : Type 0 where
  pub active : row.active ≡ true
  pub reconciled : row.reconciled ≡ true
  pub generation : row.generation ≡ fact.generation
  pub run : row.run ≡ fact.run_id
  pub due : row.next_seq ≡ some fact.seq

pub scope-Live :
    {Text : Type 0} (fact : EventEnvelope) (db : Database Text)
    → scope fact (producer db fact.producer_id) ≡ ok tt
    → (row : ProducerRow) × (get fact.producer_id db.producers ≡ some row) × IsLive fact row
unfolding scope producer in_sequence
scope-Live fact db h = elim (Option-cases (get fact.producer_id db.producers)) [
  | inl absent ↦ absurd (ground arith)
  | inr (row, found) ↦ (row, found, ground arith)
]

pub Live-scope :
    {Text : Type 0} (fact : EventEnvelope) (db : Database Text) (row : ProducerRow)
    → get fact.producer_id db.producers ≡ some row
    → IsLive fact row
    → scope fact (producer db fact.producer_id) ≡ ok tt
unfolding scope producer in_sequence
Live-scope fact db row found live = ground arith
