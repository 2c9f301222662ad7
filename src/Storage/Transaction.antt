-- ===== src/Storage/Transaction.antt =====
-- crates/harbormaster/src/storage/transaction.rs: registration inside a transaction. The generation
-- that the system's entropy gives, or nothing, is an argument.
pub mod Granted
use omarchy_harbormaster.Common.{
  Bool, true, false, not, ◌&&◌, ◌||◌, [], ◌∷◌, Option, none, some, ◌==◌, option_eq, if◌then◌else◌,
  Result, ok, err, ◌>>=◌, ◌>>◌, reject_if, ok_or, is_some_and, is_none,
}
use mathlib.Core.Option
use omarchy_harbormaster.Common.BTreeMap.{BTreeMap, get, insert, len}
use omarchy_harbormaster.Protocol.Identity.{
  ident_eq, ProducerId, ProducerGeneration, RunId, Revision,
}
use omarchy_harbormaster.Protocol.Event.{harness_eq}
use omarchy_harbormaster.Storage.{StorageError}
use omarchy_harbormaster.Storage.Types.{ProducerRecord, Registration, Response, max_runs}
use omarchy_harbormaster.Storage.Database.{
  Database, ProducerRow, advance, capacity, producer, require_revision,
}

-- `SELECT EXISTS(SELECT 1 FROM producers WHERE run=?1 AND active=1 AND producer<>?2)`
unfoldable pub active_rival : RunId → ProducerId → BTreeMap ProducerId ProducerRow → Bool
active_rival run id [] = false
active_rival run id ((other, p) ∷ producers) =
    (p.run == run && p.active && not (other == id)) || active_rival run id producers

-- The stored producer is not the one that the registration names.
unfoldable pub is_stale : Registration → Option ProducerRecord → Bool
is_stale registration previous =
    not (
      Option.map (λ (r : ProducerRecord). r.generation) previous
      == registration.previous_generation)
    || is_some_and previous
        (λ r. not (r.run_id == registration.run_id) || not (r.harness == registration.harness))

-- `INSERT … ON CONFLICT(producer) DO UPDATE`: a known producer keeps its run and its harness.
unfoldable pub upserted :
    Registration → ProducerGeneration → Bool → Bool → Option ProducerRow → ProducerRow
upserted registration generation active reconciled none = record {
  generation = generation;
  run = registration.run_id;
  harness = registration.harness;
  next_seq = some registration.next_sequence;
  active = active;
  reconciled = reconciled;
}
upserted registration generation active reconciled (some row) = record row {
  generation = generation;
  next_seq = some registration.next_sequence;
  active = active;
  reconciled = reconciled;
}

module _ {Text : Type 0} where
  -- The checks of `registration_inside`: the next revision and the generation.
  unfoldable pub may_register :
      Database Text
      → Registration
      → Option ProducerGeneration
      → Result StorageError (ProducerGeneration × Revision)
  may_register db registration fresh = do
    next ← require_revision db registration.expected_revision
    let previous = producer db registration.producer_id
    reject_if (is_stale registration previous) StorageError.stale_generation
    reject_if (active_rival registration.run_id registration.producer_id db.producers)
        StorageError.conflict
    if is_none previous then capacity (len db.producers) max_runs 1 else ok tt
    generation ← ok_or fresh StorageError.persistence_unavailable
    ok (generation, next)

  unfoldable pub upsert :
      Registration → ProducerGeneration → Bool → Bool → Database Text → Database Text
  upsert registration generation active reconciled db =
      let id : ProducerId = registration.producer_id in
      let row : ProducerRow =
        upserted registration generation active reconciled (get id db.producers) in
      record db { producers = insert id row db.producers }

  -- `register`
  unfoldable pub register :
      Registration
      → Option ProducerGeneration
      → Database Text
      → Result StorageError (Response × Database Text)
  register registration fresh db = do
    granted ← may_register db registration fresh
    ok (
      Response.registered granted.0 granted.1,
      advance granted.1 (upsert registration granted.0 true false db),
    )
