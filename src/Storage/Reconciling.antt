-- ===== src/Storage/Reconciling.antt =====
-- crates/harbormaster/src/storage/reconciliation.rs: a fresh generation, or the end of an old one.
pub mod Steps
pub mod Registered
use omarchy_harbormaster.Common.{
  Bool, true, false, not, ◌&&◌, ◌||◌, List, [], ◌∷◌, Option, none, some, ◌==◌, option_eq,
  if◌then◌else◌, Result, ok, err, ◌>>=◌, ◌>>◌, reject_if, ok_or, is_some_and, is_none,
}
use mathlib.Core.Option
use omarchy_harbormaster.Protocol.Identity.{ident_eq, ProducerGeneration}
use omarchy_harbormaster.Domain.Types.{RunProjection, TurnKey, key_eq, is_terminal}
use omarchy_harbormaster.Storage.{StorageError}
use omarchy_harbormaster.Storage.Types.{
  ProducerRecord, ProducerRetirement, Reconciliation, ReconciliationBaseline, Registration,
  Response, is_verified, unavailable, verified,
}
use omarchy_harbormaster.Storage.Database.{
  AttentionRow, Database, advance, discarded_next, producer, require_revision,
}
use omarchy_harbormaster.Storage.Context.{projection, unknown_projection}
use omarchy_harbormaster.Storage.Attention.{is_waiting, resolved_first}
use omarchy_harbormaster.Storage.Transaction.{may_register, upsert}
use omarchy_harbormaster.Storage.Reduction
use omarchy_harbormaster.Storage.Retirement

-- `a.or(b)`
abbrev pub either_turn : Option TurnKey → Option TurnKey → Option TurnKey
either_turn (some key) other = some key
either_turn none other = other

-- What `validate_previous_turn` finds wrong with the turn that the request names.
unfoldable pub wrong_turn : Reconciliation → TurnKey → RunProjection × Option TurnKey → Bool
wrong_turn request key (shown, current) =
    not (current == some key)
    || not (key.producer_id == request.registration.producer_id)
    || not (request.registration.previous_generation == some key.generation)
    || (not (is_none request.continued_turn) && is_terminal shown.turn)

-- A verified wait goes on in the fresh generation: its link moves, its provenance stays. No row
-- resolves in a generation that is fresh, so that the index on the link has nothing to refuse.
unfoldable pub continue_turn :
    Option TurnKey → ProducerGeneration → List AttentionRow → List AttentionRow
continue_turn none fresh rows = rows
continue_turn (some key) fresh [] = []
continue_turn (some key) fresh (row ∷ rows) =
    (if is_waiting key row then record row { resolution_generation = some fresh } else row)
    ∷ continue_turn (some key) fresh rows

-- The projection that the baseline gives, with the current turn in the fresh generation.
unfoldable pub baseline_of :
    Registration → ProducerGeneration → ReconciliationBaseline → RunProjection × Option TurnKey
baseline_of registration generation unavailable = (unknown_projection registration.run_id, none)
baseline_of registration generation (verified shown turn) = (
  shown,
  Option.map
      (λ turn_id. record {
        producer_id = registration.producer_id;
        generation = generation;
        run_id = registration.run_id;
        turn_id = turn_id;
      })
      turn,
)

module _ {Text : Type 0} where
  -- `validate_previous_turn`
  unfoldable pub validate_previous_turn :
      Database Text → Reconciliation → Result StorageError (Unit {0})
  validate_previous_turn db request =
      elim (either_turn request.resolved_turn request.continued_turn) [
        | none ↦ ok tt
        | some key ↦ do
          current ← projection db request.registration.run_id
          reject_if (wrong_turn request key current) StorageError.conflict
      ]

  -- `update_obligations`
  unfoldable pub update_obligations :
      Reconciliation → ProducerGeneration → Database Text → Database Text
  update_obligations request fresh db = record db {
    attention =
        continue_turn request.continued_turn fresh
          (resolved_first request.resolved_turn db.attention);
  }

  -- `reconcile`
  unfoldable pub reconcile :
      Reconciliation
      → Option ProducerGeneration
      → Database Text
      → Result StorageError (Response × Database Text)
  reconcile request fresh db = do
    require_revision db request.registration.expected_revision
    discarded ← discarded_next db request.discarded_events
    let proven = is_verified request.baseline
    validate_previous_turn db request
    granted ← may_register db request.registration fresh
    let registered = upsert request.registration granted.0 proven proven db
    let baseline = baseline_of request.registration granted.0 request.baseline
    shown ←
        Reduction.projection baseline.0 baseline.1 (update_obligations request granted.0 registered)
    ok (
      Response.registered granted.0 granted.1,
      advance granted.1 (record shown { discarded = discarded }),
    )

  -- The checks of `retire` on the stored producer.
  unfoldable pub may_retire :
      Database Text → ProducerRetirement → Result StorageError ProducerRecord
  may_retire db request = do
    found ← ok_or (producer db request.producer_id) StorageError.unknown_producer
    reject_if (not (found.generation == request.generation) || not found.active)
        StorageError.stale_generation
    ok found

  -- `retire`
  unfoldable pub retire :
      ProducerRetirement → Database Text → Result StorageError (Response × Database Text)
  retire request db = do
    next ← require_revision db request.expected_revision
    found ← may_retire db request
    discarded ← discarded_next db request.discarded_events
    current ← projection db found.run_id
    reject_if
        (is_some_and current.1 (λ key.
          not (key.producer_id == found.producer_id) || not (key.generation == found.generation)))
        StorageError.conflict
    let retired = Retirement.retire (some (found.producer_id, found.generation)) db
    ok (Response.retired next, advance next (record retired { discarded = discarded }))
