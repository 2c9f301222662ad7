-- ===== src/Storage/Engine.antt =====
-- crates/harbormaster/src/storage/engine.rs: a request is validated and dispatched to its
-- transaction. An error leaves the tables as they were. The files of the database, its write-ahead
-- log and the requests that `Storage.Types.Request` leaves out are not modelled.
use omarchy_harbormaster.Common.{
  Bool, false, ◌||◌, [], ◌∷◌, Option, none, some, Eq, Result, ok, err, ◌>>=◌, ◌>>◌, if◌then◌else◌,
  ok_or, reject_if, not,
}
use omarchy_harbormaster.Common.BTreeMap.{BTreeMap}
use omarchy_harbormaster.Protocol.Identity.{ProducerId, ProducerGeneration, Revision, checked_next}
use omarchy_harbormaster.Storage.{StorageError}
use omarchy_harbormaster.Storage.Types.{Request, Response}
use omarchy_harbormaster.Storage.Database.{Database, Json, ProducerRow, advance}
use omarchy_harbormaster.Storage.Context
use omarchy_harbormaster.Storage.Reconciling
use omarchy_harbormaster.Storage.Reduction
use omarchy_harbormaster.Storage.Retirement
use omarchy_harbormaster.Storage.Transaction
use omarchy_harbormaster.Storage.Validation

-- `SELECT EXISTS(SELECT 1 FROM producers WHERE active=1)`
unfoldable pub any_active : BTreeMap ProducerId ProducerRow → Bool
any_active [] = false
any_active ((_, p) ∷ producers) = p.active || any_active producers

module _ {Text : Type 0} where
  -- `invalidate_generations`: no observer survives the manager that it reported to.
  unfoldable pub invalidate_generations :
      Option Revision → Database Text → Result StorageError (Database Text)
  invalidate_generations none db = if not (any_active db.producers) then ok db else do
    next ← ok_or (checked_next db.revision) StorageError.resource_exhausted
    ok (advance next (Retirement.retire none db))
  invalidate_generations (some next) db = ok (advance next (Retirement.retire none db))

  -- `Request::validate`
  unfoldable pub validate : Json Text → Request → Result StorageError (Unit {0})
  validate json (Request.context fact) =
      reject_if (not (json.frame_fits fact)) StorageError.invalid_request
  validate json (Request.apply set) = Validation.apply json set
  validate json (Request.reconcile request) = Validation.reconciliation request
  validate json (Request.retire_producer _) = ok tt
  validate json (Request.register _) = ok tt

  module _ ⦃t : Eq Text⦄ (json : Json Text) where
    -- `dispatch`, with the generation that entropy would give.
    unfoldable pub dispatch :
        Option ProducerGeneration
        → Request
        → Database Text
        → Result StorageError (Response × Database Text)
    dispatch fresh (Request.context fact) db = do
      read ← Context.context json db fact
      ok (Response.context read, db)
    dispatch fresh (Request.apply set) db = Reduction.apply json set db
    dispatch fresh (Request.reconcile request) db = Reconciling.reconcile request fresh db
    dispatch fresh (Request.retire_producer request) db = Reconciling.retire request db
    dispatch fresh (Request.register registration) db = Transaction.register registration fresh db

    -- `execute`: the answer, and the tables that it leaves.
    unfoldable pub execute :
        Option ProducerGeneration
        → Request
        → Database Text
        → Result StorageError Response × Database Text
    execute fresh request db = elim (do validate json request; dispatch fresh request db) [
      | err e ↦ (err e, db)
      | ok (response, db') ↦ (ok response, db')
    ]
