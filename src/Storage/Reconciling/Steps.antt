-- ===== src/Storage/Reconciling/Steps.antt =====
-- What a transaction of storage/reconciliation.rs that commits has found and written.
use omarchy_harbormaster.Common.{
  ℕ, ◌≡◌, false, not, ◌||◌, Option, some, ◌==◌, ok, bind_ok, ok_injective, passed_test, arith, sym,
  nat_eq,
}
use omarchy_harbormaster.Protocol.Identity.{ident_eq, ProducerGeneration, Revision}
use omarchy_harbormaster.Storage.{StorageError}
use omarchy_harbormaster.Storage.Types.{
  ProducerRecord, ProducerRetirement, Reconciliation, Response, is_verified,
}
use omarchy_harbormaster.Storage.Database.{
  Database, advance, discarded_next, producer, require_revision,
}
use omarchy_harbormaster.Storage.Context.{projection}
use omarchy_harbormaster.Storage.Transaction.{may_register, upsert}
use omarchy_harbormaster.Storage.Transaction.Granted.{Granted, may_register-Granted}
use omarchy_harbormaster.Storage.Reduction
use omarchy_harbormaster.Storage.Reconciling.{
  baseline_of, may_retire, reconcile, retire, update_obligations, validate_previous_turn,
}
use omarchy_harbormaster.Storage.Retirement

module _ {Text : Type 0} where
  pub record Reconciled (request : Reconciliation) (fresh : Option ProducerGeneration)
      (db : Database Text) (out : Response × Database Text) : Type 0 where
    pub discarded : ℕ
    pub granted : ProducerGeneration × Revision
    pub shown : Database Text
    pub revised : require_revision db request.registration.expected_revision ≡ ok granted.1
    pub counted : discarded_next db request.discarded_events ≡ ok discarded
    pub named : validate_previous_turn db request ≡ ok tt
    pub grant : Granted db request.registration fresh granted
    pub projected :
        Reduction.projection
          (baseline_of request.registration granted.0 request.baseline).0
          (baseline_of request.registration granted.0 request.baseline).1
          (update_obligations request granted.0 (
            upsert request.registration granted.0
              (is_verified request.baseline)
              (is_verified request.baseline)
              db))
        ≡ ok shown
    pub done : out ≡ (
      Response.registered granted.0 granted.1,
      advance granted.1 (record shown { discarded = discarded }),
    )

  pub reconcile-Reconciled :
      (request : Reconciliation) (fresh : Option ProducerGeneration) (db : Database Text)
      {out : Response × Database Text}
      → reconcile request fresh db ≡ ok out
      → Reconciled request fresh db out
  unfolding reconcile
  reconcile-Reconciled request fresh db h =
      let (_, _, h1) = bind_ok (require_revision db request.registration.expected_revision) _ h in
      let (discarded, e2, h2) = bind_ok (discarded_next db request.discarded_events) _ h1 in
      let (_, e3, h3) = bind_ok (validate_previous_turn db request) _ h2 in
      let (granted, e4, h4) = bind_ok (may_register db request.registration fresh) _ h3 in
      let grant = may_register-Granted db request.registration fresh e4 in
      let baseline = baseline_of request.registration granted.0 request.baseline in
      let (shown, e5, h5) =
        bind_ok
          (Reduction.projection baseline.0 baseline.1 (
            update_obligations request granted.0 (
              upsert request.registration granted.0 (is_verified request.baseline)
                (is_verified request.baseline) db)))
          _ h4 in
      record {
        discarded = discarded;
        granted = granted;
        shown = shown;
        revised = grant.revised;
        counted = e2;
        named = e3;
        grant = grant;
        projected = e5;
        done = sym (ok_injective h5);
      }

  pub record Retired (request : ProducerRetirement) (db : Database Text)
      (out : Response × Database Text) : Type 0 where
    pub next : Revision
    pub discarded : ℕ
    pub found : ProducerRecord
    pub revised : require_revision db request.expected_revision ≡ ok next
    pub known : producer db request.producer_id ≡ some found
    pub current : (not (found.generation == request.generation) || not found.active) ≡ false
    pub counted : discarded_next db request.discarded_events ≡ ok discarded
    pub done : out ≡ (
      Response.retired next,
      advance next (record (Retirement.retire (some (found.producer_id, found.generation)) db) {
        discarded = discarded;
      }),
    )

  may_retire-ok :
      (db : Database Text) (request : ProducerRetirement) {found : ProducerRecord}
      → may_retire db request ≡ ok found
      → (producer db request.producer_id ≡ some found)
        × ((not (found.generation == request.generation) || not found.active) ≡ false)
  unfolding may_retire
  may_retire-ok db request h = ground arith

  pub retire-Retired :
      (request : ProducerRetirement) (db : Database Text) {out : Response × Database Text}
      → retire request db ≡ ok out
      → Retired request db out
  unfolding retire
  retire-Retired request db h =
      let (next, e1, h1) = bind_ok (require_revision db request.expected_revision) _ h in
      let (found, e2, h2) = bind_ok (may_retire db request) _ h1 in
      let (discarded, e3, h3) = bind_ok (discarded_next db request.discarded_events) _ h2 in
      let (current, e4, h4) = bind_ok (projection db found.run_id) _ h3 in
      let (_, h5) = passed_test _ StorageError.conflict _ h4 in
      record {
        next = next;
        discarded = discarded;
        found = found;
        revised = e1;
        known = (may_retire-ok db request e2).0;
        current = (may_retire-ok db request e2).1;
        counted = e3;
        done = sym (ok_injective h5);
      }
