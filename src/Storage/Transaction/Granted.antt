-- ===== src/Storage/Transaction/Granted.antt =====
-- What a registration of storage/transaction.rs that commits has found and written.
use omarchy_harbormaster.Common.{
  ◌≤◌, ◌≡◌, Bool, true, false, Option, none, some, ok, bind_ok, ok_injective, passed_test, ok_or,
  arith, is_none, sym, if◌then◌else◌,
}
use omarchy_harbormaster.Common.BTreeMap.{get, len, len-insert}
use omarchy_harbormaster.Protocol.Identity.{ident_eq, ProducerGeneration, Revision}
use omarchy_harbormaster.Storage.{StorageError}
use omarchy_harbormaster.Storage.Types.{Registration, Response, max_runs}
use omarchy_harbormaster.Storage.Database.{Database, advance, capacity, producer, require_revision}
use omarchy_harbormaster.Storage.Transaction.{
  active_rival, is_stale, may_register, register, upsert, upserted,
}

ok_or-ok {ℓ κ} :
    {E : Type ℓ} {A : Type κ} (o : Option A) (e : E) {a : A} → ok_or o e ≡ ok a → o ≡ some a
ok_or-ok none e h = cc
ok_or-ok (some a) e h = cc

module _ {Text : Type 0} where
  pub record Granted (db : Database Text) (registration : Registration)
      (fresh : Option ProducerGeneration) (out : ProducerGeneration × Revision) : Type 0 where
    pub revised : require_revision db registration.expected_revision ≡ ok out.1
    pub current : is_stale registration (producer db registration.producer_id) ≡ false
    pub alone : active_rival registration.run_id registration.producer_id db.producers ≡ false
    pub room :
        (if is_none (producer db registration.producer_id)
          then capacity (len db.producers) max_runs 1
          else ok tt)
        ≡ ok tt
    pub drawn : fresh ≡ some out.0

  pub may_register-Granted :
      (db : Database Text) (registration : Registration) (fresh : Option ProducerGeneration)
      {out : ProducerGeneration × Revision}
      → may_register db registration fresh ≡ ok out
      → Granted db registration fresh out
  unfolding may_register
  may_register-Granted db registration fresh {out} h =
      let (next, e1, h1) = bind_ok (require_revision db registration.expected_revision) _ h in
      let (e2, h2) =
        passed_test (is_stale registration (producer db registration.producer_id))
          StorageError.stale_generation _ h1 in
      let (e3, h3) =
        passed_test (active_rival registration.run_id registration.producer_id db.producers)
          StorageError.conflict _ h2 in
      let (_, e4, h4) =
        bind_ok
          (if is_none (producer db registration.producer_id)
            then capacity (len db.producers) max_runs 1
            else ok tt)
          _ h3 in
      let (generation, e5, h5) = bind_ok (ok_or fresh StorageError.persistence_unavailable) _ h4 in
      let left : (generation, next) ≡ out = ok_injective h5 in
      record { revised = cc; current = e2; alone = e3; room = e4; drawn = cc (ok_or-ok fresh _ e5) }

  -- The write of a registration keeps within the limit on producers.
  pub upsert_bounded :
      (db : Database Text) (registration : Registration) (fresh : Option ProducerGeneration)
      (out : ProducerGeneration × Revision) (active reconciled : Bool)
      → Granted db registration fresh out
      → len db.producers ≤ max_runs
      → len (upsert registration out.0 active reconciled db).producers ≤ max_runs
  unfolding upsert producer
  upsert_bounded db registration fresh out active reconciled granted fits = ground (
    arith,
    granted.room,
    len-insert registration.producer_id
        (upserted registration out.0 active reconciled (get registration.producer_id db.producers))
        db.producers,
  )

  pub register-ok :
      (registration : Registration) (fresh : Option ProducerGeneration) (db : Database Text)
      {out : Response × Database Text}
      → register registration fresh db ≡ ok out
      → (granted : ProducerGeneration × Revision) × Granted db registration fresh granted
        × (out ≡ (
          Response.registered granted.0 granted.1,
          advance granted.1 (upsert registration granted.0 true false db),
        ))
  unfolding register
  register-ok registration fresh db h =
      let (granted, e, h') = bind_ok (may_register db registration fresh) _ h in
      (granted, may_register-Granted db registration fresh e, sym (ok_injective h'))
