-- ===== src/Storage/Reconciling/Registered.antt =====
-- Whom the storage has registered when it says so.
use omarchy_harbormaster.Common.{
  ◌+◌, ◌≡◌, sym, ap, subst, ◌∙◌, Bool, false, Option, some, Eq, ok, arith, Option-cases, inl, inr,
}
use mathlib.Core.Option
use omarchy_harbormaster.Common.BTreeMap.{get, get-insert_self}
use omarchy_harbormaster.Protocol.Identity.{ident_eq, ProducerGeneration, Revision}
use omarchy_harbormaster.Protocol.Event.{harness_eq}
use omarchy_harbormaster.Storage.Types.{
  ProducerRecord, Reconciliation, Registration, Request, Response, is_verified,
}
use omarchy_harbormaster.Storage.Database.{Database, advance, Json, producer, producer_record}
use omarchy_harbormaster.Storage.Transaction.{is_stale, upsert, upserted}
use omarchy_harbormaster.Storage.Reduction.Frames.{projection-ok, require_revision-ok}
use omarchy_harbormaster.Storage.Reconciling.{update_obligations}
use omarchy_harbormaster.Storage.Reconciling.Steps.{Reconciled, reconcile-Reconciled}
use omarchy_harbormaster.Storage.Engine.{dispatch, execute}
use omarchy_harbormaster.Storage.Soundness.History.{execute-ok}

-- What a producer is after its registration.
abbrev pub registered_as : Registration → ProducerGeneration → Bool → ProducerRecord
registered_as registration generation verified' = record {
  producer_id = registration.producer_id;
  harness = registration.harness;
  generation = generation;
  run_id = registration.run_id;
  next_sequence = some registration.next_sequence;
  active = verified';
  reconciled = verified';
}

module _ {Text : Type 0} where
  upserted_as :
      (db : Database Text) (registration : Registration) (generation : ProducerGeneration)
      (b : Bool)
      → is_stale registration (producer db registration.producer_id) ≡ false
      → producer_record registration.producer_id
          (upserted registration generation b b (get registration.producer_id db.producers))
        ≡ registered_as registration generation b
  unfolding upserted is_stale producer
  upserted_as db registration generation b h =
      elim (Option-cases (get registration.producer_id db.producers)) [
        | inl absent ↦ ground arith
        | inr (row, found) ↦ ground arith
      ]

  shown_producers :
      (request : Reconciliation) (fresh : Option ProducerGeneration) (db : Database Text)
      (out : Response × Database Text) (did : Reconciled request fresh db out)
      → did.shown.producers
        ≡ (upsert request.registration did.granted.0
            (is_verified request.baseline)
            (is_verified request.baseline)
            db).producers
  unfolding update_obligations
  shown_producers request fresh db out did =
      let (frame, _) = projection-ok _ _ _ did.projected in ap (λ d. d.producers) frame

  -- The row that the upsert leaves.
  row_after :
      (registration : Registration) (generation : ProducerGeneration) (b : Bool)
      (db after : Database Text)
      → is_stale registration (producer db registration.producer_id) ≡ false
      → after.producers ≡ (upsert registration generation b b db).producers
      → producer after registration.producer_id ≡ some (registered_as registration generation b)
  unfolding producer upsert
  row_after registration generation b db after current e =
      let id = registration.producer_id in
      ap (λ m. Option.map (producer_record id) (get id m)) e
      ∙ ap (Option.map (producer_record id)) (
          get-insert_self id (upserted registration generation b b (get id db.producers))
            db.producers)
      ∙ ap some (upserted_as db registration generation b current)

  -- A reconciliation that is answered has registered the producer as it was asked to, with the
  -- generation and at the revision that the answer names, active exactly on verified evidence.
  pub registered_exact :
      ⦃t : Eq Text⦄
      → (json : Json Text) (request : Reconciliation) (fresh : Option ProducerGeneration)
        (db after : Database Text) (generation : ProducerGeneration) (r : Revision)
      → execute json fresh (Request.reconcile request) db
        ≡ (ok (Response.registered generation r), after)
      → (producer after request.registration.producer_id
          ≡ some (registered_as request.registration generation (is_verified request.baseline)))
        × (after.revision ≡ r)
        × (db.revision + 1 ≡ r)
  unfolding dispatch
  registered_exact json request fresh db after generation r h =
      let (_, did') = execute-ok json fresh (Request.reconcile request) db after _ h in
      let did = reconcile-Reconciled request fresh db did' in
      let (_, later) = require_revision-ok db request.registration.expected_revision did.revised in
      let names : generation ≡ did.granted.0 = cc did.done in
      let dates : r ≡ did.granted.1 = cc did.done in
      let left : after ≡ advance did.granted.1 (record did.shown { discarded = did.discarded }) =
        ap (λ o. o.1) did.done in
      (
        subst
            (λ g.
              producer after request.registration.producer_id
              ≡ some (registered_as request.registration g (is_verified request.baseline)))
            (sym names)
            (row_after request.registration did.granted.0 (is_verified request.baseline) db after
              did.grant.current
              (ap (λ d. d.producers) left
                ∙ shown_producers request fresh db (Response.registered generation r, after) did)),
        ap (λ d. d.revision) left ∙ sym dates,
        sym later ∙ sym dates,
      )
