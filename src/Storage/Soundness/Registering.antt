-- ===== src/Storage/Soundness/Registering.antt =====
-- A registration and a reconciliation keep the tables sound.
use omarchy_harbormaster.Common.{
  ℕ, ◌≤◌, ◌≡◌, sym, ap, subst, Bool, true, false, Option, ok, arith, All, length, Option-cases, inl,
  inr,
}
use mathlib.Core.Option
use omarchy_harbormaster.Common.BTreeMap.{get, len, insert}
use omarchy_harbormaster.Protocol.Identity.{ident_eq, ProducerGeneration, Revision}
use omarchy_harbormaster.Protocol.Event.{harness_eq}
use omarchy_harbormaster.Domain.Types.{RunProjection, TurnKey}
use omarchy_harbormaster.Storage.Reduction.{projected}
use omarchy_harbormaster.Storage.Types.{
  Reconciliation, Registration, Response, max_runs, is_verified,
}
use omarchy_harbormaster.Storage.Database.{Database, Json, ProducerRow, producer, advance}
use omarchy_harbormaster.Storage.Attention.{resolved_first}
use omarchy_harbormaster.Storage.Reduction.Frames.{
  FitsOutbox, length-resolved_first, projection-ok, require_revision-ok,
}
use omarchy_harbormaster.Storage.Transaction.{active_rival, is_stale, register, upsert, upserted}
use omarchy_harbormaster.Storage.Transaction.Granted.{Granted, register-ok, upsert_bounded}
use omarchy_harbormaster.Storage.Reconciling.{baseline_of, reconcile, update_obligations}
use omarchy_harbormaster.Storage.Reconciling.Steps.{reconcile-Reconciled}
use omarchy_harbormaster.Storage.Validation.{baseline_invalid}
use omarchy_harbormaster.Storage.Soundness.{
  Apart, HasEnded, IsDated, IsReadable, IsScoped, IsIntact, OneActive,
}
use omarchy_harbormaster.Storage.Soundness.Facts.{IsDated-later}
use omarchy_harbormaster.Storage.Soundness.Producers.{insert-OneActive}
use omarchy_harbormaster.Storage.Soundness.Rows.{
  insert-All, length-continue_turn, projected-IsScoped, valid_baseline,
}

module _ {Text : Type 0} where
  -- The row that a registration writes stands on the run that it names.
  upserted-run :
      (db : Database Text) (registration : Registration) (generation : ProducerGeneration)
      (active reconciled : Bool)
      → is_stale registration (producer db registration.producer_id) ≡ false
      → (upserted registration generation active reconciled
          (get registration.producer_id db.producers)).run
        ≡ registration.run_id
  unfolding upserted is_stale producer
  upserted-run db registration generation active reconciled h =
      elim (Option-cases (get registration.producer_id db.producers)) [
        | inl absent ↦ ground arith
        | inr (row, found) ↦ ground arith
      ]

  upsert-OneActive :
      (db : Database Text) (registration : Registration) (fresh : Option ProducerGeneration)
      (out : ProducerGeneration × Revision) (active reconciled : Bool)
      → Granted db registration fresh out
      → OneActive db.producers
      → OneActive (upsert registration out.0 active reconciled db).producers
  unfolding upsert
  upsert-OneActive db registration fresh out active reconciled granted one =
      let row : ProducerRow =
        upserted registration out.0 active reconciled (get registration.producer_id db.producers) in
      let run : row.run ≡ registration.run_id =
        upserted-run db registration out.0 active reconciled granted.current in
      insert-OneActive registration.producer_id row db.producers
        (subst (λ r. active_rival r registration.producer_id db.producers ≡ false) (sym run)
          granted.alone)
        one

  pub register-IsIntact :
      (json : Json Text) (registration : Registration) (fresh : Option ProducerGeneration)
      (db : Database Text) {out : Response × Database Text}
      → IsIntact json db
      → register registration fresh db ≡ ok out
      → IsIntact json out.1
  unfolding upsert
  register-IsIntact json registration fresh db {out} sound h =
      let (granted, grant, done) = register-ok registration fresh db h in
      let (_, later) = require_revision-ok db registration.expected_revision grant.revised in
      let after : Database Text = advance granted.1 (upsert registration granted.0 true false db) in
      let result : IsIntact json after = record {
        apart = sound.apart;
        dated = IsDated-later db.revision granted.1 db.facts (omega (arith, later)) sound.dated;
        readable = sound.readable;
        scoped = sound.scoped;
        ended = sound.ended;
        single = upsert-OneActive db registration fresh granted true false grant sound.single;
        fits = record {
          facts = sound.fits.facts;
          producers =
              upsert_bounded db registration fresh granted true false grant sound.fits.producers;
          projections = sound.fits.projections;
          attention = sound.fits.attention;
          outbox = sound.fits.outbox;
          tombstones = sound.fits.tombstones;
        };
      } in
      subst (λ o. IsIntact json o.1) (sym done) result

  -- The baseline's projection on tables that are sound but for their revision.
  settled :
      (json : Json Text) (shown : RunProjection) (current : Option TurnKey) (discarded : ℕ)
      (next : Revision) (before after : Database Text)
      → after ≡ record before {
        projections = insert shown.run_id (projected shown current) before.projections;
      }
      → (len before.projections ≤ max_runs → len after.projections ≤ max_runs)
      → before.revision ≤ next
      → shown.turn_id ≡ Option.map (λ (key : TurnKey). key.turn_id) current
      → IsIntact json before
      → IsIntact json (advance next (record after { discarded = discarded }))
  settled json shown current discarded next before after frame room later same sound = record {
    apart = subst Apart (sym (ap (λ d. d.facts) frame)) sound.apart;
    dated =
        subst (All (IsDated next)) (sym (ap (λ d. d.facts) frame))
          (IsDated-later before.revision next before.facts later sound.dated);
    readable = subst (All (IsReadable json)) (sym (ap (λ d. d.facts) frame)) sound.readable;
    scoped = subst (All IsScoped) (sym (ap (λ d. d.projections) frame)) (
        insert-All IsScoped shown.run_id _ before.projections
          (projected-IsScoped shown current same) sound.scoped);
    ended = subst (All HasEnded) (sym (ap (λ d. d.tombstones) frame)) sound.ended;
    single = subst OneActive (sym (ap (λ d. d.producers) frame)) sound.single;
    fits = record {
      facts = omega (arith, ap (λ (d : Database Text). length d.facts) frame, sound.fits.facts);
      producers =
          omega (arith, ap (λ (d : Database Text). len d.producers) frame, sound.fits.producers);
      projections = room sound.fits.projections;
      attention =
          omega (arith, ap (λ (d : Database Text). length d.attention) frame, sound.fits.attention);
      outbox = subst FitsOutbox (sym (ap (λ d. d.outbox) frame)) sound.fits.outbox;
      tombstones =
          omega
            (arith, ap (λ (d : Database Text). length d.tombstones) frame, sound.fits.tombstones);
    };
  }

  pub reconcile-IsIntact :
      (json : Json Text) (request : Reconciliation) (fresh : Option ProducerGeneration)
      (db : Database Text) {out : Response × Database Text}
      → baseline_invalid request request.baseline ≡ false
      → IsIntact json db
      → reconcile request fresh db ≡ ok out
      → IsIntact json out.1
  unfolding upsert update_obligations
  reconcile-IsIntact json request fresh db {out} valid sound h =
      let r = reconcile-Reconciled request fresh db h in
      let proven : Bool = is_verified request.baseline in
      let registration : Registration = request.registration in
      let (shown, current) = baseline_of registration r.granted.0 request.baseline in
      let registered : Database Text = upsert registration r.granted.0 proven proven db in
      let (frame, room) =
        projection-ok shown current (update_obligations request r.granted.0 registered)
          r.projected in
      let (_, later) = require_revision-ok db registration.expected_revision r.revised in
      let kept : IsIntact json (update_obligations request r.granted.0 registered) = record {
        apart = sound.apart;
        dated = sound.dated;
        readable = sound.readable;
        scoped = sound.scoped;
        ended = sound.ended;
        single =
            upsert-OneActive db registration fresh r.granted proven proven r.grant sound.single;
        fits = record {
          facts = sound.fits.facts;
          producers =
              upsert_bounded db registration fresh r.granted proven proven r.grant
                sound.fits.producers;
          projections = sound.fits.projections;
          attention = omega (
            arith,
            length-continue_turn request.continued_turn r.granted.0
                (resolved_first request.resolved_turn db.attention),
            length-resolved_first request.resolved_turn db.attention,
            sound.fits.attention,
          );
          outbox = sound.fits.outbox;
          tombstones = sound.fits.tombstones;
        };
      } in
      subst (λ o. IsIntact json o.1) (sym r.done)
        (settled json shown current r.discarded r.granted.1 _ r.shown frame room
          (omega (arith, later)) (valid_baseline request r.granted.0 request.baseline valid) kept)
