-- ===== src/Storage/Soundness/Withdrawing.antt =====
-- A retirement and a restart keep the tables sound.
use omarchy_harbormaster.Common.{
  ℕ, ◌≤◌, ◌≡◌, sym, subst, true, false, none, some, ok, bind_ok, ok_injective, ok_or, arith, inl,
  inr, ◌>>=◌, Bool-cases,
}
use omarchy_harbormaster.Protocol.Identity.{ident_eq, Revision, checked_next}
use omarchy_harbormaster.Protocol.Event.{harness_eq}
use omarchy_harbormaster.Storage.{StorageError}
use omarchy_harbormaster.Storage.Types.{ProducerRetirement, Response}
use omarchy_harbormaster.Storage.Database.{Database, Json, advance}
use omarchy_harbormaster.Storage.Reduction.Frames.{require_revision-ok}
use omarchy_harbormaster.Storage.Reconciling.{retire}
use omarchy_harbormaster.Storage.Reconciling.Steps.{retire-Retired}
use omarchy_harbormaster.Storage.Retirement
use omarchy_harbormaster.Storage.Retirement.{Observer}
use omarchy_harbormaster.Storage.Engine.{invalidate_generations, any_active}
use omarchy_harbormaster.Storage.Soundness.{IsIntact}
use omarchy_harbormaster.Storage.Soundness.Facts.{IsDated-later}
use omarchy_harbormaster.Storage.Soundness.Producers.{OneActive-weakened, deactivate-Weakens}
use omarchy_harbormaster.Storage.Soundness.Rows.{degrade-IsScoped, len-deactivate, len-degrade}

advanced :
    (revision : Revision) {next : Revision}
    → ok_or (checked_next revision) StorageError.resource_exhausted ≡ ok next
    → revision ≤ next
unfolding checked_next
advanced revision h = ground arith

module _ {Text : Type 0} where
  -- A retirement of one observer or of all, at a later revision.
  retired-IsIntact :
      (json : Json Text) (who : Observer) (discarded : ℕ) (next : Revision) (db : Database Text)
      → db.revision ≤ next
      → IsIntact json db
      → IsIntact json (advance next (record (Retirement.retire who db) { discarded = discarded }))
  unfolding Retirement.retire
  retired-IsIntact json who discarded next db later sound = record {
    apart = sound.apart;
    dated = IsDated-later db.revision next db.facts later sound.dated;
    readable = sound.readable;
    scoped = degrade-IsScoped who false db.producers db.projections sound.scoped;
    ended = sound.ended;
    single = OneActive-weakened db.producers _ (deactivate-Weakens who db.producers) sound.single;
    fits = record {
      facts = sound.fits.facts;
      producers = omega (arith, len-deactivate who db.producers, sound.fits.producers);
      projections =
          omega (arith, len-degrade who false db.producers db.projections, sound.fits.projections);
      attention = sound.fits.attention;
      outbox = sound.fits.outbox;
      tombstones = sound.fits.tombstones;
    };
  }

  pub retire-IsIntact :
      (json : Json Text) (request : ProducerRetirement) (db : Database Text)
      {out : Response × Database Text}
      → IsIntact json db
      → retire request db ≡ ok out
      → IsIntact json out.1
  retire-IsIntact json request db sound h =
      let r = retire-Retired request db h in
      let (_, later) = require_revision-ok db request.expected_revision r.revised in
      subst (λ o. IsIntact json o.1) (sym r.done)
        (retired-IsIntact json (some (r.found.producer_id, r.found.generation)) r.discarded r.next
          db (omega (arith, later)) sound)

  restart :
      (db : Database Text) {after : Database Text}
      → any_active db.producers ≡ true
      → invalidate_generations none db ≡ ok after
      → (ok_or (checked_next db.revision) StorageError.resource_exhausted >>= λ next.
          ok (advance next (Retirement.retire none db)))
        ≡ ok after
  unfolding invalidate_generations
  restart db live h = ground arith

  pub invalidate_generations-IsIntact :
      (json : Json Text) (db : Database Text) {after : Database Text}
      → IsIntact json db
      → invalidate_generations none db ≡ ok after
      → IsIntact json after
  unfolding invalidate_generations Retirement.retire
  invalidate_generations-IsIntact json db {after} sound h =
      elim (Bool-cases (any_active db.producers)) [
        | inl live ↦
            let (next, e, h') =
              bind_ok (ok_or (checked_next db.revision) StorageError.resource_exhausted) _
                (restart db live h) in
            subst (IsIntact json) (ok_injective h')
              (retired-IsIntact json none db.discarded next db (advanced db.revision e) sound)
        | inr idle ↦
            let same : db ≡ after = ok_injective {E = StorageError} (ground arith) in
            subst (IsIntact json) same sound
      ]
