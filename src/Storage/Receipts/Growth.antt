-- ===== src/Storage/Receipts/Growth.antt =====
-- No transaction of the reducer path removes a fact.
use omarchy_harbormaster.Common.{
  ◌≡◌, refl, sym, ap, subst, ◌∙◌, List, [], ◌∷◌, ◌++◌, append_nil, Option, none, some, Eq, ok,
  bind_ok, ok_injective, Result-cases, inl, inr, arith,
}
use omarchy_harbormaster.Protocol.Identity.{ProducerGeneration}
use omarchy_harbormaster.Protocol.Event.{EventEnvelope}
use omarchy_harbormaster.Storage.Types.{Request, Response}
use omarchy_harbormaster.Storage.Database.{Database, FactRow, Json, rival}
use omarchy_harbormaster.Storage.Context
use omarchy_harbormaster.Storage.Engine.{dispatch, execute, invalidate_generations}
use omarchy_harbormaster.Storage.Reduction.{fact_row}
use omarchy_harbormaster.Storage.Reduction.Frames.{projection-ok}
use omarchy_harbormaster.Storage.Reconciling.{update_obligations}
use omarchy_harbormaster.Storage.Reconciling.Steps.{reconcile-Reconciled, retire-Retired}
use omarchy_harbormaster.Storage.Retirement
use omarchy_harbormaster.Storage.Transaction.{upsert}
use omarchy_harbormaster.Storage.Transaction.Granted.{register-ok}
use omarchy_harbormaster.Storage.Soundness.Applying.{apply_new-Left}
use omarchy_harbormaster.Storage.Soundness.Facts.{rival_append}
use omarchy_harbormaster.Storage.Soundness.Meeting.{again, anew, apply-Met}
use omarchy_harbormaster.Storage.Soundness.History.{
  Step, request, restart, executed, failed, done, reopened, run, step,
}

module _ {Text : Type 0} where
  abbrev pub Grows : Database Text → Database Text → Type 0
  Grows db after = (more : List (FactRow Text)) × (after.facts ≡ db.facts ++ more)

  unchanged : (db after : Database Text) → after.facts ≡ db.facts → Grows db after
  unchanged db after e = ([], e ∙ sym (append_nil db.facts))

  invalidate_generations-facts :
      (db : Database Text) {after : Database Text}
      → invalidate_generations none db ≡ ok after
      → after.facts ≡ db.facts
  unfolding invalidate_generations Retirement.retire
  invalidate_generations-facts db h = ground arith

  reopened-Grows : (db : Database Text) → Grows db (reopened (invalidate_generations none db) db)
  reopened-Grows db = elim (Result-cases (invalidate_generations none db)) [
    | inl (e, h) ↦ subst (λ m. Grows db (reopened m db)) (sym h) (unchanged db db refl)
    | inr (after, h) ↦
        subst (λ m. Grows db (reopened m db)) (sym h)
          (unchanged db after (invalidate_generations-facts db h))
  ]

  module _ ⦃t : Eq Text⦄ (json : Json Text) where
    dispatch-Grows :
        (fresh : Option ProducerGeneration) (r : Request) (db : Database Text)
        {out : Response × Database Text}
        → dispatch json fresh r db ≡ ok out
        → Grows db out.1
    unfolding dispatch upsert update_obligations Retirement.retire
    dispatch-Grows fresh (Request.context fact) db {out} h =
        let (read, e, h') = bind_ok (Context.context json db fact) _ h in
        unchanged db out.1 (ap (λ o. o.1.facts) (sym (ok_injective h')))
    dispatch-Grows fresh (Request.apply set) db {out} h = elim (apply-Met json set db h) [
      | again row found text e ↦ unchanged db out.1 (ap (λ o. o.1.facts) e)
      | anew identity text absent new ↦
          (fact_row set identity _ ∷ [], (apply_new-Left set identity db new).facts)
    ]
    dispatch-Grows fresh (Request.reconcile r) db {out} h =
        let did = reconcile-Reconciled r fresh db h in
        let (frame, _) = projection-ok _ _ _ did.projected in
        unchanged db out.1 (ap (λ o. o.1.facts) did.done ∙ ap (λ d. d.facts) frame)
    dispatch-Grows fresh (Request.retire_producer r) db {out} h =
        let did = retire-Retired r db h in unchanged db out.1 (ap (λ o. o.1.facts) did.done)
    dispatch-Grows fresh (Request.register r) db {out} h =
        let (_, _, e) = register-ok r fresh db h in unchanged db out.1 (ap (λ o. o.1.facts) e)

    step-Grows : (s : Step) (db : Database Text) → Grows db (step json s db)
    unfolding step
    step-Grows restart db = reopened-Grows db
    step-Grows (request fresh r) db = elim (executed json fresh r db) [
      | failed e same ↦ unchanged db (execute json fresh r db).1 (ap (λ o. o.1.facts) same)
      | done response after valid did same ↦
          let (more, grown) = dispatch-Grows fresh r db did in
          (more, ap (λ o. o.1.facts) same ∙ grown)
    ]

    -- One table leads to another by requests of the reducer path, by restarts, and by changes of which
    -- nothing is known but that they remove no fact. Retention and the restoring of a backup do.
    pub data Keeps (db : Database Text) : Database Text → Type 0 where
      here : Keeps db db
      by_step : {mid : Database Text} (s : Step) → Keeps db mid → Keeps db (step json s mid)
      by_other : {mid after : Database Text} → Grows mid after → Keeps db mid → Keeps db after

    pub grown_stored :
        (fact : EventEnvelope) (db after : Database Text) {row : FactRow Text}
        → Grows db after
        → rival fact db.facts ≡ some row
        → rival fact after.facts ≡ some row
    grown_stored fact db after {row} (more, grown) h =
        subst (λ f. rival fact f ≡ some row) (sym grown) (rival_append fact db.facts more h)

    pub step_stored :
        (fact : EventEnvelope) (s : Step) (db : Database Text) {row : FactRow Text}
        → rival fact db.facts ≡ some row
        → rival fact (step json s db).facts ≡ some row
    step_stored fact s db h = grown_stored fact db (step json s db) (step-Grows s db) h

    -- What a search has found it finds again while no fact is removed.
    pub kept_stored :
        (fact : EventEnvelope) (db after : Database Text) {row : FactRow Text}
        → Keeps db after
        → rival fact db.facts ≡ some row
        → rival fact after.facts ≡ some row
    kept_stored fact db after here h = h
    kept_stored fact db after (by_step {mid = mid} s before) h =
        step_stored fact s mid (kept_stored fact db mid before h)
    kept_stored fact db after (by_other {mid = mid} grows before) h =
        grown_stored fact mid after grows (kept_stored fact db mid before h)

    -- Steps of the reducer path alone.
    pub run_from-Keeps :
        (start db : Database Text) (steps : List Step)
        → Keeps start db
        → Keeps start (run json steps db)
    unfolding run
    run_from-Keeps start db [] k = k
    run_from-Keeps start db (s ∷ steps) k =
        run_from-Keeps start (step json s db) steps (by_step s k)
