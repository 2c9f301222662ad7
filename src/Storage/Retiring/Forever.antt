-- ===== src/Storage/Retiring/Forever.antt =====
-- Retirement against every later request and restart: crates/harbormaster/src/storage.
use omarchy_harbormaster.Common.{
  ◌≡◌, ◌≢◌, ◌⊎◌, inl, inr, sym, ap, subst, ◌∙◌, Bool, true, false, not, List, [], ◌∷◌, Option, none,
  some, Eq, ok, arith, All, Result-cases, bind_ok, ok_injective,
}
use omarchy_harbormaster.Common.BTreeMap.{get}
use omarchy_harbormaster.Protocol.Identity.{ident_eq, ProducerGeneration, ProducerId, Revision}
use omarchy_harbormaster.Storage.Types.{ProducerRetirement, ReducerWrite, Request, Response}
use omarchy_harbormaster.Storage.Database.{Database, Json, producer}
use omarchy_harbormaster.Storage.Context
use omarchy_harbormaster.Storage.Engine.{dispatch, execute, invalidate_generations}
use omarchy_harbormaster.Storage.Reduction.Applied.{apply_new-Applied}
use omarchy_harbormaster.Storage.Reduction.Frames.{projection-ok}
use omarchy_harbormaster.Storage.Reduction.Scope.{scope-Live}
use omarchy_harbormaster.Storage.Reconciling.{update_obligations}
use omarchy_harbormaster.Storage.Reconciling.Steps.{reconcile-Reconciled, retire-Retired}
use omarchy_harbormaster.Storage.Retirement
use omarchy_harbormaster.Storage.Retirement.{deactivate}
use omarchy_harbormaster.Storage.Reconciling
use omarchy_harbormaster.Storage.Transaction.Granted.{register-ok}
use omarchy_harbormaster.Storage.Soundness.Applying.{apply_new-Left}
use omarchy_harbormaster.Storage.Soundness.Meeting.{again, anew, apply-Met}
use omarchy_harbormaster.Storage.Soundness.History.{
  Step, request, restart, done, executed, execute-ok, failed, reopened, run, step,
}
use omarchy_harbormaster.Storage.Retiring.{
  IsGone, deactivate-IsGone, deactivated, update_producer-IsGone, upsert-IsGone,
}

true≢false : ◌≡◌ {A = Bool} true false → ⊥
true≢false h = cc

-- The step does not draw the generation `g` again.
abbrev pub DrawsOther : ProducerGeneration → Step → Type 0
DrawsOther g (request fresh r) = fresh ≢ some g
DrawsOther g restart = Unit

module _ {Text : Type 0} ⦃t : Eq Text⦄ (json : Json Text) (id : ProducerId)
    (g : ProducerGeneration) where
  dispatch-IsGone :
      (fresh : Option ProducerGeneration) (r : Request) (db : Database Text)
      {out : Response × Database Text}
      → fresh ≢ some g
      → IsGone id g db.producers
      → dispatch json fresh r db ≡ ok out
      → IsGone id g out.1.producers
  unfolding dispatch Retirement.retire update_obligations
  dispatch-IsGone fresh (Request.context fact) db differs gone h =
      let (read, e, h') = bind_ok (Context.context json db fact) _ h in
      subst (λ o. IsGone id g o.1.producers) (ok_injective h') gone
  dispatch-IsGone fresh (Request.apply set) db differs gone h = elim (apply-Met json set db h) [
    | again row found text e ↦ subst (λ o. IsGone id g o.1.producers) (sym e) gone
    | anew identity text absent new ↦
        let left = apply_new-Left set identity db new in
        subst (IsGone id g) (sym left.producers) (
          update_producer-IsGone id g set.fact (not set.effects.reconciliation_required) db left.due
            gone)
  ]
  dispatch-IsGone fresh (Request.reconcile r) db differs gone h =
      let did = reconcile-Reconciled r fresh db h in
      let (frame, _) = projection-ok _ _ _ did.projected in
      subst (IsGone id g) (sym (ap (λ o. o.1.producers) did.done ∙ ap (λ d. d.producers) frame)) (
        upsert-IsGone id g did.granted.0 r.registration _ _ db
          (λ e. differs (did.grant.drawn ∙ ap some e)) gone)
  dispatch-IsGone fresh (Request.retire_producer r) db differs gone h =
      let did = retire-Retired r db h in
      subst (λ o. IsGone id g o.1.producers) (sym did.done)
        (deactivate-IsGone (some (did.found.producer_id, did.found.generation)) id g db.producers
          gone)
  dispatch-IsGone fresh (Request.register r) db differs gone h =
      let (granted, grant, e) = register-ok r fresh db h in
      subst (λ o. IsGone id g o.1.producers) (sym e)
        (upsert-IsGone id g granted.0 r true false db (λ e'. differs (grant.drawn ∙ ap some e'))
          gone)

  restarted :
      (db : Database Text) {after : Database Text}
      → invalidate_generations none db ≡ ok after
      → (after.producers ≡ db.producers) ⊎ (after.producers ≡ deactivate none db.producers)
  unfolding invalidate_generations Retirement.retire
  restarted db h = ground arith

  restarted-IsGone :
      (db : Database Text) {after : Database Text}
      → invalidate_generations none db ≡ ok after
      → IsGone id g db.producers
      → IsGone id g after.producers
  restarted-IsGone db h gone = elim (restarted db h) [
    | inl same ↦ subst (IsGone id g) (sym same) gone
    | inr off ↦ subst (IsGone id g) (sym off) (deactivate-IsGone none id g db.producers gone)
  ]

  reopened-IsGone :
      (db : Database Text)
      → IsGone id g db.producers
      → IsGone id g (reopened (invalidate_generations none db) db).producers
  reopened-IsGone db gone = elim (Result-cases (invalidate_generations none db)) [
    | inl (e, h) ↦ subst (λ m. IsGone id g (reopened m db).producers) (sym h) gone
    | inr (after, h) ↦
        subst (λ m. IsGone id g (reopened m db).producers) (sym h) (restarted-IsGone db h gone)
  ]

  step-IsGone :
      (s : Step) (db : Database Text)
      → DrawsOther g s
      → IsGone id g db.producers
      → IsGone id g (step json s db).producers
  unfolding step
  step-IsGone restart db differs gone = reopened-IsGone db gone
  step-IsGone (request fresh r) db differs gone = elim (executed json fresh r db) [
    | failed e same ↦ subst (λ o. IsGone id g o.1.producers) (sym same) gone
    | done response after valid did same ↦
        subst (λ o. IsGone id g o.1.producers) (sym same)
          (dispatch-IsGone fresh r db differs gone did)
  ]

  run-IsGone :
      (steps : List Step) (db : Database Text)
      → All (DrawsOther g) steps
      → IsGone id g db.producers
      → IsGone id g (run json steps db).producers
  unfolding run
  run-IsGone [] db differs gone = gone
  run-IsGone (s ∷ steps) db differs gone =
      run-IsGone steps (step json s db) differs.1 (step-IsGone s db differs.0 gone)

module _ {Text : Type 0} ⦃t : Eq Text⦄ (json : Json Text) where
  retired-IsGone :
      (retirement : ProducerRetirement) (db : Database Text) {out : Response × Database Text}
      → Reconciling.retire retirement db ≡ ok out
      → IsGone retirement.producer_id retirement.generation out.1.producers
  unfolding Retirement.retire producer
  retired-IsGone retirement db h =
      let did = retire-Retired retirement db h in
      let named : did.found.producer_id ≡ retirement.producer_id = ground (arith, did.known) in
      let aged : did.found.generation ≡ retirement.generation = ground (arith, did.current) in
      let who : some (did.found.producer_id, did.found.generation)
          ≡ some (retirement.producer_id, retirement.generation) =
        cc (named, aged) in
      subst (λ o. IsGone retirement.producer_id retirement.generation o.1.producers) (sym did.done)
        (subst
          (λ w. IsGone retirement.producer_id retirement.generation (deactivate w db.producers))
          (sym who) (deactivated retirement.producer_id retirement.generation db.producers))

  -- After a generation is retired, and as long as entropy does not draw it again, no event of it is
  -- committed anew, whatever requests of the reducer path and restarts come between: an answer that
  -- is not an error is the receipt of an event that was committed before, and changes nothing.
  pub retired_forever :
      (retirement : ProducerRetirement) (set : ReducerWrite)
      (fresh later : Option ProducerGeneration) (db after left : Database Text) (r s : Revision)
      (b : Bool) (steps : List Step)
      → execute json fresh (Request.retire_producer retirement) db
        ≡ (ok (Response.retired r), after)
      → All (DrawsOther retirement.generation) steps
      → set.fact.producer_id ≡ retirement.producer_id
      → set.fact.generation ≡ retirement.generation
      → execute json later (Request.apply set) (run json steps after)
        ≡ (ok (Response.committed s b), left)
      → (b ≡ true) × (left ≡ run json steps after)
  unfolding dispatch
  retired_forever retirement set fresh later db after left r s b steps h draws same_id same_gen k =
      let (_, did) = execute-ok json fresh (Request.retire_producer retirement) db after _ h in
      let now : Database Text = run json steps after in
      let gone =
        run-IsGone json retirement.producer_id retirement.generation steps after draws
          (retired-IsGone retirement db did) in
      let (_, applied) = execute-ok json later (Request.apply set) now left _ k in
      elim (apply-Met json set now applied) [
        | again row found text e ↦ (cc, cc)
        | anew identity text absent new ↦
            let (row, found, live) =
              scope-Live set.fact now (apply_new-Applied set identity now new).scoped in
            absurd (
              true≢false (
                sym live.active
                ∙ gone row (ap (λ a. get a now.producers) (sym same_id) ∙ found)
                    (live.generation ∙ same_gen)))
      ]
