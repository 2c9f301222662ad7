-- ===== src/Storage/Revisions.antt =====
-- Optimistic concurrency of crates/harbormaster/src/storage: a write names the revision it has read.
use omarchy_harbormaster.Common.{
  ◌+◌, ◌≤◌, ◌≡◌, ◌⊎◌, inl, inr, refl, sym, ap, subst, ◌∙◌, List, [], ◌∷◌, Option, none, some, Eq,
  ok, bind_ok, ok_injective, Result-cases, arith,
}
use omarchy_harbormaster.Protocol.Identity.{ProducerGeneration, Revision, checked_next}
use omarchy_harbormaster.Storage.Types.{Request, Response}
use omarchy_harbormaster.Storage.Database.{Database, Json}
use omarchy_harbormaster.Storage.Context
use omarchy_harbormaster.Storage.Engine.{dispatch, execute, invalidate_generations}
use omarchy_harbormaster.Storage.Reduction.Frames.{require_revision-ok}
use omarchy_harbormaster.Storage.Reconciling.Steps.{reconcile-Reconciled, retire-Retired}
use omarchy_harbormaster.Storage.Transaction.Granted.{register-ok}
use omarchy_harbormaster.Storage.Soundness.Applying.{apply_new-Left}
use omarchy_harbormaster.Storage.Soundness.Meeting.{again, anew, apply-Met}
use omarchy_harbormaster.Storage.Soundness.History.{
  Step, request, restart, done, executed, failed, reopened, run, step,
}

-- The revision that a write was prepared against.
unfoldable pub expected : Request → Option Revision
expected (Request.context fact) = none
expected (Request.apply set) = some set.expected_revision
expected (Request.reconcile r) = some r.registration.expected_revision
expected (Request.retire_producer r) = some r.expected_revision
expected (Request.register r) = some r.expected_revision

module _ {Text : Type 0} where
  -- The tables are as before, or one revision later by a write that had read the ones before.
  pub Advances : Request → Database Text → Database Text → Type 0
  Advances r db after =
      (after ≡ db) ⊎ ((after.revision ≡ db.revision + 1) × (expected r ≡ some db.revision))

  stays : (r : Request) (db : Database Text) → Advances r db db
  unfolding Advances
  stays r db = inl refl

  Advances-le :
      (r : Request) (db after : Database Text) → Advances r db after → db.revision ≤ after.revision
  unfolding Advances
  Advances-le r db after (inl same) = omega (arith, ap (λ (d : Database Text). d.revision) same)
  Advances-le r db after (inr (later, read)) = omega (arith, later)

  invalidate_generations-le :
      (db : Database Text) {after : Database Text}
      → invalidate_generations none db ≡ ok after
      → db.revision ≤ after.revision
  unfolding invalidate_generations checked_next
  invalidate_generations-le db h = ground arith

  reopened_later :
      (db : Database Text) → db.revision ≤ (reopened (invalidate_generations none db) db).revision
  reopened_later db = elim (Result-cases (invalidate_generations none db)) [
    | inl (e, h) ↦ subst (λ m. db.revision ≤ (reopened m db).revision) (sym h) (omega arith)
    | inr (after, h) ↦
        subst (λ m. db.revision ≤ (reopened m db).revision) (sym h) (invalidate_generations-le db h)
  ]

  module _ ⦃t : Eq Text⦄ (json : Json Text) where
    dispatch-Advances :
        (fresh : Option ProducerGeneration) (r : Request) (db : Database Text)
        {out : Response × Database Text}
        → dispatch json fresh r db ≡ ok out
        → Advances r db out.1
    unfolding dispatch Advances expected
    dispatch-Advances fresh (Request.context fact) db h =
        let (read, e, h') = bind_ok (Context.context json db fact) _ h in
        inl (ap (λ o. o.1) (sym (ok_injective h')))
    dispatch-Advances fresh (Request.apply set) db h = elim (apply-Met json set db h) [
      | again row found text e ↦ inl (ap (λ o. o.1) e)
      | anew identity text absent new ↦
          let left = apply_new-Left set identity db new in
          inr (left.revision, ap some left.expected)
    ]
    dispatch-Advances fresh (Request.reconcile r) db h =
        let did = reconcile-Reconciled r fresh db h in
        let (same, later) = require_revision-ok db _ did.revised in
        inr (ap (λ o. o.1.revision) did.done ∙ later, ap some (sym same))
    dispatch-Advances fresh (Request.retire_producer r) db h =
        let did = retire-Retired r db h in
        let (same, later) = require_revision-ok db _ did.revised in
        inr (ap (λ o. o.1.revision) did.done ∙ later, ap some (sym same))
    dispatch-Advances fresh (Request.register r) db h =
        let (granted, grant, e) = register-ok r fresh db h in
        let (same, later) = require_revision-ok db _ grant.revised in
        inr (ap (λ o. o.1.revision) e ∙ later, ap some (sym same))

    pub execute-Advances :
        (fresh : Option ProducerGeneration) (r : Request) (db : Database Text)
        → Advances r db (execute json fresh r db).1
    execute-Advances fresh r db = elim (executed json fresh r db) [
      | failed e same ↦ subst (λ o. Advances r db o.1) (sym same) (stays r db)
      | done response after valid did same ↦
          subst (λ o. Advances r db o.1) (sym same) (dispatch-Advances fresh r db did)
    ]

    -- The revision never goes back.
    step_later : (s : Step) (db : Database Text) → db.revision ≤ (step json s db).revision
    unfolding step
    step_later (request fresh r) db = Advances-le r db _ (execute-Advances fresh r db)
    step_later restart db = reopened_later db

    run_later :
        (steps : List Step) (db : Database Text) → db.revision ≤ (run json steps db).revision
    unfolding run
    run_later [] db = omega arith
    run_later (s ∷ steps) db = omega (arith, step_later s db, run_later steps (step json s db))

    -- Of two writes prepared against the same revision, whatever requests of the reducer path and
    -- restarts come between them, at most one changes the tables.
    pub one_writer :
        (f g : Option ProducerGeneration) (first second : Request) (db : Database Text)
        (between : List Step)
        → expected first ≡ expected second
        → ((execute json f first db).1 ≡ db)
          ⊎ ((execute json g second (run json between (execute json f first db).1)).1
              ≡ run json between (execute json f first db).1)
    unfolding Advances
    one_writer f g first second db between same =
        let after : Database Text = (execute json f first db).1 in
        let now : Database Text = run json between after in
        ground (
          arith,
          execute-Advances f first db,
          execute-Advances g second now,
          run_later between after,
        )
