-- ===== src/Storage/Retiring.antt =====
-- A generation that crates/harbormaster/src/storage has retired accepts no event again.
pub mod Forever
mod Tests
use omarchy_harbormaster.Common.{
  ℕ, ◌≡◌, ◌≢◌, ◌⊎◌, inl, inr, refl, sym, ap, subst, ◌∙◌, Bool, true, false, not, ◌&&◌, ◌||◌, List,
  [], ◌∷◌, Option, none, some, Eq, ◌==◌, Result, ok, err, arith, All, Bool-cases, Option-cases,
  Result-cases, bind_ok, ok_injective, if◌then◌else◌,
}
use mathlib.Core.Option
use omarchy_harbormaster.Common.BTreeMap.{BTreeMap, get, get-insert, insert}
use omarchy_harbormaster.Protocol.Identity.{ident_eq, ProducerGeneration, ProducerId, Revision}
use omarchy_harbormaster.Protocol.Event.{EventEnvelope}
use omarchy_harbormaster.Storage.{StorageError}
use omarchy_harbormaster.Storage.Types.{
  ProducerRetirement, ReducerWrite, Registration, Request, Response,
}
use omarchy_harbormaster.Storage.Database.{Database, Json, ProducerRow, producer}
use omarchy_harbormaster.Storage.Context
use omarchy_harbormaster.Storage.Engine.{dispatch, execute, invalidate_generations, validate}
use omarchy_harbormaster.Storage.Reduction.{moved_on, scope, update_producer}
use omarchy_harbormaster.Storage.Reduction.Frames.{projection-ok}
use omarchy_harbormaster.Storage.Reduction.Scope.{IsLive, scope-Live}
use omarchy_harbormaster.Storage.Reconciling.{update_obligations}
use omarchy_harbormaster.Storage.Reconciling.Steps.{reconcile-Reconciled, retire-Retired}
use omarchy_harbormaster.Storage.Retirement
use omarchy_harbormaster.Storage.Retirement.{Observer, deactivate, selects}
use omarchy_harbormaster.Storage.Transaction.{upsert, upserted}
use omarchy_harbormaster.Storage.Transaction.Granted.{Granted, register-ok}
use omarchy_harbormaster.Storage.Soundness.Applying.{apply_new-Left}
use omarchy_harbormaster.Storage.Soundness.Meeting.{again, anew, apply-Met}
use omarchy_harbormaster.Storage.Soundness.History.{
  Step, request, restart, done, executed, execute-ok, failed, reopened, run, step,
}

-- The stored row of `id`, while it is of generation `g`, takes no events.
abbrev pub IsGone : ProducerId → ProducerGeneration → BTreeMap ProducerId ProducerRow → Type 0
IsGone id g producers =
    (row : ProducerRow) → get id producers ≡ some row → row.generation ≡ g → row.active ≡ false

deactivate-row :
    (who : Observer) (id : ProducerId) (producers : BTreeMap ProducerId ProducerRow)
    (q : ProducerRow)
    → get id (deactivate who producers) ≡ some q
    → (p : ProducerRow) × (get id producers ≡ some p)
      × (q.generation ≡ p.generation)
      × (p.active ≡ false → q.active ≡ false)
unfolding deactivate get
deactivate-row who id [] q h = cc
deactivate-row who id ((a, p) ∷ producers) q h = elim (Bool-cases (a == id)) [
  | inl same ↦ (p, ground arith, ground arith, ground arith)
  | inr other ↦
      let (p', found, g, kept) = deactivate-row who id producers q (ground arith) in
      (p', ground arith, g, kept)
]

pub deactivate-IsGone :
    (who : Observer) (id : ProducerId) (g : ProducerGeneration)
    (producers : BTreeMap ProducerId ProducerRow)
    → IsGone id g producers
    → IsGone id g (deactivate who producers)
deactivate-IsGone who id g producers gone q found same =
    let (p, found', generation, kept) = deactivate-row who id producers q found in
    kept (gone p found' (sym generation ∙ same))

-- The retirement of the generation itself.
pub deactivated :
    (id : ProducerId) (g : ProducerGeneration) (producers : BTreeMap ProducerId ProducerRow)
    → IsGone id g (deactivate (some (id, g)) producers)
unfolding deactivate selects get
deactivated id g [] q h same = cc
deactivated id g ((a, p) ∷ producers) q h same = ground (arith, deactivated id g producers q)

pub update_producer-IsGone :
    {Text : Type 0} (id : ProducerId) (g : ProducerGeneration) (fact : EventEnvelope)
    (reconciled : Bool) (db : Database Text)
    → scope fact (producer db fact.producer_id) ≡ ok tt
    → IsGone id g db.producers
    → IsGone id g (update_producer fact reconciled db.producers)
unfolding update_producer moved_on
update_producer-IsGone id g fact reconciled db due gone q found same =
    let (row, known, live) = scope-Live fact db due in
    let moved : ProducerRow = moved_on fact reconciled row in
    ground (arith, get-insert id fact.producer_id moved db.producers, gone row, gone q)

pub upsert-IsGone :
    {Text : Type 0} (id : ProducerId) (g fresh : ProducerGeneration) (registration : Registration)
    (active reconciled : Bool) (db : Database Text)
    → fresh ≢ g
    → IsGone id g db.producers
    → IsGone id g (upsert registration fresh active reconciled db).producers
unfolding upsert upserted
upsert-IsGone id g fresh registration active reconciled db differs gone q found same =
    let row : ProducerRow =
      upserted registration fresh active reconciled (get registration.producer_id db.producers) in
    ground (arith, get-insert id registration.producer_id row db.producers, gone q)
