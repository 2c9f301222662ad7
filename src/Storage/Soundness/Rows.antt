-- ===== src/Storage/Soundness/Rows.antt =====
-- The rows of the projections, the tombstones and the obligations: what each write keeps of them.
use omarchy_harbormaster.Common.{
  suc, ◌≡◌, refl, sym, ap, subst, Bool, true, false, List, [], ◌∷◌, Option, none, some, ◌==◌,
  option_eq, arith, All, if◌then◌else◌, is_some_and, is_none, length, Bool-cases, inl, inr,
}
use mathlib.Core.Option
use omarchy_harbormaster.Common.BTreeMap.{BTreeMap, insert, len}
use omarchy_harbormaster.Protocol.Identity.{
  ident_eq, ProducerId, ProducerGeneration, RunId, Revision,
}
use omarchy_harbormaster.Domain.Types.{TombstoneEvidence, TurnKey, RunProjection, turn_eq}
use omarchy_harbormaster.Storage.Types.{
  Reconciliation, ReconciliationBaseline, ReducerWrite, unavailable, verified,
}
use omarchy_harbormaster.Storage.Database.{AttentionRow, ProducerRow, ProjectionRow}
use omarchy_harbormaster.Storage.Retirement.{Observer, deactivate, degrade, degraded}
use omarchy_harbormaster.Storage.Reduction.{projected, tombstone_row}
use omarchy_harbormaster.Storage.Reconciling.{baseline_of, continue_turn}
use omarchy_harbormaster.Storage.Validation.{
  apply_invalid, baseline_invalid, turn_invalid, tombstone_invalid,
}
use omarchy_harbormaster.Storage.Soundness.{HasEnded, IsScoped, owned, free}

pub insert-All {ℓ} :
    (P : RunId × ProjectionRow → Type ℓ) (run : RunId) (row : ProjectionRow)
    (rows : BTreeMap RunId ProjectionRow)
    → P (run, row)
    → All P rows
    → All P (insert run row rows)
unfolding insert
insert-All P run row [] h a = (h, tt)
insert-All P run row ((r, w) ∷ rows) h a = elim (Bool-cases (r == run)) [
  | inl same ↦
      subst (λ (t : Bool). All P (if t then (run, row) ∷ rows else (r, w) ∷ insert run row rows))
        (sym same) (h, a.1)
  | inr other ↦
      subst (λ (t : Bool). All P (if t then (run, row) ∷ rows else (r, w) ∷ insert run row rows))
        (sym other) (a.0, insert-All P run row rows h a.1)
]

degraded-IsScoped :
    (run : RunId) (row : ProjectionRow) → IsScoped (run, row) → IsScoped (run, degraded row)
degraded-IsScoped run row (owned p g t) = owned p g t
degraded-IsScoped run row (free p g) = free p g

pub degrade-IsScoped :
    (who : Observer) (legacy : Bool) (producers : BTreeMap ProducerId ProducerRow)
    (rows : BTreeMap RunId ProjectionRow)
    → All IsScoped rows
    → All IsScoped (degrade who legacy producers rows)
unfolding degrade
degrade-IsScoped who legacy producers [] a = tt
degrade-IsScoped who legacy producers ((run, row) ∷ rows) a =
    (choose _ (degraded-IsScoped run row a.0) a.0, degrade-IsScoped who legacy producers rows a.1)
  where
    choose :
        (b : Bool)
        → IsScoped (run, degraded row)
        → IsScoped (run, row)
        → IsScoped (run, (if b then degraded row else row))
    choose true x y = x
    choose false x y = y

pub projected-IsScoped :
    (shown : RunProjection) (current : Option TurnKey)
    → shown.turn_id ≡ Option.map (λ (key : TurnKey). key.turn_id) current
    → IsScoped (shown.run_id, projected shown current)
projected-IsScoped shown none h = free refl refl
projected-IsScoped shown (some key) h = owned refl refl (ap is_none h)

-- A validated reduction and a validated baseline show the turn that they store.
pub valid_turn :
    (set : ReducerWrite)
    → apply_invalid set ≡ false
    → set.effects.projection.turn_id
      ≡ Option.map (λ (key : TurnKey). key.turn_id) set.effects.current_turn
unfolding apply_invalid turn_invalid
valid_turn set h = ground arith

pub valid_baseline :
    (request : Reconciliation) (generation : ProducerGeneration) (baseline : ReconciliationBaseline)
    → baseline_invalid request baseline ≡ false
    → (baseline_of request.registration generation baseline).0.turn_id
      ≡ Option.map
          (λ (key : TurnKey). key.turn_id)
          (baseline_of request.registration generation baseline).1
unfolding baseline_invalid baseline_of
valid_baseline request generation unavailable h = refl
valid_baseline request generation (verified shown none) h = ground arith
valid_baseline request generation (verified shown (some turn)) h = ground arith

pub valid_tombstone :
    (set : ReducerWrite) (next : Revision) (item : TombstoneEvidence)
    → is_some_and set.effects.tombstone (tombstone_invalid set.fact) ≡ false
    → set.effects.tombstone ≡ some item
    → HasEnded (tombstone_row set next item)
unfolding tombstone_invalid
valid_tombstone set next item h e = ground arith

pub length-continue_turn :
    (key : Option TurnKey) (fresh : ProducerGeneration) (rows : List AttentionRow)
    → length (continue_turn key fresh rows) ≡ length rows
unfolding continue_turn
length-continue_turn none fresh rows = refl
length-continue_turn (some key) fresh [] = refl
length-continue_turn (some key) fresh (row ∷ rows) =
    ap suc (length-continue_turn (some key) fresh rows)

pub len-degrade :
    (who : Observer) (legacy : Bool) (producers : BTreeMap ProducerId ProducerRow)
    (rows : BTreeMap RunId ProjectionRow)
    → len (degrade who legacy producers rows) ≡ len rows
unfolding degrade
len-degrade who legacy producers [] = refl
len-degrade who legacy producers (entry ∷ rows) = ap suc (len-degrade who legacy producers rows)

pub len-deactivate :
    (who : Observer) (producers : BTreeMap ProducerId ProducerRow)
    → len (deactivate who producers) ≡ len producers
unfolding deactivate
len-deactivate who [] = refl
len-deactivate who (entry ∷ producers) = ap suc (len-deactivate who producers)
