-- ===== src/Storage/Retirement.antt =====
-- crates/harbormaster/src/storage/retirement.rs: an observer retires, its outcomes stay.
use omarchy_harbormaster.Common.{
  Bool, true, false, ◌&&◌, ◌||◌, [], ◌∷◌, Option, none, some, ◌==◌, option_eq, if◌then◌else◌,
  is_none,
}
use omarchy_harbormaster.Common.BTreeMap.{BTreeMap}
use omarchy_harbormaster.Protocol.Identity.{ident_eq, ProducerId, ProducerGeneration, RunId}
use omarchy_harbormaster.Domain.Types.{ObservationState, TurnState, is_terminal}
use omarchy_harbormaster.Storage.Database.{Database, ProducerRow, ProjectionRow}

-- The parameters ?1 and ?2: one observer, or every one.
abbrev pub Observer : Type 0
Observer = Option (ProducerId × ProducerGeneration)

unfoldable pub selects : Observer → ProducerId → ProducerRow → Bool
selects none id row = true
selects (some (producer, generation)) id row = id == producer && row.generation == generation

abbrev pub unscoped : ProjectionRow → Bool
unscoped row = is_none row.producer && is_none row.generation

-- The `EXISTS` of `degrade` on the projection of `run`.
unfoldable pub observed_by :
    Observer → RunId → ProjectionRow → BTreeMap ProducerId ProducerRow → Bool
observed_by who run row [] = false
observed_by who run row ((id, p) ∷ producers) =
    (p.active
      && p.run == run
      && selects who id p
      && ((row.producer == some id && row.generation == some p.generation) || unscoped row))
    || observed_by who run row producers

abbrev pub degraded : ProjectionRow → ProjectionRow
degraded row = record row {
  observation = ObservationState.stale;
  turn = if is_terminal row.turn then row.turn else TurnState.unknown;
}

-- `degrade`
unfoldable pub degrade :
    Observer
    → Bool
    → BTreeMap ProducerId ProducerRow
    → BTreeMap RunId ProjectionRow
    → BTreeMap RunId ProjectionRow
degrade who legacy producers [] = []
degrade who legacy producers ((run, row) ∷ rows) =
    (
      run,
      if (legacy && unscoped row) || observed_by who run row producers then degraded row else row,
    )
    ∷ degrade who legacy producers rows

-- `UPDATE producers SET active=0,reconciled=0 WHERE … AND active=1`
unfoldable pub deactivate :
    Observer → BTreeMap ProducerId ProducerRow → BTreeMap ProducerId ProducerRow
deactivate who [] = []
deactivate who ((id, p) ∷ producers) =
    (
      id,
      if selects who id p && p.active then record p { active = false; reconciled = false } else p,
    )
    ∷ deactivate who producers

module _ {Text : Type 0} where
  -- `one` and `all`
  unfoldable pub retire : Observer → Database Text → Database Text
  retire who db = record db {
    projections = degrade who false db.producers db.projections;
    producers = deactivate who db.producers;
  }

  -- `legacy`
  unfoldable pub retire_legacy : Database Text → Database Text
  retire_legacy db = record db { projections = degrade none true db.producers db.projections }
