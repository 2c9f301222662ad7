-- ===== src/Storage/Soundness/Producers.antt =====
-- At most one producer observes a run: what a write to the producers keeps of it.
use omarchy_harbormaster.Common.{
  ◌≡◌, refl, sym, true, false, [], ◌∷◌, some, ◌==◌, arith, Bool-cases, inl, inr, ◌∙◌,
}
use omarchy_harbormaster.Common.BTreeMap.{BTreeMap, get, insert, get-insert}
use omarchy_harbormaster.Protocol.Identity.{ident_eq, ProducerId, RunId}
use omarchy_harbormaster.Storage.Database.{ProducerRow}
use omarchy_harbormaster.Storage.Retirement.{Observer, deactivate}
use omarchy_harbormaster.Storage.Transaction.{active_rival}
use omarchy_harbormaster.Storage.Soundness.{OneActive}

-- Every producer of `after` was one of `before` on the same run, and none has become active.
pub Weakens : BTreeMap ProducerId ProducerRow → BTreeMap ProducerId ProducerRow → Type 0
Weakens before after =
    (a : ProducerId) (q : ProducerRow)
    → get a after ≡ some q
    → (p : ProducerRow) × (get a before ≡ some p)
      × (q.active ≡ true → p.active ≡ true)
      × (q.run ≡ p.run)

pub OneActive-weakened :
    (before after : BTreeMap ProducerId ProducerRow)
    → Weakens before after
    → OneActive before
    → OneActive after
unfolding Weakens
OneActive-weakened before after weak one a b p q ga gb pa qa run =
    let (p', ga', pa', pr) = weak a p ga in
    let (q', gb', qa', qr) = weak b q gb in
    one a b p' q' ga' gb' (pa' pa) (qa' qa) (sym pr ∙ run ∙ qr)

pub deactivate-Weakens :
    (who : Observer) (producers : BTreeMap ProducerId ProducerRow)
    → Weakens producers (deactivate who producers)
unfolding Weakens deactivate get
deactivate-Weakens who [] a q h = cc
deactivate-Weakens who ((id, p) ∷ producers) a q h = elim (Bool-cases (id == a)) [
  | inl same ↦ (p, ground arith, ground arith, ground arith)
  | inr other ↦
      let (p', found, kept, run) = deactivate-Weakens who producers a q (ground arith) in
      (p', ground arith, kept, run)
]

pub get-active_rival :
    (run : RunId) (id : ProducerId) (producers : BTreeMap ProducerId ProducerRow)
    (other : ProducerId) (p : ProducerRow)
    → active_rival run id producers ≡ false
    → get other producers ≡ some p
    → p.active ≡ true
    → p.run ≡ run
    → other ≡ id
unfolding active_rival get
get-active_rival run id [] other p h g a r = cc
get-active_rival run id ((o, row) ∷ producers) other p h g a r =
    ground (arith, get-active_rival run id producers other p)

pub insert-Weakens :
    (id : ProducerId) (p q : ProducerRow) (producers : BTreeMap ProducerId ProducerRow)
    → get id producers ≡ some p
    → (q.active ≡ true → p.active ≡ true)
    → q.run ≡ p.run
    → Weakens producers (insert id q producers)
unfolding Weakens
insert-Weakens id p q producers g active run a r h = elim (Bool-cases (id == a)) [
  | inl same ↦ (
    p,
    ground arith,
    ground (arith, get-insert a id q producers),
    ground (arith, get-insert a id q producers),
  )
  | inr other ↦ (r, ground (arith, get-insert a id q producers), λ x. x, refl)
]

-- A registration's run is free of other observers, so that its producer may become active.
pub insert-OneActive :
    (id : ProducerId) (q : ProducerRow) (producers : BTreeMap ProducerId ProducerRow)
    → active_rival q.run id producers ≡ false
    → OneActive producers
    → OneActive (insert id q producers)
insert-OneActive id q producers free one a b p r ga gb pa ra run = ground (
  arith,
  get-insert a id q producers,
  get-insert b id q producers,
  get-active_rival q.run id producers a p free,
  get-active_rival q.run id producers b r free,
  one a b p r,
)
