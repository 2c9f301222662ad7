-- ===== src/Storage/Soundness/Facts.antt =====
-- The facts only grow, and each is found again by its keys.
use omarchy_harbormaster.Common.{
  ◌≤◌, ◌≡◌, inl, inr, subst, true, false, List, [], ◌∷◌, ◌++◌, none, some, nat_eq, All, All-append,
  All-weaken, arith, Bool-cases,
}
use omarchy_harbormaster.Protocol.Identity.{ident_eq, Revision}
use omarchy_harbormaster.Protocol.Event.{EventEnvelope, envelope_eq}
use omarchy_harbormaster.Storage.Types.{ReducerWrite}
use omarchy_harbormaster.Storage.Database.{FactRow, rival, rivals}
use omarchy_harbormaster.Storage.Reduction.{fact_row}
use omarchy_harbormaster.Storage.Soundness.{Apart, IsDated, clash}

module _ {Text : Type 0} where
  pub rival_append :
      (fact : EventEnvelope) (rows more : List (FactRow Text)) {row : FactRow Text}
      → rival fact rows ≡ some row
      → rival fact (rows ++ more) ≡ some row
  unfolding rival
  rival_append fact [] more h = cc
  rival_append fact (r ∷ rows) more {row} h =
      ground (arith, rival_append fact rows more {row = row})

  pub rival_last :
      (fact : EventEnvelope) (rows : List (FactRow Text)) (row : FactRow Text)
      → rival fact rows ≡ none
      → rivals fact row ≡ true
      → rival fact (rows ++ row ∷ []) ≡ some row
  unfolding rival
  rival_last fact [] row h k = ground arith
  rival_last fact (r ∷ rows) row h k = ground (arith, rival_last fact rows row)

  pub rivals_self :
      (set : ReducerWrite) (identity : Text) (next : Revision)
      → rivals set.fact (fact_row set identity next) ≡ true
  rivals_self set identity next = ground arith

  unrivalled :
      (set : ReducerWrite) (identity : Text) (next : Revision) (rows : List (FactRow Text))
      → rival set.fact rows ≡ none
      → All (λ row. clash row (fact_row set identity next) ≡ false) rows
  unfolding rival
  unrivalled set identity next [] h = tt
  unrivalled set identity next (row ∷ rows) h =
      (ground arith, unrivalled set identity next rows (ground arith))

  pub Apart-append :
      (rows : List (FactRow Text)) (row : FactRow Text)
      → Apart rows
      → All (λ other. clash other row ≡ false) rows
      → Apart (rows ++ row ∷ [])
  Apart-append [] row a h = (tt, tt)
  Apart-append (r ∷ rows) row a h = (
    All-append (λ other. clash r other ≡ false) rows (row ∷ []) a.0 (h.0, tt),
    Apart-append rows row a.1 h.1,
  )

  pub Apart-fact_row :
      (set : ReducerWrite) (identity : Text) (next : Revision) (rows : List (FactRow Text))
      → Apart rows
      → rival set.fact rows ≡ none
      → Apart (rows ++ fact_row set identity next ∷ [])
  Apart-fact_row set identity next rows a h =
      Apart-append rows (fact_row set identity next) a (unrivalled set identity next rows h)

  pub IsDated-later :
      (r s : Revision) (rows : List (FactRow Text))
      → r ≤ s
      → All (IsDated r) rows
      → All (IsDated s) rows
  IsDated-later r s rows le = All-weaken (IsDated r) (IsDated s) rows (λ row h. omega arith)

  -- The row that a search finds has what all rows have.
  pub rival-All {ℓ} :
      (P : FactRow Text → Type ℓ) (fact : EventEnvelope) (rows : List (FactRow Text))
      {row : FactRow Text}
      → All P rows
      → rival fact rows ≡ some row
      → P row
  unfolding rival
  rival-All P fact [] a h = cc
  rival-All P fact (r ∷ rows) {row} a h = elim (Bool-cases (rivals fact r)) [
    | inl hit ↦ let same : r ≡ row = ground arith in subst P same a.0
    | inr miss ↦ rival-All P fact rows a.1 (ground arith)
  ]

  pub rival_found :
      (fact : EventEnvelope) (rows : List (FactRow Text)) {row : FactRow Text}
      → rival fact rows ≡ some row
      → rivals fact row ≡ true
  unfolding rival
  rival_found fact [] h = cc
  rival_found fact (r ∷ rows) {row} h = ground (arith, rival_found fact rows {row = row})
