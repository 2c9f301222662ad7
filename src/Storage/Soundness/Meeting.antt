-- ===== src/Storage/Soundness/Meeting.antt =====
-- The two ways in which `apply` of storage/reducer_transaction.rs commits.
use omarchy_harbormaster.Common.{
  ◌≡◌, sym, subst, true, List, Option, none, some, Eq, ok, bind_ok, ok_or, arith, Option-cases, inl,
  inr,
}
use omarchy_harbormaster.Protocol.Identity.{Revision}
use omarchy_harbormaster.Protocol.Event.{EventEnvelope}
use omarchy_harbormaster.Storage.{StorageError}
use omarchy_harbormaster.Storage.Types.{ReducerWrite, Response}
use omarchy_harbormaster.Storage.Database.{Database, FactRow, Json, rival}
use omarchy_harbormaster.Storage.Reduction.{apply, apply_new, duplicate}
use omarchy_harbormaster.Storage.Validation
use omarchy_harbormaster.Storage.Soundness.{IsCodec, IsIntact}
use omarchy_harbormaster.Storage.Soundness.Applying.{apply_new-IsIntact}

module _ {Text : Type 0} ⦃t : Eq Text⦄ where
  -- A write set whose fact is stored with the same bytes is answered from the fact; one whose fact
  -- is not stored is applied.
  pub data Met (json : Json Text) (set : ReducerWrite) (db : Database Text)
      (out : Response × Database Text) : Type 0 where
    again :
        (row : FactRow Text)
        → rival set.fact db.facts ≡ some row
        → json.to_vec set ≡ some row.write_set
        → out ≡ (Response.committed row.revision true, db)
        → Met json set db out
    anew :
        (identity : Text)
        → json.to_vec set ≡ some identity
        → rival set.fact db.facts ≡ none
        → apply_new set identity db ≡ ok out
        → Met json set db out

  ok_or-ok : (o : Option Text) (e : StorageError) {a : Text} → ok_or o e ≡ ok a → o ≡ some a
  ok_or-ok none e h = cc
  ok_or-ok (some a) e h = cc

  duplicate_found :
      (fact : EventEnvelope) (identity : Text) (rows : List (FactRow Text)) {r : Revision}
      → duplicate fact identity rows ≡ ok (some r)
      → (row : FactRow Text) × (rival fact rows ≡ some row)
        × (row.write_set ≡ identity)
        × (row.revision ≡ r)
  unfolding duplicate
  duplicate_found fact identity rows h = elim (Option-cases (rival fact rows)) [
    | inl absent ↦ absurd (ground arith)
    | inr (row, found) ↦ (row, found, ground arith, ground arith)
  ]

  duplicate_absent :
      (fact : EventEnvelope) (identity : Text) (rows : List (FactRow Text))
      → duplicate fact identity rows ≡ ok none
      → rival fact rows ≡ none
  unfolding duplicate
  duplicate_absent fact identity rows h = ground arith

  Met-known :
      (json : Json Text) (set : ReducerWrite) (identity : Text) (db : Database Text)
      {out : Response × Database Text} (known : Option Revision)
      → json.to_vec set ≡ some identity
      → duplicate set.fact identity db.facts ≡ ok known
      → elim known [
        | some revision ↦ ok (Response.committed revision true, db)
        | none ↦ apply_new set identity db
      ]
        ≡ ok out
      → Met json set db out
  Met-known json set identity db none text h k =
      anew identity text (duplicate_absent set.fact identity db.facts h) k
  Met-known json set identity db {out} (some r) text h k =
      let (row, found, same, dated) = duplicate_found set.fact identity db.facts h in
      again row found (cc) (cc)

  pub apply-Met :
      (json : Json Text) (set : ReducerWrite) (db : Database Text) {out : Response × Database Text}
      → apply json set db ≡ ok out
      → Met json set db out
  unfolding apply
  apply-Met json set db h =
      let (identity, e1, h1) = bind_ok (ok_or (json.to_vec set) StorageError.invalid_request) _ h in
      let (known, e2, h2) = bind_ok (duplicate set.fact identity db.facts) _ h1 in
      Met-known json set identity db known (ok_or-ok (json.to_vec set) _ e1) e2 h2

  pub apply-IsIntact :
      (json : Json Text) (set : ReducerWrite) (db : Database Text) {out : Response × Database Text}
      → IsCodec json
      → Validation.apply json set ≡ ok tt
      → IsIntact json db
      → apply json set db ≡ ok out
      → IsIntact json out.1
  apply-IsIntact json set db {out} codec valid sound h = elim (apply-Met json set db h) [
    | again row found text done ↦ subst (λ o. IsIntact json o.1) (sym done) sound
    | anew identity text absent new ↦
        apply_new-IsIntact json set identity db codec valid text absent sound new
  ]
