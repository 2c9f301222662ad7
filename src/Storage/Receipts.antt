-- ===== src/Storage/Receipts.antt =====
-- The receipts of crates/harbormaster/src/storage: a committed event stays committed.
pub mod Growth
pub mod Reading
use omarchy_harbormaster.Common.{
  ℕ, ◌+◌, ◌≡◌, ◌⊎◌, inl, inr, refl, sym, ap, subst, ◌∙◌, Bool, true, false, not, List, [], ◌∷◌,
  ◌++◌, Option, none, some, Eq, ◌==◌, Result, ok, err, bind_ok, ok_injective, arith, ◌>>=◌, ◌>>◌,
  ok_or, if◌then◌else◌, reject_if, is_some_and, Option-cases, ltb, length, passed_test,
}
use mathlib.Core.Option
use omarchy_harbormaster.Common.BTreeMap.{get}
use omarchy_harbormaster.Protocol.Identity.{ident_eq, ProducerGeneration, Revision}
use omarchy_harbormaster.Protocol.Event.{EventEnvelope, envelope_eq}
use omarchy_harbormaster.Storage.{StorageError}
use omarchy_harbormaster.Storage.Types.{
  EventReceipt, ReducerContext, ReducerWrite, Request, Response,
}
use omarchy_harbormaster.Storage.Database.{Database, FactRow, Json, producer, rival}
use omarchy_harbormaster.Storage.Reduction.{apply, apply_new, duplicate, fact_row}
use omarchy_harbormaster.Storage.Reduction.Applied.{apply_new-Applied}
use omarchy_harbormaster.Storage.Reduction.Frames.{require_revision-ok}
use omarchy_harbormaster.Storage.Engine.{dispatch, execute, validate}
use omarchy_harbormaster.Storage.Soundness.Applying.{apply_new-Left, validated}
use omarchy_harbormaster.Storage.Soundness.Facts.{rival_last, rivals_self}
use omarchy_harbormaster.Storage.Soundness.Meeting.{Met, again, anew, apply-Met}
use omarchy_harbormaster.Storage.Soundness.History.{
  Step, empty, execute-IsIntact, execute-ok, ok-execute, run, run-IsIntact, run_from-IsIntact,
}
use omarchy_harbormaster.Storage.Receipts.Growth.{Keeps, here, kept_stored, run_from-Keeps}
use omarchy_harbormaster.Storage.Receipts.Reading.{context_read, receipt_exact, receipt_stored}
use omarchy_harbormaster.Storage.Context
use omarchy_harbormaster.Storage.Context.{decode_fact}
use omarchy_harbormaster.Storage.Soundness.{IsCodec, IsIntact}

module _ {Text : Type 0} ⦃t : Eq Text⦄ (json : Json Text) where
  -- The fact of a write set stands in the tables, dated, as it was written.
  pub record IsStored (set : ReducerWrite) (r : Revision) (db : Database Text) : Type 0 where
    pub row : FactRow Text
    pub found : rival set.fact db.facts ≡ some row
    pub text : json.to_vec set ≡ some row.write_set
    pub dated : row.revision ≡ r

  left_at :
      (set : ReducerWrite) (identity : Text) (db : Database Text) {r : Revision} {b : Bool}
      {after : Database Text}
      → apply_new set identity db ≡ ok (Response.committed r b, after)
      → (db.revision + 1 ≡ r) × (b ≡ false)
  left_at set identity db new =
      let a = apply_new-Applied set identity db new in
      let (_, later) = require_revision-ok db set.expected_revision a.revised in
      (cc (a.done, later), cc a.done)

  pub committed-IsStored :
      (set : ReducerWrite) (db after : Database Text) (r : Revision) (b : Bool)
      → apply json set db ≡ ok (Response.committed r b, after)
      → IsStored set r after
  committed-IsStored set db after r b h = elim (apply-Met json set db h) [
    | again row found text e ↦ record {
      row = row;
      found =
          let same : db ≡ after = cc in subst (λ d. rival set.fact d.facts ≡ some row) same found;
      text = text;
      dated = cc;
    }
    | anew identity text absent new ↦
        let left = apply_new-Left set identity db new in
        record {
          row = fact_row set identity (db.revision + 1);
          found =
              subst (λ f. rival set.fact f ≡ some (fact_row set identity (db.revision + 1)))
                (sym left.facts)
                (rival_last set.fact db.facts (fact_row set identity (db.revision + 1)) absent
                  (rivals_self set identity (db.revision + 1)));
          text = text;
          dated = (left_at set identity db new).0;
        }
  ]

  pub apply_stored :
      (set : ReducerWrite) (db : Database Text) (r : Revision)
      → IsStored set r db
      → apply json set db ≡ ok (Response.committed r true, db)
  unfolding apply duplicate
  apply_stored set db r s = ground (arith, s.text, s.found, s.dated)

  kept-IsStored :
      (set : ReducerWrite) (r : Revision) (db after : Database Text)
      → Keeps json db after
      → IsStored set r db
      → IsStored set r after
  kept-IsStored set r db after k s = record {
    row = s.row;
    found = kept_stored json set.fact db after k s.found;
    text = s.text;
    dated = s.dated;
  }

  pub execute-IsStored :
      (set : ReducerWrite) (fresh : Option ProducerGeneration) (db after : Database Text)
      (r : Revision) (b : Bool)
      → execute json fresh (Request.apply set) db ≡ (ok (Response.committed r b), after)
      → (validate json (Request.apply set) ≡ ok tt) × IsStored set r after
  unfolding dispatch
  execute-IsStored set fresh db after r b h =
      let (valid, did) = execute-ok json fresh (Request.apply set) db after _ h in
      (valid, committed-IsStored set db after r b did)

  -- A committed write set that is sent again is answered with the revision at which it was
  -- committed, and changes nothing: a lost answer may be asked for again. In between there may be
  -- any requests of the reducer path, restarts, and other changes that remove no fact; retention
  -- and the restoring of a backup may not, since they do.
  pub committed_once :
      (set : ReducerWrite) (fresh later : Option ProducerGeneration) (db after now : Database Text)
      (r : Revision) (b : Bool)
      → execute json fresh (Request.apply set) db ≡ (ok (Response.committed r b), after)
      → Keeps json after now
      → execute json later (Request.apply set) now ≡ (ok (Response.committed r true), now)
  unfolding dispatch
  committed_once set fresh later db after now r b h keeps =
      let (valid, stored) = execute-IsStored set fresh db after r b h in
      ok-execute json later (Request.apply set) now (Response.committed r true, now) valid
        (apply_stored set now r (kept-IsStored set r after now keeps stored))

  pub fact_readable :
      (set : ReducerWrite) (row : FactRow Text)
      → IsCodec json
      → validate json (Request.apply set) ≡ ok tt
      → json.to_vec set ≡ some row.write_set
      → decode_fact json row.write_set ≡ ok set.fact
  unfolding decode_fact validate
  fact_readable set row codec valid text =
      let (_, frame, short) = validated json set valid in
      ground (arith, codec set row.write_set text frame, short row.write_set text)

  fits_frame :
      (set : ReducerWrite)
      → validate json (Request.apply set) ≡ ok tt
      → validate json (Request.context set.fact) ≡ ok tt
  unfolding validate
  fits_frame set valid = let (_, frame, _) = validated json set valid in ground arith

  -- A committed event that is looked up has a receipt that is exact and names the revision of its
  -- commit. The tables start empty, and before and after the commit there are requests of the reducer
  -- path (contexts, writes, reconciliations, retirements, registrations) and restarts, and no
  -- others: in particular no retention, which removes facts. Of serde_json, `encode_frame` and
  -- `parse_event` it is assumed that a stored write set reads back as the fact that was written.
  pub committed_receipt :
      (set : ReducerWrite) (fresh later : Option ProducerGeneration) (before : List Step)
      (after : Database Text) (r : Revision) (b : Bool) (steps : List Step)
      → IsCodec json
      → execute json fresh (Request.apply set) (run json before empty)
        ≡ (ok (Response.committed r b), after)
      → (read : ReducerContext) × (execute json later
            (Request.context set.fact)
            (run json steps after)
          ≡ (ok (Response.context read), run json steps after))
        × (read.receipt ≡ EventReceipt.exact r)
        × (read.revision ≡ (run json steps after).revision)
  unfolding dispatch
  committed_receipt set fresh later before after r b steps codec h =
      let (valid, at_once) = execute-IsStored set fresh _ after r b h in
      let now : Database Text = run json steps after in
      let stored =
        kept-IsStored set r after now (run_from-Keeps json after after steps here) at_once in
      let sound : IsIntact json after =
        subst (λ o. IsIntact json o.1) h
          (execute-IsIntact json fresh (Request.apply set) _ codec
            (run-IsIntact json before codec)) in
      let (read, e, found, dated) =
        context_read json now (run_from-IsIntact json steps after codec sound) set.fact in
      let exact =
        receipt_stored json now set.fact (producer now set.fact.producer_id) stored.row stored.found
          (fact_readable set stored.row codec valid stored.text) in
      (
        read,
        ok-execute json later (Request.context set.fact) now (Response.context read, now)
            (fits_frame set valid) (rw e refl),
        cc (found, exact, stored.dated),
        dated,
      )

  context-receipt :
      (db : Database Text) (fact : EventEnvelope) {read : ReducerContext}
      → Context.context json db fact ≡ ok read
      → Context.receipt json db fact (producer db fact.producer_id) ≡ ok read.receipt
  unfolding Context.context
  context-receipt db fact h =
      let (found, e1, h1) =
        bind_ok (Context.receipt json db fact (producer db fact.producer_id)) _ h in
      let (current, e2, h2) = bind_ok (Context.projection db fact.run_id) _ h1 in
      let (over, e3, h3) = bind_ok (Context.turn_tombstone db fact) _ h2 in
      e1 ∙ ap ok (ap (λ c. c.receipt) (ok_injective h3))

  -- A look-up that answers with an exact receipt has found the event.
  pub looked_up :
      (fresh : Option ProducerGeneration) (db after : Database Text) (fact : EventEnvelope)
      (read : ReducerContext) (r : Revision)
      → execute json fresh (Request.context fact) db ≡ (ok (Response.context read), after)
      → read.receipt ≡ EventReceipt.exact r
      → (row : FactRow Text) × (rival fact after.facts ≡ some row)
        × (decode_fact json row.write_set ≡ ok fact)
        × (row.revision ≡ r)
  unfolding dispatch
  looked_up fresh db after fact read r h e =
      let (_, did) = execute-ok json fresh (Request.context fact) db after _ h in
      let (read', e1, h1) = bind_ok (Context.context json db fact) _ did in
      let same : read' ≡ read = cc (ok_injective h1) in
      let left : db ≡ after = cc (ok_injective h1) in
      let (row, found, text, dated) =
        receipt_exact json db fact (producer db fact.producer_id) r
          (context-receipt db fact e1 ∙ ap ok (ap (λ c. c.receipt) same ∙ e)) in
      (row, subst (λ d. rival fact d.facts ≡ some row) left found, text, dated)
