-- ===== src/Storage/Soundness/Applying.antt =====
-- A validated reduction keeps the tables sound.
use omarchy_harbormaster.Common.{
  ◌+◌, ◌≤◌, ◌≡◌, refl, sym, ap, subst, ◌∙◌, Bool, true, false, not, [], ◌∷◌, ◌++◌, Option, none,
  some, nat_eq, ok, passed_test, arith, All, All-append, is_some_and, length, length-append,
  Option-cases, inl, inr, ltb,
}
use omarchy_harbormaster.Common.BTreeMap.{BTreeMap, get, insert, len, len-insert}
use omarchy_harbormaster.Protocol.Identity.{ident_eq, ProducerId, Revision}
use omarchy_harbormaster.Protocol.Event.{EventEnvelope}
use omarchy_harbormaster.Storage.{StorageError}
use omarchy_harbormaster.Storage.Types.{
  ReducerWrite, Response, max_attention, max_facts, max_runs, max_tombstones,
}
use omarchy_harbormaster.Storage.Database.{
  Database, FactRow, Json, ProducerRow, TombstoneRow, producer, rival,
}
use omarchy_harbormaster.Domain.Types.{TombstoneEvidence}
use omarchy_harbormaster.Storage.Context.{decode_fact}
use omarchy_harbormaster.Storage.Reduction.{
  apply_new, bury, fact_row, moved_on, projected, record_fact, scope, tombstone_row,
  update_producer,
}
use omarchy_harbormaster.Storage.Reduction.Applied.{apply_new-Applied}
use omarchy_harbormaster.Storage.Reduction.Frames.{
  FitsOutbox, attention-ok, bury-ok, capacity-le, projection-ok, require_revision-ok,
}
use omarchy_harbormaster.Storage.Reduction.Scope.{scope-Live}
use omarchy_harbormaster.Storage.Validation
use omarchy_harbormaster.Storage.Validation.{apply_invalid, tombstone_invalid}
use omarchy_harbormaster.Storage.Soundness.{
  Fits, HasEnded, IsCodec, IsReadable, IsIntact, IsScoped, OneActive, Apart, IsDated,
}
use omarchy_harbormaster.Storage.Soundness.Facts.{Apart-fact_row, IsDated-later}
use omarchy_harbormaster.Storage.Soundness.Producers.{OneActive-weakened, Weakens, insert-Weakens}
use omarchy_harbormaster.Storage.Soundness.Rows.{
  insert-All, projected-IsScoped, valid_tombstone, valid_turn,
}

moved_on-run :
    (fact : EventEnvelope) (reconciled : Bool) (row : ProducerRow)
    → (moved_on fact reconciled row).run ≡ row.run
unfolding moved_on
moved_on-run fact reconciled row = ground arith

len-update_producer :
    (fact : EventEnvelope) (reconciled : Bool) (producers : BTreeMap ProducerId ProducerRow)
    → len (update_producer fact reconciled producers) ≡ len producers
unfolding update_producer
len-update_producer fact reconciled producers =
    elim (Option-cases (get fact.producer_id producers)) [
      | inl absent ↦ ground arith
      | inr (row, found) ↦
          ground (arith, len-insert fact.producer_id (moved_on fact reconciled row) producers)
    ]

module _ {Text : Type 0} where
  -- Validation's verdict, part by part.
  pub validated :
      (json : Json Text) (set : ReducerWrite)
      → Validation.apply json set ≡ ok tt
      → (apply_invalid set ≡ false)
        × (json.frame_fits set.fact ≡ true)
        × ((text : Text) → json.to_vec set ≡ some text → ltb 24576 (json.len text) ≡ false)
  unfolding Validation.apply
  validated json set h =
      let (e1, h1) = passed_test (apply_invalid set) StorageError.invalid_request _ h in
      let (e2, h2) =
        passed_test (not (json.frame_fits set.fact)) StorageError.invalid_request _ h1 in
      (e1, ground arith, λ text e. ground arith)

  written :
      (json : Json Text) (set : ReducerWrite) (identity : Text) (next : Revision)
      → IsCodec json
      → Validation.apply json set ≡ ok tt
      → json.to_vec set ≡ some identity
      → IsReadable json (fact_row set identity next)
  unfolding decode_fact
  written json set identity next codec valid e =
      let (_, frame, short) = validated json set valid in
      (set.fact, ground (arith, codec set identity e frame, short identity e))

  buried-All :
      (set : ReducerWrite) (next : Revision) (item : Option TombstoneEvidence) (db : Database Text)
      {db' : Database Text}
      → (item ≡ set.effects.tombstone)
      → is_some_and set.effects.tombstone (tombstone_invalid set.fact) ≡ false
      → bury set next item db ≡ ok db'
      → All HasEnded db.tombstones
      → All HasEnded db'.tombstones
  unfolding bury
  buried-All set next none db same valid h a = ground arith
  buried-All set next (some item) db {db'} same valid h a =
      let row : TombstoneRow = tombstone_row set next item in
      let rows : db'.tombstones ≡ db.tombstones ++ row ∷ [] = ground arith in
      subst (λ r. All HasEnded r) (sym rows)
        (All-append HasEnded db.tombstones (row ∷ []) a
          (valid_tombstone set next item valid (sym same), tt))

  -- The producer that the scope names is active, so that its update makes no other one so.
  moved-Weakens :
      (fact : EventEnvelope) (reconciled : Bool) (db : Database Text)
      → scope fact (producer db fact.producer_id) ≡ ok tt
      → Weakens db.producers (update_producer fact reconciled db.producers)
  unfolding update_producer
  moved-Weakens fact reconciled db h =
      let (row, found, live) = scope-Live fact db h in
      let written : update_producer fact reconciled db.producers
          ≡ insert fact.producer_id (moved_on fact reconciled row) db.producers =
        ground arith in
      subst (Weakens db.producers) (sym written) (
        insert-Weakens fact.producer_id row (moved_on fact reconciled row) db.producers found
          (λ _. live.active) (moved_on-run fact reconciled row))

  -- What the transaction leaves, against what it found.
  pub record Left (set : ReducerWrite) (identity : Text) (db after : Database Text) : Type 0 where
    pub revision : after.revision ≡ db.revision + 1
    pub facts : after.facts ≡ db.facts ++ fact_row set identity (db.revision + 1) ∷ []
    pub producers :
        after.producers
        ≡ update_producer set.fact (not set.effects.reconciliation_required) db.producers
    pub projections :
        after.projections
        ≡ insert set.effects.projection.run_id
            (projected set.effects.projection set.effects.current_turn)
            db.projections
    pub tombstones :
        is_some_and set.effects.tombstone (tombstone_invalid set.fact) ≡ false
        → All HasEnded db.tombstones
        → All HasEnded after.tombstones
    pub fits : Fits db → Fits after
    pub due : scope set.fact (producer db set.fact.producer_id) ≡ ok tt
    pub expected : set.expected_revision ≡ db.revision

  pub apply_new-Left :
      (set : ReducerWrite) (identity : Text) (db : Database Text) {out : Response × Database Text}
      → apply_new set identity db ≡ ok out
      → Left set identity db out.1
  unfolding record_fact
  apply_new-Left set identity db {out} h =
      let a = apply_new-Applied set identity db h in
      let (frame1, room1) =
        projection-ok set.effects.projection set.effects.current_turn db a.projected in
      let (frame2, room2, room2') = attention-ok set a.next a.shown a.obliged in
      let (frame3, room3) = bury-ok set a.next set.effects.tombstone a.asked a.ended in
      let (same, later) = require_revision-ok db set.expected_revision a.revised in
      let facts : a.buried.facts ≡ db.facts =
        ap (λ d. d.facts) frame3 ∙ ap (λ d. d.facts) frame2 ∙ ap (λ d. d.facts) frame1 in
      let producers : a.buried.producers ≡ db.producers =
        ap (λ d. d.producers) frame3
        ∙ ap (λ d. d.producers) frame2
        ∙ ap (λ d. d.producers) frame1 in
      let projections : a.buried.projections ≡ a.shown.projections =
        ap (λ d. d.projections) frame3 ∙ ap (λ d. d.projections) frame2 in
      let before : a.asked.tombstones ≡ db.tombstones =
        ap (λ d. d.tombstones) frame2 ∙ ap (λ d. d.tombstones) frame1 in
      let attention : a.buried.attention ≡ a.asked.attention = ap (λ d. d.attention) frame3 in
      let attention' : a.shown.attention ≡ db.attention = ap (λ d. d.attention) frame1 in
      let outbox : a.buried.outbox ≡ a.asked.outbox = ap (λ d. d.outbox) frame3 in
      let outbox' : a.shown.outbox ≡ db.outbox = ap (λ d. d.outbox) frame1 in
      let left : Left set identity db (record_fact set identity a.discarded a.next a.buried) =
        record {
          revision = later;
          facts = λ i. facts i ++ fact_row set identity (later i) ∷ [];
          producers =
              ap (update_producer set.fact (not set.effects.reconciliation_required)) producers;
          projections = projections ∙ ap (λ d. d.projections) frame1;
          due = a.scoped;
          expected = cc;
          tombstones = λ valid all.
              buried-All set a.next set.effects.tombstone a.asked refl valid a.ended
                (subst (λ r. All HasEnded r) (sym before) all);
          fits = λ fits. record {
            facts = omega (
              arith,
              length-append a.buried.facts (fact_row set identity a.next ∷ []),
              capacity-le (length db.facts) max_facts a.room,
              ap length facts,
            );
            producers = omega (
              arith,
              len-update_producer set.fact (not set.effects.reconciliation_required)
                  a.buried.producers,
              ap len producers,
              fits.producers,
            );
            projections = subst (λ r. len r ≤ max_runs) (sym projections) (room1 fits.projections);
            attention =
                subst (λ r. length r ≤ max_attention) (sym attention)
                  (room2 (subst (λ r. length r ≤ max_attention) (sym attention') fits.attention));
            outbox =
                subst FitsOutbox (sym outbox) (room2' (subst FitsOutbox (sym outbox') fits.outbox));
            tombstones =
                room3 (subst (λ r. length r ≤ max_tombstones) (sym before) fits.tombstones);
          };
        } in
      subst (λ o. Left set identity db o.1) (sym a.done) left

  pub apply_new-IsIntact :
      (json : Json Text) (set : ReducerWrite) (identity : Text) (db : Database Text)
      {out : Response × Database Text}
      → IsCodec json
      → Validation.apply json set ≡ ok tt
      → json.to_vec set ≡ some identity
      → rival set.fact db.facts ≡ none
      → IsIntact json db
      → apply_new set identity db ≡ ok out
      → IsIntact json out.1
  unfolding apply_invalid
  apply_new-IsIntact json set identity db {out} codec valid text absent sound h =
      let left = apply_new-Left set identity db h in
      let (sane, _, _) = validated json set valid in
      let row : FactRow Text = fact_row set identity (db.revision + 1) in
      record {
        apart =
            subst Apart (sym left.facts)
              (Apart-fact_row set identity (db.revision + 1) db.facts sound.apart absent);
        dated = subst (All (IsDated out.1.revision)) (sym left.facts) (
            All-append (IsDated out.1.revision) db.facts (row ∷ [])
              (IsDated-later db.revision out.1.revision db.facts (omega (arith, left.revision))
                sound.dated)
              (omega (arith, left.revision), tt));
        readable = subst (All (IsReadable json)) (sym left.facts) (
            All-append (IsReadable json) db.facts (row ∷ []) sound.readable
              (written json set identity (db.revision + 1) codec valid text, tt));
        scoped = subst (All IsScoped) (sym left.projections) (
            insert-All IsScoped set.effects.projection.run_id _ db.projections
              (projected-IsScoped set.effects.projection set.effects.current_turn
                (valid_turn set sane))
              sound.scoped);
        ended = left.tombstones (ground arith) sound.ended;
        single = subst OneActive (sym left.producers) (
            OneActive-weakened db.producers _
              (moved-Weakens set.fact (not set.effects.reconciliation_required) db left.due)
              sound.single);
        fits = left.fits sound.fits;
      }
