-- ===== src/Storage/Receipts/Reading.antt =====
-- The read of storage/context.rs finds no corruption in tables that are sound.
use omarchy_harbormaster.Common.{
  ◌≡◌, refl, subst, false, List, [], ◌∷◌, Option, none, some, ◌==◌, ok, bind_ok, arith, All,
  Bool-cases, Option-cases, inl, inr, is_none, is_some_and, if◌then◌else◌,
}
use omarchy_harbormaster.Common.BTreeMap.{BTreeMap, get}
use omarchy_harbormaster.Protocol.Identity.{
  ident_eq, ProducerGeneration, ProducerId, Revision, RunId, TurnId,
}
use omarchy_harbormaster.Protocol.Event.{EventEnvelope, envelope_eq}
use omarchy_harbormaster.Domain.Types.{RunProjection, TombstoneEvidence, TurnKey, key_eq}
use omarchy_harbormaster.Domain.Evidence.{turn_key}
use omarchy_harbormaster.Storage.Types.{EventReceipt, ProducerRecord, ReducerContext}
use omarchy_harbormaster.Storage.Database.{
  Database, FactRow, Json, ProjectionRow, TombstoneRow, producer, rival,
}
use omarchy_harbormaster.Storage.Context.{
  context, current_scope, decode_fact, find_tombstone, passed, projection, receipt, shown,
  stored_receipt, unknown_projection, tombstone, turn_tombstone,
}
use omarchy_harbormaster.Storage.Soundness.{HasEnded, IsScoped, IsIntact, owned, free}
use omarchy_harbormaster.Storage.Soundness.Facts.{rival-All}

get-All {ℓ} :
    (P : RunId × ProjectionRow → Type ℓ) (run : RunId) (rows : BTreeMap RunId ProjectionRow)
    (row : ProjectionRow)
    → get run rows ≡ some row
    → All P rows
    → (r : RunId) × P (r, row)
unfolding get
get-All P run [] row h a = cc
get-All P run ((r, w) ∷ rows) row h a = elim (Bool-cases (r == run)) [
  | inl hit ↦ let same : w ≡ row = ground arith in (r, subst (λ x. P (r, x)) same a.0)
  | inr miss ↦ get-All P run rows row (ground arith) a.1
]

owned_read :
    (run : RunId) (p : Option ProducerId) (g : Option ProducerGeneration) (t : Option TurnId)
    → is_none p ≡ false
    → is_none g ≡ false
    → is_none t ≡ false
    → (current : Option TurnKey) × (current_scope run p g t ≡ ok current)
unfolding current_scope
owned_read run none g t hp hg ht = absurd (ground arith)
owned_read run (some p) none t hp hg ht = absurd (ground arith)
owned_read run (some p) (some g) none hp hg ht = absurd (ground arith)
owned_read run (some p) (some g) (some t) hp hg ht = (_, refl)

scope_read :
    (run r : RunId) (row : ProjectionRow)
    → IsScoped (r, row)
    → (current : Option TurnKey) × (current_scope run row.producer row.generation row.turn_id
        ≡ ok current)
unfolding current_scope
scope_read run r row (free p g) = (none, rw (p, g) refl)
scope_read run r row (owned p g t) = owned_read run row.producer row.generation row.turn_id p g t

find_tombstone-All :
    (key : TurnKey) (rows : List TombstoneRow) (row : TombstoneRow)
    → find_tombstone key rows ≡ some row
    → All HasEnded rows
    → HasEnded row
unfolding find_tombstone
find_tombstone-All key [] row h a = cc
find_tombstone-All key (r ∷ rows) row h a = ground (arith, find_tombstone-All key rows row, a)

tombstone_read :
    (key : TurnKey) (rows : List TombstoneRow)
    → All HasEnded rows
    → (over : Option TombstoneEvidence) × (tombstone key rows ≡ ok over)
unfolding tombstone
tombstone_read key rows a = elim (Option-cases (find_tombstone key rows)) [
  | inl absent ↦ (none, ground arith)
  | inr (row, found) ↦ (
    some (record { key = key; outcome_id = row.event; terminal = row.terminal }),
    ground (arith, find_tombstone-All key rows row found a),
  )
]

module _ {Text : Type 0} (json : Json Text) (db : Database Text) (sound : IsIntact json db) where
  projection_read :
      (run : RunId) → (current : RunProjection × Option TurnKey) × (projection db run ≡ ok current)
  unfolding projection
  projection_read run = elim (Option-cases (get run db.projections)) [
    | inl absent ↦ ((unknown_projection run, none), ground arith)
    | inr (row, found) ↦
        let (r, scoped) = get-All IsScoped run db.projections row found sound.scoped in
        let (current, e) = scope_read run r row scoped in ((shown run row, current), ground arith)
  ]

  turn_read :
      (fact : EventEnvelope)
      → (over : Option TombstoneEvidence) × (turn_tombstone db fact ≡ ok over)
  unfolding turn_tombstone
  turn_read fact = elim (Option-cases (turn_key fact)) [
    | inl without ↦ (none, ground arith)
    | inr (key, e) ↦
        let (over, read) = tombstone_read key db.tombstones sound.ended in (over, ground arith)
  ]

  receipt_read :
      (fact : EventEnvelope) (known : Option ProducerRecord)
      → (found : EventReceipt) × (receipt json db fact known ≡ ok found)
  unfolding receipt stored_receipt
  receipt_read fact known = elim (Option-cases (rival fact db.facts)) [
    | inl absent ↦ (
      (if is_some_and known (passed fact)
          then EventReceipt.prior_sequence_unverifiable
          else EventReceipt.missing),
      ground arith,
    )
    | inr (row, found) ↦
        let (stored, e) =
          rival-All (λ r. (f : EventEnvelope) × (decode_fact json r.write_set ≡ ok f)) fact db.facts
            sound.readable found in
        (
          (if stored == fact then EventReceipt.exact row.revision else EventReceipt.conflict),
          ground arith,
        )
  ]

  -- The read gives what its three parts give, and the tables' revision.
  pub context_read :
      (fact : EventEnvelope)
      → (read : ReducerContext) × (context json db fact ≡ ok read)
        × (receipt json db fact (producer db fact.producer_id) ≡ ok read.receipt)
        × (read.revision ≡ db.revision)
  unfolding context
  context_read fact =
      let known : Option ProducerRecord = producer db fact.producer_id in
      let (found, e1) = receipt_read fact known in
      let (current, e2) = projection_read fact.run_id in
      let (over, e3) = turn_read fact in
      let read : ReducerContext = record {
        revision = db.revision;
        producer = known;
        receipt = found;
        state = record { projection = current.0; current_turn = current.1; tombstone = over };
      } in
      (read, rw (e1, e2, e3) refl, e1, refl)

pub receipt_stored :
    {Text : Type 0} (json : Json Text) (db : Database Text) (fact : EventEnvelope)
    (known : Option ProducerRecord) (row : FactRow Text)
    → rival fact db.facts ≡ some row
    → decode_fact json row.write_set ≡ ok fact
    → receipt json db fact known ≡ ok (EventReceipt.exact row.revision)
unfolding receipt stored_receipt
receipt_stored json db fact known row found read = ground arith

decoded :
    {Text : Type 0} (json : Json Text) (fact : EventEnvelope) (row : FactRow Text)
    {found : EventReceipt}
    → stored_receipt json fact row ≡ ok found
    → (stored : EventEnvelope) × (decode_fact json row.write_set ≡ ok stored)
unfolding stored_receipt
decoded json fact row h =
    let (stored, e, _) = bind_ok (decode_fact json row.write_set) _ h in (stored, e)

read_exact :
    {Text : Type 0} (json : Json Text) (fact stored : EventEnvelope) (row : FactRow Text)
    (r : Revision)
    → decode_fact json row.write_set ≡ ok stored
    → stored_receipt json fact row ≡ ok (EventReceipt.exact r)
    → (decode_fact json row.write_set ≡ ok fact) × (row.revision ≡ r)
unfolding stored_receipt
read_exact json fact stored row r e h = (ground arith, ground arith)

-- A receipt is exact only for an event that is stored as it is.
pub receipt_exact :
    {Text : Type 0} (json : Json Text) (db : Database Text) (fact : EventEnvelope)
    (known : Option ProducerRecord) (r : Revision)
    → receipt json db fact known ≡ ok (EventReceipt.exact r)
    → (row : FactRow Text) × (rival fact db.facts ≡ some row)
      × (decode_fact json row.write_set ≡ ok fact)
      × (row.revision ≡ r)
unfolding receipt
receipt_exact json db fact known r h = elim (Option-cases (rival fact db.facts)) [
  | inl absent ↦ absurd (ground arith)
  | inr (row, found) ↦
      let e0 : stored_receipt json fact row ≡ ok (EventReceipt.exact r) = ground arith in
      let (stored, e) = decoded json fact row e0 in
      let (text, dated) = read_exact json fact stored row r e e0 in (row, found, text, dated)
]
