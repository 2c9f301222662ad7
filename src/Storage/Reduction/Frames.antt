-- ===== src/Storage/Reduction/Frames.antt =====
-- Which tables each step of storage/reducer_transaction.rs writes, and how far they may grow.
use omarchy_harbormaster.Common.{
  ℕ, suc, ◌+◌, ◌≤◌, ◌≡◌, refl, Bool, true, false, ◌&&◌, ◌||◌, List, [], ◌∷◌, ◌++◌, Option, none,
  some, ok, bind_ok, ok_injective, subst, arith, length, length-append, ap, if◌then◌else◌,
}
use omarchy_harbormaster.Common.BTreeMap.{insert, len, len-insert}
use omarchy_harbormaster.Protocol.Identity.{ident_eq, Revision, checked_next}
use omarchy_harbormaster.Protocol.Event.{EventEnvelope}
use omarchy_harbormaster.Domain.Types.{AttentionReason, RunProjection, TombstoneEvidence, TurnKey}
use omarchy_harbormaster.Storage.Types.{
  ReducerWrite, max_attention, max_outbox_audit, max_outbox_pending, max_runs, max_tombstones,
}
use omarchy_harbormaster.Storage.Database.{
  AttentionRow, Database, OutboxRow, capacity, require_revision,
}
use omarchy_harbormaster.Storage.Reduction.{bury, projected, projection, tombstone_row}
use omarchy_harbormaster.Storage.Attention
use omarchy_harbormaster.Storage.Attention.{
  ensure, ensure_all, notify, resolve, resolved_first, intent, pending_count, is_pending,
}

pub capacity-le : (count maximum : ℕ) → capacity count maximum 1 ≡ ok tt → count + 1 ≤ maximum
capacity-le count maximum h = ground arith

-- What a transaction knows of the revision.
pub require_revision-ok :
    {Text : Type 0} (db : Database Text) (expected : Revision) {next : Revision}
    → require_revision db expected ≡ ok next
    → (db.revision ≡ expected) × (next ≡ db.revision + 1)
unfolding require_revision checked_next
require_revision-ok db expected h = ground arith

pub length-resolve :
    (key : TurnKey) (rows : List AttentionRow) → length (resolve key rows) ≡ length rows
unfolding resolve
length-resolve key [] = refl
length-resolve key (row ∷ rows) = ap suc (length-resolve key rows)

pub length-resolved_first :
    (key : Option TurnKey) (rows : List AttentionRow)
    → length (resolved_first key rows) ≡ length rows
length-resolved_first none rows = refl
length-resolved_first (some key) rows = length-resolve key rows

ensure_bounded :
    (fact : EventEnvelope) (next : Revision) (reason : AttentionReason) (rows : List AttentionRow)
    (out : Bool × List AttentionRow)
    → length rows ≤ max_attention
    → ensure fact next reason rows ≡ ok out
    → length out.1 ≤ max_attention
unfolding ensure
ensure_bounded fact next reason rows out fits h =
    ground (arith, length-append rows (Attention.obligation fact reason next ∷ []))

ensure_all_bounded :
    (fact : EventEnvelope) (next : Revision) (reasons : List AttentionReason) (inserted : Bool)
    (rows : List AttentionRow) (out : Bool × List AttentionRow)
    → length rows ≤ max_attention
    → ensure_all fact next reasons inserted rows ≡ ok out
    → length out.1 ≤ max_attention
unfolding ensure_all
ensure_all_bounded fact next [] inserted rows out fits h = ground arith
ensure_all_bounded fact next (reason ∷ reasons) inserted rows out fits h =
    let (done, e, h') = bind_ok (ensure fact next reason rows) _ h in
    ensure_all_bounded fact next reasons (inserted || done.0) done.1 out
      (ensure_bounded fact next reason rows done fits e) h'

-- The outbox keeps within its two limits.
abbrev pub FitsOutbox : List OutboxRow → Type 0
FitsOutbox rows = (length rows ≤ max_outbox_audit) × (pending_count rows ≤ max_outbox_pending)

pending_count-append :
    (rows more : List OutboxRow)
    → pending_count (rows ++ more) ≡ pending_count rows + pending_count more
unfolding pending_count
pending_count-append [] more = omega arith
pending_count-append (row ∷ rows) more = ground (arith, pending_count-append rows more)

notify_bounded :
    (set : ReducerWrite) (next : Revision) (rows out : List OutboxRow)
    → notify set next rows ≡ ok out
    → FitsOutbox out
unfolding notify pending_count is_pending
notify_bounded set next rows out h = ground (
  arith,
  length-append rows (intent set next ∷ []),
  pending_count-append rows (intent set next ∷ []),
)

-- The outbox that `apply` leaves.
posted_bounded :
    (post : Bool) (set : ReducerWrite) (next : Revision) (rows : List OutboxRow)
    {out : List OutboxRow}
    → (if post then notify set next rows else ok rows) ≡ ok out
    → FitsOutbox rows
    → FitsOutbox out
posted_bounded true set next rows {out} h fits = notify_bounded set next rows out h
posted_bounded false set next rows h fits = ground arith

module _ {Text : Type 0} where
  pub projection-ok :
      (shown : RunProjection) (current : Option TurnKey) (db : Database Text) {db' : Database Text}
      → projection shown current db ≡ ok db'
      → (db' ≡ record db {
        projections = insert shown.run_id (projected shown current) db.projections;
      })
        × (len db.projections ≤ max_runs → len db'.projections ≤ max_runs)
  unfolding projection
  projection-ok shown current db h =
      ground (arith, len-insert shown.run_id (projected shown current) db.projections)

  pub attention-ok :
      (set : ReducerWrite) (next : Revision) (db : Database Text) {db' : Database Text}
      → Attention.apply set next db ≡ ok db'
      → (db' ≡ record db { attention = db'.attention; outbox = db'.outbox })
        × (length db.attention ≤ max_attention → length db'.attention ≤ max_attention)
        × (FitsOutbox db.outbox → FitsOutbox db'.outbox)
  unfolding Attention.apply
  attention-ok set next db {db'} h =
      let start : List AttentionRow = resolved_first set.effects.resolve_transient db.attention in
      let (done, e, h') =
        bind_ok (ensure_all set.fact next set.effects.attention false start) _ h in
      let (outbox, e', h'') =
        bind_ok (if set.notify && done.0 then notify set next db.outbox else ok db.outbox) _ h' in
      let left : record db { attention = done.1; outbox = outbox } ≡ db' = ok_injective h'' in
      (
        subst (λ x. x ≡ record db { attention = x.attention; outbox = x.outbox }) left refl,
        λ fits.
            subst (λ x. length x.attention ≤ max_attention) left
              (ensure_all_bounded set.fact next set.effects.attention false start done
                (omega (arith, length-resolved_first set.effects.resolve_transient db.attention))
                e),
        λ fits.
            subst (λ x. FitsOutbox x.outbox) left
              (posted_bounded (set.notify && done.0) set next db.outbox e' fits),
      )

  pub bury-ok :
      (set : ReducerWrite) (next : Revision) (item : Option TombstoneEvidence) (db : Database Text)
      {db' : Database Text}
      → bury set next item db ≡ ok db'
      → (db' ≡ record db { tombstones = db'.tombstones })
        × (length db.tombstones ≤ max_tombstones → length db'.tombstones ≤ max_tombstones)
  unfolding bury
  bury-ok set next none db h = ground arith
  bury-ok set next (some item) db h =
      ground (arith, length-append db.tombstones (tombstone_row set next item ∷ []))
