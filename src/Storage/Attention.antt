-- ===== src/Storage/Attention.antt =====
-- crates/harbormaster/src/storage/attention_state.rs: the obligations that an outcome leaves.
use omarchy_harbormaster.Common.{
  ℕ, Bool, true, false, not, ◌&&◌, ◌||◌, List, [], ◌∷◌, ◌++◌, Option, none, some, ◌==◌, option_eq,
  length, if◌then◌else◌, Result, ok, ◌>>=◌, ◌>>◌, reject_if,
}
use omarchy_harbormaster.Protocol.Identity.{ident_eq, Revision}
use omarchy_harbormaster.Protocol.Event.{EventEnvelope, turn_id}
use omarchy_harbormaster.Domain.Types.{AttentionReason, DeliveryState, TurnKey, attention_eq}
use omarchy_harbormaster.Storage.{StorageError}
use omarchy_harbormaster.Storage.Types.{
  ReducerWrite, max_attention, max_outbox_audit, max_outbox_pending,
}
use omarchy_harbormaster.Storage.Database.{AttentionRow, OutboxRow, Database, capacity}

-- `Input | NativeApproval | ConnectionUncertainty`, which are the numbers 0, 1 and 3.
unfoldable pub is_transient : AttentionReason → Bool
is_transient AttentionReason.input = true
is_transient AttentionReason.native_approval = true
is_transient AttentionReason.connection_uncertainty = true
is_transient _ = false

-- `scoped=1 AND resolved=0`
abbrev pub is_active : AttentionRow → Bool
is_active row = row.scoped && not row.resolved

-- An active row on the event's scope and turn for the same reason.
abbrev pub asks : EventEnvelope → AttentionReason → AttentionRow → Bool
asks fact reason row =
    row.producer == fact.producer_id
    && row.resolution_generation == some fact.generation
    && row.run == fact.run_id
    && row.turn_id == turn_id fact.event
    && row.reason == reason
    && is_active row

unfoldable pub any_row {ℓ} : {A : Type ℓ} → (A → Bool) → List A → Bool
any_row test [] = false
any_row test (row ∷ rows) = test row || any_row test rows

-- A row with the primary key that `fact` and `reason` would take.
abbrev pub taken : EventEnvelope → AttentionReason → AttentionRow → Bool
taken fact reason row =
    row.producer == fact.producer_id
    && row.generation == fact.generation
    && row.event == fact.event_id
    && row.reason == reason

abbrev pub obligation : EventEnvelope → AttentionReason → Revision → AttentionRow
obligation fact reason next = record {
  producer = fact.producer_id;
  generation = fact.generation;
  event = fact.event_id;
  run = fact.run_id;
  reason = reason;
  reviewed = false;
  turn_id = turn_id fact.event;
  resolved = false;
  outcome_revision = some next;
  scoped = true;
  resolution_generation = some fact.generation;
}

-- `ensure`: whether a row was inserted, and the rows.
unfoldable pub ensure :
    EventEnvelope
    → Revision
    → AttentionReason
    → List AttentionRow
    → Result StorageError (Bool × List AttentionRow)
ensure fact next reason rows =
    if is_transient reason && any_row (asks fact reason) rows then ok (false, rows) else do
      capacity (length rows) max_attention 1
      reject_if (any_row (taken fact reason) rows) StorageError.persistence_unavailable
      ok (true, rows ++ obligation fact reason next ∷ [])

-- The loop of `apply` over its reasons.
unfoldable pub ensure_all :
    EventEnvelope
    → Revision
    → List AttentionReason
    → Bool
    → List AttentionRow
    → Result StorageError (Bool × List AttentionRow)
ensure_all fact next [] inserted rows = ok (inserted, rows)
ensure_all fact next (reason ∷ reasons) inserted rows = do
  done ← ensure fact next reason rows
  ensure_all fact next reasons (inserted || done.0) done.1

-- A row that progress on the turn resolves.
abbrev pub is_waiting : TurnKey → AttentionRow → Bool
is_waiting key row =
    row.producer == key.producer_id
    && row.resolution_generation == some key.generation
    && row.run == key.run_id
    && row.turn_id == some key.turn_id
    && is_active row
    && is_transient row.reason

-- `resolve`
unfoldable pub resolve : TurnKey → List AttentionRow → List AttentionRow
resolve key [] = []
resolve key (row ∷ rows) =
    (if is_waiting key row then record row { resolved = true } else row) ∷ resolve key rows

-- `WHERE state IN(0,1)`
unfoldable pub is_pending : DeliveryState → Bool
is_pending DeliveryState.pending = true
is_pending DeliveryState.attempted_uncertain = true
is_pending _ = false

unfoldable pub pending_count : List OutboxRow → ℕ
pending_count [] = 0
pending_count (row ∷ rows) =
    if is_pending row.state then ℕ.suc (pending_count rows) else pending_count rows

abbrev pub sent_for : EventEnvelope → OutboxRow → Bool
sent_for fact row =
    row.producer == fact.producer_id
    && row.generation == fact.generation
    && row.event == fact.event_id

abbrev pub intent : ReducerWrite → Revision → OutboxRow
intent set next = record {
  producer = set.fact.producer_id;
  generation = set.fact.generation;
  event = set.fact.event_id;
  run = set.fact.run_id;
  state = DeliveryState.pending;
  created = set.accepted_at;
  changed = set.accepted_at;
  outcome_revision = some next;
}

-- The notification that `apply` queues.
unfoldable pub notify :
    ReducerWrite → Revision → List OutboxRow → Result StorageError (List OutboxRow)
notify set next rows = do
  capacity (length rows) max_outbox_audit 1
  capacity (pending_count rows) max_outbox_pending 1
  reject_if (any_row (sent_for set.fact) rows) StorageError.persistence_unavailable
  ok (rows ++ intent set next ∷ [])

abbrev pub resolved_first : Option TurnKey → List AttentionRow → List AttentionRow
resolved_first none rows = rows
resolved_first (some key) rows = resolve key rows

-- `apply`
module _ {Text : Type 0} where
  unfoldable pub apply :
      ReducerWrite → Revision → Database Text → Result StorageError (Database Text)
  apply set next db = do
    done ←
        ensure_all set.fact next set.effects.attention false
          (resolved_first set.effects.resolve_transient db.attention)
    outbox ← if set.notify && done.0 then notify set next db.outbox else ok db.outbox
    ok (record db { attention = done.1; outbox = outbox })
