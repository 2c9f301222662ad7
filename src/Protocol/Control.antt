-- ===== src/Protocol/Control.antt =====
-- crates/harbormaster/src/protocol/control.rs: control requests as data.
use omarchy_harbormaster.Common.{
  ℕ, suc, ◌≡◌, refl, Bool, true, false, List, [], ◌∷◌, Option, none, some, Eq, leb, ◌&&◌,
  if◌then◌else◌, Result, ok, err,
}
use omarchy_harbormaster.Common.BTreeSet.{Ord}
use omarchy_harbormaster.Protocol.{ProtocolError, invalid_frame}
use omarchy_harbormaster.Protocol.Identity.{
  Revision, Seq, SnapshotCursor, LocalPath, TaskLabel, ProjectId, RunId, RequestId,
}
use omarchy_harbormaster.Protocol.Event.{HarnessKind}

pub data Operation : Type 0 where
  snapshot subscribe project_register launch focus attach resume : Operation
  interrupt_owned end_owned review_mark attention_snooze policy_update : Operation

pub operation_dec : Discrete Operation
operation_dec = hlevel

instance unfoldable pub operation_eq : Eq Operation
unfolding operation_dec
operation_eq = record { dec = operation_dec }

-- `Operation::ALL`
abbrev pub all_operations : List Operation
all_operations =
    snapshot ∷ subscribe ∷ project_register ∷ launch ∷ focus ∷ attach ∷ resume ∷ interrupt_owned
    ∷ end_owned ∷ review_mark ∷ attention_snooze ∷ policy_update ∷ []

unfoldable pub is_stateful : Operation → Bool
is_stateful snapshot = false
is_stateful subscribe = false
is_stateful _ = true

abbrev pub operation_rank : Operation → ℕ
operation_rank snapshot = 0
operation_rank subscribe = 1
operation_rank project_register = 2
operation_rank launch = 3
operation_rank focus = 4
operation_rank attach = 5
operation_rank resume = 6
operation_rank interrupt_owned = 7
operation_rank end_owned = 8
operation_rank review_mark = 9
operation_rank attention_snooze = 10
operation_rank policy_update = 11

abbrev pub nth_operation : List Operation → ℕ → Operation
nth_operation [] n = snapshot
nth_operation (k ∷ ks) ℕ.zero = k
nth_operation (k ∷ ks) (suc n) = nth_operation ks n

pub nth_operation-rank : (k : Operation) → nth_operation all_operations (operation_rank k) ≡ k
nth_operation-rank snapshot = refl
nth_operation-rank _ = refl

pub operation_rank_injective : (a b : Operation) → operation_rank a ≡ operation_rank b → a ≡ b
operation_rank_injective a b h = cc (nth_operation-rank a, nth_operation-rank b)

-- The derived order of the operations.
instance unfoldable pub operation_ord : Ord Operation
operation_ord = record { rank = operation_rank; rank_injective = operation_rank_injective }

-- A `u16` from 1 to 100.
pub record PageSize : Type 0 where
  pub value : ℕ

-- `PageSize::try_from`
unfoldable pub page_size : ℕ → Result ProtocolError PageSize
page_size value =
    if leb 1 value && leb value 100 then ok (record { value = value }) else err invalid_frame

pub record SnapshotArguments : Type 0 where
  pub limit : PageSize
  pub cursor : Option SnapshotCursor

pub record SubscribeArguments : Type 0 where
  pub after_revision : Revision

pub record ProjectRegisterArguments : Type 0 where
  pub path : LocalPath
  pub label : TaskLabel

pub record LaunchArguments : Type 0 where
  pub project_id : ProjectId
  pub harness : HarnessKind

pub record TargetArguments : Type 0 where
  pub run_id : RunId

pub record ReviewMarkArguments : Type 0 where
  pub run_id : RunId
  pub outcome_revision : Revision

pub record AttentionSnoozeArguments : Type 0 where
  pub run_id : RunId
  pub until_unix_seconds : Seq

pub record PolicyUpdateArguments : Type 0 where
  pub notifications_enabled : Bool

-- Each stateful variant holds its expected revision first.
pub data ControlOperation : Type 0 where
  snapshot : SnapshotArguments → ControlOperation
  subscribe : SubscribeArguments → ControlOperation
  project_register : Revision → ProjectRegisterArguments → ControlOperation
  launch : Revision → LaunchArguments → ControlOperation
  focus attach resume interrupt_owned end_owned : Revision → TargetArguments → ControlOperation
  review_mark : Revision → ReviewMarkArguments → ControlOperation
  attention_snooze : Revision → AttentionSnoozeArguments → ControlOperation
  policy_update : Revision → PolicyUpdateArguments → ControlOperation

-- `ControlOperation::operation`
unfoldable pub operation : ControlOperation → Operation
operation (ControlOperation.snapshot _) = snapshot
operation (ControlOperation.subscribe _) = subscribe
operation (ControlOperation.project_register _ _) = project_register
operation (ControlOperation.launch _ _) = launch
operation (ControlOperation.focus _ _) = focus
operation (ControlOperation.attach _ _) = attach
operation (ControlOperation.resume _ _) = resume
operation (ControlOperation.interrupt_owned _ _) = interrupt_owned
operation (ControlOperation.end_owned _ _) = end_owned
operation (ControlOperation.review_mark _ _) = review_mark
operation (ControlOperation.attention_snooze _ _) = attention_snooze
operation (ControlOperation.policy_update _ _) = policy_update

-- `ControlOperation::expected_revision`
unfoldable pub expected_revision : ControlOperation → Option Revision
expected_revision (ControlOperation.snapshot _) = none
expected_revision (ControlOperation.subscribe _) = none
expected_revision (ControlOperation.project_register expected _) = some expected
expected_revision (ControlOperation.launch expected _) = some expected
expected_revision (ControlOperation.focus expected _) = some expected
expected_revision (ControlOperation.attach expected _) = some expected
expected_revision (ControlOperation.resume expected _) = some expected
expected_revision (ControlOperation.interrupt_owned expected _) = some expected
expected_revision (ControlOperation.end_owned expected _) = some expected
expected_revision (ControlOperation.review_mark expected _) = some expected
expected_revision (ControlOperation.attention_snooze expected _) = some expected
expected_revision (ControlOperation.policy_update expected _) = some expected

pub record ControlRequest : Type 0 where
  pub request_id : RequestId
  pub request : ControlOperation
