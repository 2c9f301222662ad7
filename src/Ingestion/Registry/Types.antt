-- ===== src/Ingestion/Registry/Types.antt =====
-- crates/harbormaster/src/ingestion/registry.rs: the records that the registry keeps.
use omarchy_harbormaster.Common.{
  ℕ, ◌+◌, ◌-◌, Bool, false, List, Option, some, Eq, ltb, if◌then◌else◌, nat_eq,
}
use omarchy_harbormaster.Common.BTreeMap
use omarchy_harbormaster.Common.BTreeMap.{BTreeMap}
use omarchy_harbormaster.Common.BTreeSet.{BTreeSet}
use omarchy_harbormaster.Protocol.Identity.{
  ProducerId, ProducerGeneration, RunId, EventId, Seq, u64_limit,
}
use omarchy_harbormaster.Protocol.Event.{EventEnvelope, EventKind, HarnessKind}
use omarchy_harbormaster.Ingestion.Queue.{Queue}

pub record ProducerRegistration : Type 0 where
  pub producer_id : ProducerId
  pub generation : ProducerGeneration
  pub run_id : RunId
  pub harness : HarnessKind
  pub uid : ℕ
  pub allowed_signals : List EventKind
  pub next_sequence : Seq

pub record EventSession : Type 0 where
  pub authority : ℕ
  pub scope : ℕ
  pub producer : ProducerId
  pub generation : ProducerGeneration
  pub signals : BTreeSet EventKind

pub record Producer : Type 0 where
  pub scope : ℕ
  pub registration : ProducerRegistration
  pub next : Option Seq
  pub blocked : Bool
  pub receipts : BTreeMap Seq EventEnvelope
  pub event_ids : BTreeMap EventId Seq
  pub bytes : ℕ

-- `Producer::new`, with the scope that it allocates.
unfoldable pub new_producer : ℕ → ProducerRegistration → Producer
new_producer scope registration = record {
  scope = scope;
  registration = registration;
  next = some registration.next_sequence;
  blocked = false;
  receipts = BTreeMap.empty;
  event_ids = BTreeMap.empty;
  bytes = 0;
}

pub record Registry : Type 0 where
  pub authority : ℕ
  pub producers : BTreeMap ProducerId Producer
  pub queue : Queue
  pub receipts : ℕ
  pub receipt_bytes : ℕ
  pub discarded : ℕ
  pub rejected : ℕ
  pub allocated : ℕ

-- `Channel` of ipc/mod.rs.
pub data Channel : Type 0 where
  event control : Channel

pub channel_dec : Discrete Channel
channel_dec = hlevel

instance unfoldable pub channel_eq : Eq Channel
unfolding channel_dec
channel_eq = record { dec = channel_dec }

-- What `connect` reads of a `Connection`: its channel and its peer's uid.
pub record Peer : Type 0 where
  pub channel : Channel
  pub uid : ℕ

-- `u64::saturating_add`
unfoldable pub saturating_add : ℕ → ℕ → ℕ
saturating_add a b = if ltb (a + b) u64_limit then a + b else u64_limit - 1
