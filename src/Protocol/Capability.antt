-- ===== src/Protocol/Capability.antt =====
-- crates/harbormaster/src/protocol/capability.rs: capability metadata and the control handshake.
use omarchy_harbormaster.Common.{List, Option, Eq}
use omarchy_harbormaster.Protocol.Identity.{AdapterVersion}
use omarchy_harbormaster.Protocol.Control.{Operation}

pub data CapabilityStatus : Type 0 where
  supported unsupported unknown : CapabilityStatus

pub data CapabilitySource : Type 0 where
  manager adapter native_harness : CapabilitySource

pub data ObservationFreshness : Type 0 where
  fresh stale disconnected unsupported : ObservationFreshness

pub data CapabilityReason : Type 0 where
  available not_implemented not_granted version_untested : CapabilityReason
  stale_identity unsupported_harness : CapabilityReason

pub status_dec : Discrete CapabilityStatus
status_dec = hlevel

pub source_dec : Discrete CapabilitySource
source_dec = hlevel

pub freshness_dec : Discrete ObservationFreshness
freshness_dec = hlevel

pub reason_dec : Discrete CapabilityReason
reason_dec = hlevel

instance unfoldable pub status_eq : Eq CapabilityStatus
unfolding status_dec
status_eq = record { dec = status_dec }

instance unfoldable pub source_eq : Eq CapabilitySource
unfolding source_dec
source_eq = record { dec = source_dec }

instance unfoldable pub freshness_eq : Eq ObservationFreshness
unfolding freshness_dec
freshness_eq = record { dec = freshness_dec }

instance unfoldable pub reason_eq : Eq CapabilityReason
unfolding reason_dec
reason_eq = record { dec = reason_dec }

pub record CapabilityRecord : Type 0 where
  pub operation : Operation
  pub status : CapabilityStatus
  pub source : CapabilitySource
  pub tested_version : Option AdapterVersion
  pub reason : CapabilityReason
  pub freshness : ObservationFreshness

pub record ControlHandshake : Type 0 where
  pub requested_operations : List Operation
