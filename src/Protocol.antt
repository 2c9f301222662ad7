-- ===== src/Protocol.antt =====
-- crates/harbormaster/src/protocol/mod.rs: the limits and the errors of protocol v0.
pub mod Identity
pub mod Event
pub mod Control
pub mod Capability
pub mod Bounds
use omarchy_harbormaster.Common.{ℕ}

abbrev pub max_frame_bytes : ℕ
max_frame_bytes = 16384

pub data ProtocolError : Type 0 where
  unsupported_version invalid_frame unknown_producer stale_generation sequence_gap : ProtocolError
  capability_unavailable stale_target permission_denied conflict : ProtocolError
  resource_exhausted persistence_unavailable : ProtocolError
