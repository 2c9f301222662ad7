-- ===== src/Ingestion.antt =====
-- crates/harbormaster/src/ingestion/mod.rs: the limits, results and errors of volatile admission.
pub mod Queue
pub mod Registry
pub mod Control
mod Tests
use omarchy_harbormaster.Common.{ℕ, ◌*◌}
use omarchy_harbormaster.Protocol.{ProtocolError}

abbrev pub max_producers : ℕ
max_producers = 10000

abbrev pub max_queued : ℕ
max_queued = 1024

abbrev pub max_producer_queued : ℕ
max_producer_queued = 128

abbrev pub max_producer_receipts : ℕ
max_producer_receipts = 1024

abbrev pub max_receipts : ℕ
max_receipts = 8192

abbrev pub max_receipt_bytes : ℕ
max_receipt_bytes = 8 * 1024 * 1024

pub data Admission : Type 0 where
  queued already_admitted : Admission

pub data AdmissionError : Type 0 where
  protocol : ProtocolError → AdmissionError
  permission_denied unknown_producer stale_generation invalid_handshake conflict : AdmissionError
  sequence_gap replay_rejected reconciliation_required queue_full : AdmissionError
  resource_exhausted capability_unavailable stale_revision entropy_unavailable : AdmissionError
