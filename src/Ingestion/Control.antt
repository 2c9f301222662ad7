-- ===== src/Ingestion/Control.antt =====
-- crates/harbormaster/src/ingestion/control.rs: explicit control grants.
pub mod Authority
mod Tests
use omarchy_harbormaster.Common.{
  ℕ, ◌+◌, Bool, true, false, not, ◌&&◌, ◌||◌, List, [], ◌∷◌, Option, none, some, ◌==◌, ltb, length,
  contains, if◌then◌else◌, Result, ok, err, nat_eq, ◌>>=◌, ◌>>◌, reject_if, ok_or, is_some_and,
  is_none,
}
use omarchy_harbormaster.Common.BTreeMap
use omarchy_harbormaster.Common.BTreeMap.{BTreeMap, get, insert, is_some}
use omarchy_harbormaster.Common.BTreeSet
use omarchy_harbormaster.Common.BTreeSet.{BTreeSet}
use omarchy_harbormaster.Protocol.Identity.{Revision}
use omarchy_harbormaster.Protocol.Capability.{
  CapabilityRecord, CapabilityStatus, CapabilitySource, CapabilityReason, ObservationFreshness,
  ControlHandshake, status_eq, source_eq, freshness_eq, reason_eq,
}
use omarchy_harbormaster.Protocol.Control.{
  Operation, operation_eq, operation_ord, all_operations, ControlRequest, operation,
  expected_revision,
}
use omarchy_harbormaster.Ingestion.{AdmissionError}
use omarchy_harbormaster.Ingestion.Registry.Types.{Channel, channel_eq, Peer}

pub record ControlSession : Type 0 where
  pub authority : ℕ
  pub uid : ℕ
  pub requested : BTreeSet Operation

pub record ControlAuthorizer : Type 0 where
  pub authority : ℕ
  pub uid : ℕ
  pub granted : BTreeSet Operation
  pub capabilities : BTreeMap Operation CapabilityRecord

-- `ControlAuthorizer::new`, with the number of its allocation.
unfoldable pub new : ℕ → ℕ → List Operation → ControlAuthorizer
new authority uid granted = record {
  authority = authority;
  uid = uid;
  granted = BTreeSet.collect granted;
  capabilities = BTreeMap.empty;
}

-- `ControlAuthorizer::set_capability`
unfoldable pub set_capability : CapabilityRecord → ControlAuthorizer → ControlAuthorizer
set_capability capability a = record a {
  capabilities = insert capability.operation capability a.capabilities;
}

-- The record of an operation that is not granted, or of which nothing was observed.
unfoldable pub unavailable : ControlAuthorizer → Operation → CapabilityRecord
unavailable a operation = record {
  operation = operation;
  status = CapabilityStatus.unsupported;
  source = CapabilitySource.manager;
  tested_version = none;
  reason =
      if contains a.granted operation
      then CapabilityReason.not_implemented
      else CapabilityReason.not_granted;
  freshness = ObservationFreshness.unsupported;
}

-- The closure of `negotiated_capabilities`.
unfoldable pub negotiated : ControlAuthorizer → Operation → CapabilityRecord
negotiated a operation =
    if contains a.granted operation
    then elim (get operation a.capabilities) [
      | none ↦ unavailable a operation
      | some capability ↦ capability
    ]
    else unavailable a operation

-- `iter().map(negotiated).collect()`
unfoldable pub negotiated_each : ControlAuthorizer → List Operation → List CapabilityRecord
negotiated_each a [] = []
negotiated_each a (operation ∷ operations) = negotiated a operation ∷ negotiated_each a operations

-- `ControlAuthorizer::negotiated_capabilities`
unfoldable pub negotiated_capabilities :
    ControlAuthorizer → ControlSession → Result AdmissionError (List CapabilityRecord)
negotiated_capabilities a session =
    if not (session.authority == a.authority)
    then err AdmissionError.permission_denied
    else ok (negotiated_each a session.requested)

-- `ControlAuthorizer::connect`
unfoldable pub connect :
    ControlAuthorizer → Peer → ControlHandshake → Result AdmissionError ControlSession
connect a peer handshake =
    let requested : BTreeSet Operation = BTreeSet.collect handshake.requested_operations in
    if not (peer.channel == Channel.control) || not (peer.uid == a.uid)
    then err AdmissionError.permission_denied
    else if not (length requested == length handshake.requested_operations)
        || ltb (length all_operations) (length requested)
    then err AdmissionError.invalid_handshake
    else ok (record { authority = a.authority; uid = a.uid; requested = requested })

-- `usable`
unfoldable pub usable : CapabilityRecord → Bool
usable capability =
    capability.status == CapabilityStatus.supported
    && capability.freshness == ObservationFreshness.fresh
    && capability.reason == CapabilityReason.available
    && (capability.source == CapabilitySource.manager || is_some capability.tested_version)

-- `ControlAuthorizer::authorize`
unfoldable pub authorize :
    ControlAuthorizer
    → ControlSession
    → ControlRequest
    → Revision
    → Result AdmissionError (Unit {0})
authorize a session request current = do
  let wanted = operation request.request
  reject_if
      (not (session.authority == a.authority)
        || not (session.uid == a.uid)
        || not (contains session.requested wanted)
        || not (contains a.granted wanted))
      AdmissionError.permission_denied
  capability ← ok_or (get wanted a.capabilities) AdmissionError.capability_unavailable
  reject_if (not (usable capability)) AdmissionError.capability_unavailable
  reject_if
      (is_some_and (expected_revision request.request) (λ expected. not (expected == current)))
      AdmissionError.stale_revision
