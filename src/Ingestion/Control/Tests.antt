-- ===== src/Ingestion/Control/Tests.antt =====
-- Control grants of ingestion/control.rs for one authorizer.
use omarchy_harbormaster.Common.{
  ◌≡◌, ◌↔◌, refl, true, [], ◌∷◌, none, some, ok, err, contains, nat_eq,
}
use omarchy_harbormaster.Common.BTreeMap.{get, insert}
use omarchy_harbormaster.Common.BTreeSet.{collect, Distinct}
use omarchy_harbormaster.Common.BTreeSet
use omarchy_harbormaster.Protocol.Identity.{Revision}
use omarchy_harbormaster.Protocol.Capability.{
  CapabilityRecord, CapabilityStatus, CapabilitySource, CapabilityReason, ObservationFreshness,
  ControlHandshake, status_eq, source_eq, freshness_eq, reason_eq,
}
use omarchy_harbormaster.Protocol.Control.{
  Operation, operation_eq, operation_ord, ControlRequest, ControlOperation, operation,
  expected_revision,
}
use omarchy_harbormaster.Ingestion.{AdmissionError}
use omarchy_harbormaster.Ingestion.Registry.Types.{Channel, Peer, channel_eq}
use omarchy_harbormaster.Ingestion.Control.{
  ControlSession, ControlAuthorizer, new, set_capability, unavailable, negotiated, negotiated_each,
  negotiated_capabilities, connect, usable, authorize,
}
use omarchy_harbormaster.Ingestion.Control.Authority.{
  authorize_exact, authorize-negotiated, IsAuthorized,
}

abbrev focus_capability : CapabilityRecord
focus_capability = record {
  operation = Operation.focus;
  status = CapabilityStatus.supported;
  source = CapabilitySource.manager;
  tested_version = none;
  reason = CapabilityReason.available;
  freshness = ObservationFreshness.fresh;
}

abbrev authorizer : ControlAuthorizer
authorizer = set_capability focus_capability (new 1 1000 (Operation.focus ∷ Operation.launch ∷ []))

abbrev handshake : ControlHandshake
handshake = record { requested_operations = Operation.focus ∷ Operation.attach ∷ [] }

abbrev peer : Peer
peer = record { channel = Channel.control; uid = 1000 }

abbrev session : ControlSession
session = record { authority = 1; uid = 1000; requested = Operation.focus ∷ Operation.attach ∷ [] }

connected : connect authorizer peer handshake ≡ ok session
unfolding connect set_capability new collect BTreeSet.insert nat_eq channel_eq operation_ord
connected = refl

abbrev focus_at : Revision → ControlRequest
focus_at expected = record {
  request_id = record { text = b'q' ∷ b'1' ∷ [] };
  request =
      ControlOperation.focus expected (record { run_id = record { text = b'r' ∷ b'1' ∷ [] } });
}

focus_allowed : authorize authorizer session (focus_at 5) 5 ≡ ok tt
unfolding authorize usable operation expected_revision set_capability new collect BTreeSet.insert
    get insert nat_eq operation_eq operation_ord status_eq source_eq freshness_eq reason_eq
focus_allowed = refl

focus_stale : authorize authorizer session (focus_at 4) 5 ≡ err AdmissionError.stale_revision
unfolding authorize usable operation expected_revision set_capability new collect BTreeSet.insert
    get insert nat_eq operation_eq operation_ord status_eq source_eq freshness_eq reason_eq
focus_stale = refl

-- An operation that was not granted is negotiated as not granted.
attach_shown :
    negotiated_capabilities authorizer session
    ≡ ok (
        focus_capability
        ∷ record {
          operation = Operation.attach;
          status = CapabilityStatus.unsupported;
          source = CapabilitySource.manager;
          tested_version = none;
          reason = CapabilityReason.not_granted;
          freshness = ObservationFreshness.unsupported;
        }
        ∷ [])
unfolding negotiated_capabilities negotiated_each negotiated unavailable set_capability new collect
    BTreeSet.insert get insert nat_eq operation_eq operation_ord
attach_shown = refl

authorize_exact_example :
    (authorize authorizer session (focus_at 5) 5 ≡ ok tt)
    ↔ IsAuthorized authorizer session (focus_at 5) 5
authorize_exact_example = authorize_exact authorizer session (focus_at 5) 5

authorize-negotiated_example : (authorize authorizer session (focus_at 5) 5 ≡ ok tt) ↔ (
    (contains handshake.requested_operations (operation (focus_at 5).request) ≡ true)
    × (usable (negotiated authorizer (operation (focus_at 5).request)) ≡ true)
    × ((expected : Revision)
        → expected_revision (focus_at 5).request ≡ some expected
        → expected ≡ 5))
authorize-negotiated_example =
    authorize-negotiated authorizer peer handshake session (focus_at 5) 5 connected
