-- ===== src/Ingestion/Control/Authority.antt =====
-- What ingestion/control.rs lets a control session do.
use omarchy_harbormaster.Common.{
  ◌≤◌, ◌≡◌, ◌↔◌, refl, ap, sym, ◌∙◌, true, false, not, some, ◌==◌, length, arith, ok, Option-cases,
  contains, inl, inr, nat_eq, ◌⊎◌, is_some_and,
}
use omarchy_harbormaster.Common.BTreeMap.{get, is_some}
use omarchy_harbormaster.Common.BTreeSet.{
  BTreeSet, Distinct, collect_full, collect-Distinct, contains-collect, contains-intersection,
}
use omarchy_harbormaster.Common.BTreeSet
use omarchy_harbormaster.Protocol.Identity.{Revision}
use omarchy_harbormaster.Protocol.Capability.{
  CapabilityRecord, CapabilityStatus, CapabilitySource, CapabilityReason, ObservationFreshness,
  ControlHandshake, status_eq, source_eq, freshness_eq, reason_eq,
}
use omarchy_harbormaster.Protocol.Control.{
  Operation, operation_eq, operation_ord, all_operations, ControlRequest, operation,
  expected_revision,
}
use omarchy_harbormaster.Ingestion.Registry.Types.{Channel, Peer}
use omarchy_harbormaster.Ingestion.Control.{
  ControlSession, ControlAuthorizer, unavailable, negotiated, connect, usable, authorize,
}

-- Fresh evidence of support, from the manager or of a tested version.
pub record IsUsable (capability : CapabilityRecord) : Type 0 where
  pub status : capability.status ≡ CapabilityStatus.supported
  pub freshness : capability.freshness ≡ ObservationFreshness.fresh
  pub reason : capability.reason ≡ CapabilityReason.available
  pub source :
      (capability.source ≡ CapabilitySource.manager) ⊎ (is_some capability.tested_version ≡ true)

usable_iff : (capability : CapabilityRecord) → (usable capability ≡ true) ↔ IsUsable capability
unfolding usable
usable_iff capability = (λ h. ground arith, λ u. ground arith)

-- The request is allowed: the session is the authorizer's, its operation was negotiated and
-- granted, there is usable evidence for it, and its expected revision is the current one.
pub record IsAuthorized (a : ControlAuthorizer) (session : ControlSession)
    (request : ControlRequest) (current : Revision) : Type 0 where
  pub authority : session.authority ≡ a.authority
  pub uid : session.uid ≡ a.uid
  pub requested : contains session.requested (operation request.request) ≡ true
  pub granted : contains a.granted (operation request.request) ≡ true
  pub evidence :
      (capability : CapabilityRecord) × (get (operation request.request) a.capabilities
        ≡ some capability)
      × IsUsable capability
  pub revision :
      (expected : Revision) → expected_revision request.request ≡ some expected → expected ≡ current

revision_fresh :
    (request : ControlRequest) (current : Revision)
    → (is_some_and (expected_revision request.request) (λ expected. not (expected == current))
        ≡ false)
      ↔ ((expected : Revision)
          → expected_revision request.request ≡ some expected
          → expected ≡ current)
revision_fresh request current = elim (Option-cases (expected_revision request.request)) [
  | inl e ↦ rw e (λ h expected n. cc n, λ h. refl)
  | inr (expected, e) ↦ (λ h other n. ground (arith, e, n, h), λ h. ground (arith, e, h expected e))
]

authorized :
    (a : ControlAuthorizer) (session : ControlSession) (request : ControlRequest)
    (current : Revision)
    → authorize a session request current ≡ ok tt
    → IsAuthorized a session request current
unfolding authorize
authorized a session request current h =
    elim (Option-cases (get (operation request.request) a.capabilities)) [
      | inl e ↦ ground (arith, e)
      | inr (capability, e) ↦ record {
        authority = ground (arith, e);
        uid = ground (arith, e);
        requested = ground (arith, e);
        granted = ground (arith, e);
        evidence = (capability, e, (usable_iff capability).0 (ground (arith, e)));
        revision = (revision_fresh request current).0 (ground (arith, e));
      }
    ]

authorize_authorized :
    (a : ControlAuthorizer) (session : ControlSession) (request : ControlRequest)
    (current : Revision)
    → IsAuthorized a session request current
    → authorize a session request current ≡ ok tt
unfolding authorize
authorize_authorized a session request current s =
    let (capability, e, u) = s.evidence in
    ground (
      arith,
      s.authority,
      s.uid,
      s.requested,
      s.granted,
      e,
      (usable_iff capability).1 u,
      (revision_fresh request current).1 s.revision,
    )

-- `authorize` allows exactly the requests of its own sessions whose operation was negotiated and
-- granted, has usable evidence, and expects the current revision if it expects one.
pub authorize_exact :
    (a : ControlAuthorizer) (session : ControlSession) (request : ControlRequest)
    (current : Revision)
    → (authorize a session request current ≡ ok tt) ↔ IsAuthorized a session request current
authorize_exact a session request current =
    (authorized a session request current, authorize_authorized a session request current)

-- What a session that `connect` made holds.
connect_session :
    (a : ControlAuthorizer) (peer : Peer) (handshake : ControlHandshake) (session : ControlSession)
    → connect a peer handshake ≡ ok session
    → (session.authority ≡ a.authority)
      × (session.uid ≡ a.uid)
      × (session.requested ≡ BTreeSet.collect handshake.requested_operations)
unfolding connect
connect_session a peer handshake session h = ground arith

usable-unavailable :
    (a : ControlAuthorizer) (wanted : Operation) → usable (unavailable a wanted) ≡ false
unfolding usable unavailable
usable-unavailable a wanted = ground arith

-- What `negotiated` shows as usable is what was granted and observed so.
usable-negotiated :
    (a : ControlAuthorizer) (wanted : Operation)
    → (usable (negotiated a wanted) ≡ true) ↔ (
        (contains a.granted wanted ≡ true)
        × ((capability : CapabilityRecord) × (get wanted a.capabilities ≡ some capability)
            × IsUsable capability))
unfolding negotiated
usable-negotiated a wanted = elim (Option-cases (get wanted a.capabilities)) [
  | inl e ↦
      (λ h. ground (arith, e, h, usable-unavailable a wanted), λ (g, (c, found, u)). cc (e, found))
  | inr (capability, e) ↦ (
    λ h. (
      ground (arith, e, h, usable-unavailable a wanted),
      (
        capability,
        e,
        (usable_iff capability).0 (ground (arith, e, h, usable-unavailable a wanted)),
      ),
    ),
    λ (g, (c, found, u)). ground (arith, g, found, (usable_iff c).1 u),
  )
]

-- In a session that `connect` made, `authorize` allows exactly the requested operations that
-- `negotiated` shows as usable, unless the request expects another revision.
pub authorize-negotiated :
    (a : ControlAuthorizer) (peer : Peer) (handshake : ControlHandshake) (session : ControlSession)
    (request : ControlRequest) (current : Revision)
    → connect a peer handshake ≡ ok session
    → (authorize a session request current ≡ ok tt) ↔ (
        (contains handshake.requested_operations (operation request.request) ≡ true)
        × (usable (negotiated a (operation request.request)) ≡ true)
        × ((expected : Revision)
            → expected_revision request.request ≡ some expected
            → expected ≡ current))
authorize-negotiated a peer handshake session request current made =
    let wanted = operation request.request in
    let (authority, uid, requested) = connect_session a peer handshake session made in
    let asked : contains session.requested wanted ≡ contains handshake.requested_operations wanted =
      ap (λ s. contains s wanted) requested
      ∙ contains-collect wanted handshake.requested_operations in
    (
      λ h.
          let may = authorized a session request current h in
          (
            sym asked ∙ may.requested,
            (usable-negotiated a wanted).1 (may.granted, may.evidence),
            may.revision,
          ),
      λ (r, u, v).
          let (granted, evidence) = (usable-negotiated a wanted).0 u in
          authorize_authorized a session request current (record {
            authority = authority;
            uid = uid;
            requested = asked ∙ r;
            granted = granted;
            evidence = evidence;
            revision = v;
          }),
    )

-- `connect` makes a session exactly for the control channel of the authorizer's user, with a
-- list of operations without a repetition and no longer than there are operations.
pub connect_control :
    (a : ControlAuthorizer) (peer : Peer) (handshake : ControlHandshake)
    → ((session : ControlSession) × (connect a peer handshake ≡ ok session)) ↔ (
        (peer.channel ≡ Channel.control)
        × (peer.uid ≡ a.uid)
        × Distinct handshake.requested_operations
        × (length handshake.requested_operations ≤ length all_operations))
unfolding connect
connect_control a peer handshake = (
  λ (session, h).
      let full : length (BTreeSet.collect handshake.requested_operations)
          ≡ length handshake.requested_operations =
        ground arith in
      (
        ground arith,
        ground arith,
        collect_full handshake.requested_operations full,
        ground (arith, full),
      ),
  λ (channel, uid, distinct, bounded). (
    record {
      authority = a.authority;
      uid = a.uid;
      requested = BTreeSet.collect handshake.requested_operations;
    },
    ground (arith, channel, uid, bounded, collect-Distinct handshake.requested_operations distinct),
  ),
)
