-- ===== src/Ingestion/Registry/Connecting.antt =====
-- What `connect` of ingestion/registry.rs asks of a peer, and what it grants.
use omarchy_harbormaster.Common.{
  ◌≤◌, ◌≡◌, ◌↔◌, refl, sym, ◌∙◌, subst, false, ◌&&◌, List, some, length, arith, ok, Result-cases,
  Option-cases, contains, inl, inr, nat_eq,
}
use omarchy_harbormaster.Common.BTreeMap.{get}
use omarchy_harbormaster.Common.BTreeSet.{
  BTreeSet, Distinct, collect_full, collect-Distinct, contains-collect, contains-intersection,
}
use omarchy_harbormaster.Common.BTreeSet
use omarchy_harbormaster.Protocol.Identity.{ident_eq}
use omarchy_harbormaster.Protocol.Event.{
  harness_eq, EventHandshake, EventKind, all_kinds, kind_eq, kind_ord,
}
use omarchy_harbormaster.Ingestion.Registry.Types.{
  Registry, Producer, EventSession, Peer, Channel, channel_eq,
}
use omarchy_harbormaster.Ingestion.Registry.{unique_signals, connect}

-- A list of signals without a repetition, no longer than there are kinds.
pub record IsBoundedSet (signals : List EventKind) : Type 0 where
  pub distinct : Distinct signals
  pub bounded : length signals ≤ length all_kinds

pub unique_signals_ok :
    (signals : List EventKind)
    → IsBoundedSet signals
    → unique_signals signals ≡ ok (BTreeSet.collect signals)
unfolding unique_signals
unique_signals_ok signals s = ground (arith, collect-Distinct signals s.distinct, s.bounded)

pub unique_signals_only :
    (signals : List EventKind) (set : BTreeSet EventKind)
    → unique_signals signals ≡ ok set
    → IsBoundedSet signals × (set ≡ BTreeSet.collect signals)
unfolding unique_signals
unique_signals_only signals set h =
    let facts : (length (BTreeSet.collect signals) ≡ length signals)
        × (length signals ≤ length all_kinds)
        × (set ≡ BTreeSet.collect signals) =
      ground arith in
    (record { distinct = collect_full signals facts.0; bounded = facts.1 }, facts.2)

-- The peer may open an event session for this producer.
pub record MayConnect (peer : Peer) (handshake : EventHandshake) (p : Producer) : Type 0 where
  pub channel : peer.channel ≡ Channel.event
  pub uid : peer.uid ≡ p.registration.uid
  pub generation : handshake.generation ≡ p.registration.generation
  pub run : handshake.run_id ≡ p.registration.run_id
  pub harness : handshake.harness ≡ p.registration.harness
  pub unblocked : p.blocked ≡ false
  pub requested : IsBoundedSet handshake.requested_signals
  pub allowed : IsBoundedSet p.registration.allowed_signals

-- A session that speaks for the producer with the requested signals that are allowed.
pub record Grants (r : Registry) (handshake : EventHandshake) (p : Producer)
    (session : EventSession) : Type 0 where
  pub authority : session.authority ≡ r.authority
  pub scope : session.scope ≡ p.scope
  pub producer : session.producer ≡ handshake.producer_id
  pub generation : session.generation ≡ p.registration.generation
  pub signals :
      (k : EventKind)
      → contains session.signals k
        ≡ (contains handshake.requested_signals k && contains p.registration.allowed_signals k)

connect_may :
    (r : Registry) (peer : Peer) (handshake : EventHandshake) (p : Producer)
    (session : EventSession)
    → get handshake.producer_id r.producers ≡ some p
    → connect r peer handshake ≡ ok session
    → MayConnect peer handshake p
unfolding connect
connect_may r peer handshake p session held h = record {
  channel = ground (arith, held);
  uid = ground (arith, held);
  generation = ground (arith, held);
  run = ground (arith, held);
  harness = ground (arith, held);
  unblocked = ground (arith, held);
  requested = elim (Result-cases (unique_signals handshake.requested_signals)) [
    | inl (e, bad) ↦ ground (arith, held, bad)
    | inr (set, good) ↦ (unique_signals_only handshake.requested_signals set good).0
  ];
  allowed = elim (Result-cases (unique_signals p.registration.allowed_signals)) [
    | inl (e, bad) ↦ ground (arith, held, bad)
    | inr (set, good) ↦ (unique_signals_only p.registration.allowed_signals set good).0
  ];
}

connect_found :
    (r : Registry) (peer : Peer) (handshake : EventHandshake) (session : EventSession)
    → connect r peer handshake ≡ ok session
    → (p : Producer) × (get handshake.producer_id r.producers ≡ some p)
unfolding connect
connect_found r peer handshake session h =
    elim (Option-cases (get handshake.producer_id r.producers)) [
      | inl e ↦ ground (arith, e)
      | inr found ↦ found
    ]

-- The session that `connect` makes for this producer.
abbrev granted : Registry → EventHandshake → Producer → EventSession
granted r handshake p = record {
  authority = r.authority;
  scope = p.scope;
  producer = handshake.producer_id;
  generation = handshake.generation;
  signals =
      BTreeSet.intersection (BTreeSet.collect handshake.requested_signals)
        (BTreeSet.collect p.registration.allowed_signals);
}

granted-Grants :
    (r : Registry) (handshake : EventHandshake) (p : Producer)
    → handshake.generation ≡ p.registration.generation
    → Grants r handshake p (granted r handshake p)
granted-Grants r handshake p same = record {
  authority = refl;
  scope = refl;
  producer = refl;
  generation = same;
  signals = λ k. ground (
    arith,
    contains-intersection k (BTreeSet.collect handshake.requested_signals)
        (BTreeSet.collect p.registration.allowed_signals),
    contains-collect k handshake.requested_signals,
    contains-collect k p.registration.allowed_signals,
  );
}

connect_granted :
    (r : Registry) (peer : Peer) (handshake : EventHandshake) (p : Producer)
    → get handshake.producer_id r.producers ≡ some p
    → MayConnect peer handshake p
    → connect r peer handshake ≡ ok (granted r handshake p)
unfolding connect
connect_granted r peer handshake p held may = ground (
  arith,
  held,
  may.channel,
  may.uid,
  may.generation,
  may.run,
  may.harness,
  may.unblocked,
  unique_signals_ok handshake.requested_signals may.requested,
  unique_signals_ok p.registration.allowed_signals may.allowed,
)

-- `connect` makes a session exactly for the event channel of the registered user, with the
-- generation, run and harness of a registered producer that is not blocked and with signal lists
-- that are bounded sets.
pub connect_exact :
    (r : Registry) (peer : Peer) (handshake : EventHandshake)
    → ((session : EventSession) × (connect r peer handshake ≡ ok session)) ↔ (
        (p : Producer) × (get handshake.producer_id r.producers ≡ some p)
        × MayConnect peer handshake p)
connect_exact r peer handshake = (
  λ (session, h).
      let (p, held) = connect_found r peer handshake session h in
      (p, held, connect_may r peer handshake p session held h),
  λ (p, held, may). (granted r handshake p, connect_granted r peer handshake p held may),
)

-- A session that `connect` makes has this registry's authority and its producer's scope and
-- generation, and its signals are those that are both requested and allowed.
pub connect-Grants :
    (r : Registry) (peer : Peer) (handshake : EventHandshake) (session : EventSession)
    → connect r peer handshake ≡ ok session
    → (p : Producer) × (get handshake.producer_id r.producers ≡ some p)
      × Grants r handshake p session
connect-Grants r peer handshake session h =
    let (p, held) = connect_found r peer handshake session h in
    let may = connect_may r peer handshake p session held h in
    let made : ok (granted r handshake p) ≡ ok session =
      sym (connect_granted r peer handshake p held may) ∙ h in
    (p, held, subst (Grants r handshake p) (cc made) (granted-Grants r handshake p may.generation))
