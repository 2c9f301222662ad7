-- ===== src/Ingestion/Registry/Sessions.antt =====
-- What revokes a session of ingestion/registry.rs, and that it stays revoked.
use omarchy_harbormaster.Common.{
  ℕ, ◌+◌, ◌≤◌, ◌<◌, ◌≡◌, ◌≢◌, refl, ap, sym, ◌∙◌, true, List, [], ◌∷◌, Option, none, some, length,
  arith, inl, inr, Result, ok, err, Option-cases, Result-cases,
}
use omarchy_harbormaster.Common.BTreeMap.{get, insert, get-insert_self}
use omarchy_harbormaster.Protocol.{ProtocolError}
use omarchy_harbormaster.Protocol.Identity.{ProducerId, ProducerGeneration, Seq, ident_eq}
use omarchy_harbormaster.Protocol.Event.{EventEnvelope, EventHandshake}
use omarchy_harbormaster.Ingestion.{Admission, AdmissionError}
use omarchy_harbormaster.Ingestion.Registry.Types.{
  Registry, Producer, ProducerRegistration, EventSession, Peer, new_producer,
}
use omarchy_harbormaster.Ingestion.Registry.{
  register, install_committed, may_install, replace_producer, enroll, rescope, renew, renewed,
  invalidate, invalidate_generation, reconcile, pop, discard_queued, connect,
}
use omarchy_harbormaster.Ingestion.Registry.Reservation.{
  admit, reserve, record_event, count_rejection,
}
use omarchy_harbormaster.Ingestion.Registry.Soundness.{IsSound}
use omarchy_harbormaster.Ingestion.Registry.Reserving.{
  refused, blocks, again, admitted, reserve-Reserved,
}
use omarchy_harbormaster.Ingestion.Registry.History.{Call, step, run}
use omarchy_harbormaster.Ingestion.Registry.Outcomes.{admit_ok}
use omarchy_harbormaster.Ingestion.Registry.Revocation.{IsRevoked, OtherScope, run-IsRevoked}

reserve_revoked :
    (session : EventSession) (event : EventEnvelope) (bytes : ℕ) (r s : Registry)
    (admission : Admission)
    → OtherScope session.scope (get session.producer r.producers)
    → reserve session event bytes r ≢ (ok admission, s)
reserve_revoked session event bytes r s admission other reserved =
    elim (reserve-Reserved session event bytes r) [
      | refused e out ↦ cc (ap (λ o. o.0) (sym out ∙ reserved))
      | blocks e p _ _ out ↦ cc (ap (λ o. o.0) (sym out ∙ reserved))
      | again p held speaks _ _ _ ↦ ground (arith, held, speaks.scope, other)
      | admitted p held speaks _ _ _ _ _ _ _ ↦ ground (arith, held, speaks.scope, other)
    ]

admit_revoked :
    (session : EventSession) (frame : List ℕ) (parsed : Result ProtocolError EventEnvelope)
    (r : Registry)
    → IsRevoked session.producer session.scope r
    → (e : AdmissionError) × ((admit session frame parsed r).0 ≡ err e)
admit_revoked session frame parsed r s = elim (Result-cases (admit session frame parsed r).0) [
  | inl refusal ↦ refusal
  | inr (admission, passed) ↦
      let (_, (event, _, reserved)) =
        admit_ok session frame parsed r (admit session frame parsed r).1 admission
          (ap (λ x. (x, (admit session frame parsed r).1)) passed) in
      ground (arith, reserve_revoked session event (length frame) r _ admission s.other reserved)
]

reserve-allocated :
    (session : EventSession) (event : EventEnvelope) (bytes : ℕ) (r : Registry)
    → (reserve session event bytes r).1.allocated ≡ r.allocated
unfolding record_event
reserve-allocated session event bytes r = elim (reserve-Reserved session event bytes r) [
  | refused e out ↦ rw out refl
  | blocks e p _ _ out ↦ rw out refl
  | again p _ _ _ _ out ↦ rw out refl
  | admitted p _ _ _ _ _ _ _ _ out ↦ rw out refl
]

admit-allocated :
    (session : EventSession) (frame : List ℕ) (parsed : Result ProtocolError EventEnvelope)
    (r : Registry)
    → (admit session frame parsed r).1.allocated ≡ r.allocated
unfolding admit count_rejection
admit-allocated session frame (err e) r = ground arith
admit-allocated session frame (ok event) r =
    ground (arith, reserve-allocated session event (length frame) r)

allocated-step : (c : Call) (r : Registry) → r.allocated ≤ (step c r).allocated
unfolding step register install_committed invalidate invalidate_generation reconcile pop
    replace_producer enroll rescope renew discard_queued
allocated-step (Call.registers registration) r = ground arith
allocated-step (Call.installs registration) r = ground arith
allocated-step (Call.invalidates id) r = ground arith
allocated-step (Call.invalidates_generation id generation) r = ground arith
allocated-step (Call.admits session frame parsed) r =
    omega (arith, admit-allocated session frame parsed r)
allocated-step (Call.reconciles id next fresh) r = ground arith
allocated-step Call.pops r = ground arith

allocated-run : (cs : List Call) (r : Registry) → r.allocated ≤ (run cs r).allocated
unfolding run
allocated-run [] r = omega arith
allocated-run (c ∷ cs) r = omega (arith, allocated-step c r, allocated-run cs (step c r))

-- The calls that take a producer's sessions away, where they succeed.
pub data Revokes (id : ProducerId) (r : Registry) (c : Call) : Type 0 where
  invalidated : (n : ℕ) → c ≡ Call.invalidates id → (invalidate id r).0 ≡ ok n → Revokes id r c
  reconciled :
      (next : Seq) (fresh : Option ProducerGeneration) (generation : ProducerGeneration)
      → c ≡ Call.reconciles id next fresh
      → (reconcile id next fresh r).0 ≡ ok generation
      → Revokes id r c
  installed :
      (registration : ProducerRegistration) (n : ℕ)
      → registration.producer_id ≡ id
      → c ≡ Call.installs registration
      → (install_committed registration r).0 ≡ ok n
      → Revokes id r c

revoke :
    (id : ProducerId) (scope : ℕ) (p : Producer) (r r' : Registry)
    → scope < r.allocated
    → r'.producers ≡ insert id p r.producers
    → p.scope ≡ r.allocated
    → r'.allocated ≡ r.allocated + 1
    → IsRevoked id scope r'
revoke id scope p r r' old e new more = record {
  spent = omega (arith, old, more);
  other = rw (e, get-insert_self id p r.producers) (ground (arith, old, new));
}

invalidate-revokes :
    (id : ProducerId) (scope n : ℕ) (r : Registry)
    → scope < r.allocated
    → (invalidate id r).0 ≡ ok n
    → IsRevoked id scope (invalidate id r).1
unfolding invalidate rescope discard_queued
invalidate-revokes id scope n r old done = elim (Option-cases (get id r.producers)) [
  | inl e ↦ ground (arith, e, done)
  | inr (p, e) ↦
      rw (e, invalidate)
        (revoke id scope (record p { blocked = true; scope = r.allocated }) r _ old refl refl refl)
]

install_committed-revokes :
    (registration : ProducerRegistration) (scope n : ℕ) (r : Registry)
    → scope < r.allocated
    → (install_committed registration r).0 ≡ ok n
    → IsRevoked registration.producer_id scope (install_committed registration r).1
unfolding install_committed replace_producer enroll discard_queued new_producer
install_committed-revokes registration scope n r old done =
    elim (Result-cases (may_install r registration)) [
      | inl (e, failed) ↦ ground (arith, failed, done)
      | inr ((receipts, bytes), passed) ↦
          rw (passed, install_committed)
            (revoke registration.producer_id scope (new_producer r.allocated registration) r _ old
              refl refl refl)
    ]

reconcile-revokes :
    (id : ProducerId) (next : Seq) (fresh : Option ProducerGeneration)
    (generation : ProducerGeneration) (scope : ℕ) (r : Registry)
    → scope < r.allocated
    → (reconcile id next fresh r).0 ≡ ok generation
    → IsRevoked id scope (reconcile id next fresh r).1
unfolding reconcile renew rescope discard_queued
reconcile-revokes id next none generation scope r old done = ground arith
reconcile-revokes id next (some given) generation scope r old done =
    elim (Option-cases (get id r.producers)) [
      | inl e ↦ ground (arith, e, done)
      | inr (p, e) ↦
          rw (e, reconcile)
            (ground (
              arith,
              e,
              done,
              revoke id scope (record (renewed p given next) { scope = r.allocated }) r
                  (renew id p given next r) old refl refl refl,
            ))
    ]

Revokes-IsRevoked :
    (id : ProducerId) (scope : ℕ) (r : Registry) (c : Call)
    → scope < r.allocated
    → Revokes id r c
    → IsRevoked id scope (step c r)
unfolding step
Revokes-IsRevoked id scope r c old (invalidated n e done) =
    rw e (invalidate-revokes id scope n r old done)
Revokes-IsRevoked id scope r c old (reconciled next fresh generation e done) =
    rw e (reconcile-revokes id next fresh generation scope r old done)
Revokes-IsRevoked id scope r c old (installed registration n same e done) =
    rw (e, ← same) (install_committed-revokes registration scope n r old done)

connect_scope :
    (r : Registry) (peer : Peer) (handshake : EventHandshake) (session : EventSession)
    → IsSound r
    → connect r peer handshake ≡ ok session
    → session.scope < r.allocated
unfolding connect
connect_scope r peer handshake session s h = ground (arith, s.each handshake.producer_id)

-- A session that a sound registry made admits nothing once its producer was invalidated,
-- reconciled or replaced, whatever calls came before and come after.
pub revoked_forever :
    (r : Registry) (peer : Peer) (handshake : EventHandshake) (session : EventSession)
    (before after : List Call) (c : Call) (frame : List ℕ)
    (parsed : Result ProtocolError EventEnvelope)
    → IsSound r
    → connect r peer handshake ≡ ok session
    → Revokes session.producer (run before r) c
    → (e : AdmissionError) × ((admit session frame parsed (run after (step c (run before r)))).0
        ≡ err e)
revoked_forever r peer handshake session before after c frame parsed s made revokes =
    let old : session.scope < (run before r).allocated =
      omega (arith, connect_scope r peer handshake session s made, allocated-run before r) in
    admit_revoked session frame parsed (run after (step c (run before r))) (
      run-IsRevoked session.producer session.scope after (step c (run before r))
        (Revokes-IsRevoked session.producer session.scope (run before r) c old revokes))
