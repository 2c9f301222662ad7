-- ===== src/Ingestion/Registry/Revocation.antt =====
-- Sessions of ingestion/registry.rs whose producer has a new scope.
use omarchy_harbormaster.Common.{
  ℕ, ◌≤◌, ◌<◌, ◌≡◌, ◌≢◌, ◌⊎◌, refl, true, List, [], ◌∷◌, Option, none, some, length, arith, inl,
  inr, Result, ok, err, Option-cases, Result-cases,
}
use omarchy_harbormaster.Common.BTreeMap.{get, insert, get-insert_self, get-insert_other}
use omarchy_harbormaster.Protocol.{ProtocolError}
use omarchy_harbormaster.Protocol.Identity.{ProducerId, ProducerGeneration, Seq, ident_eq}
use omarchy_harbormaster.Protocol.Event.{EventEnvelope}
use omarchy_harbormaster.Ingestion.{Admission, AdmissionError}
use omarchy_harbormaster.Ingestion.Registry.Types.{
  Registry, Producer, ProducerRegistration, EventSession, new_producer,
}
use omarchy_harbormaster.Ingestion.Registry.{
  register, may_register, install_committed, may_install, replace_producer, enroll, rescope, renew,
  renewed, invalidate, invalidate_generation, reconcile, pop, discard_queued,
}
use omarchy_harbormaster.Ingestion.Registry.Reservation.{
  admit, reserve, record_event, count_rejection,
}
use omarchy_harbormaster.Ingestion.Registry.Reserving.{
  refused, blocks, again, admitted, reserve-Reserved,
}
use omarchy_harbormaster.Ingestion.Registry.History.{Call, step, run}

-- A producer of another scope, or no producer.
abbrev pub OtherScope : ℕ → Option Producer → Type 0
OtherScope scope none = Unit
OtherScope scope (some p) = p.scope ≢ scope

-- The producer of this id has another scope, and the scope will not be handed out again.
pub record IsRevoked (id : ProducerId) (scope : ℕ) (r : Registry) : Type 0 where
  pub spent : scope < r.allocated
  pub other : OtherScope scope (get id r.producers)

-- One producer is put in place with its old scope or a new one.
update-IsRevoked :
    (id j : ProducerId) (scope : ℕ) (p : Producer) (r r' : Registry)
    → IsRevoked id scope r
    → r'.producers ≡ insert j p r.producers
    → r.allocated ≤ r'.allocated
    → (p.scope ≡ r.allocated)
      ⊎ ((old : Producer) × (get j r.producers ≡ some old) × (p.scope ≡ old.scope))
    → IsRevoked id scope r'
update-IsRevoked id j scope p r r' s e later kept = record {
  spent = omega (arith, s.spent);
  other = elim (ident_eq.dec j id) [
    | yes same ↦
        rw (e, same, get-insert_self id p r.producers)
          (ground (arith, s.spent, s.other, kept, same))
    | no apart ↦ rw (e, get-insert_other id j p r.producers apart) s.other
  ];
}

-- The same producers in a later registry.
keep-IsRevoked :
    (id : ProducerId) (scope : ℕ) (r r' : Registry)
    → IsRevoked id scope r
    → r'.producers ≡ r.producers
    → r'.allocated ≡ r.allocated
    → IsRevoked id scope r'
keep-IsRevoked id scope r r' s e a = record {
  spent = omega (arith, s.spent, a);
  other = rw e s.other;
}

register-IsRevoked :
    (id : ProducerId) (scope : ℕ) (registration : ProducerRegistration) (r : Registry)
    → IsRevoked id scope r
    → IsRevoked id scope (register registration r).1
unfolding register enroll new_producer
register-IsRevoked id scope registration r s = elim (Result-cases (may_register r registration)) [
  | inl (e, failed) ↦ rw (failed, register) s
  | inr (_, passed) ↦
      rw (passed, register)
        (update-IsRevoked id registration.producer_id scope (new_producer r.allocated registration)
          r (enroll registration r) s refl (omega arith) (inl refl))
]

install_committed-IsRevoked :
    (id : ProducerId) (scope : ℕ) (registration : ProducerRegistration) (r : Registry)
    → IsRevoked id scope r
    → IsRevoked id scope (install_committed registration r).1
unfolding install_committed replace_producer enroll new_producer discard_queued
install_committed-IsRevoked id scope registration r s =
    elim (Result-cases (may_install r registration)) [
      | inl (e, failed) ↦ rw (failed, install_committed) s
      | inr ((receipts, bytes), passed) ↦
          rw (passed, install_committed)
            (update-IsRevoked id registration.producer_id scope
              (new_producer r.allocated registration) r _ s refl (omega arith) (inl refl))
    ]

invalidate-IsRevoked :
    (id : ProducerId) (scope : ℕ) (j : ProducerId) (r : Registry)
    → IsRevoked id scope r
    → IsRevoked id scope (invalidate j r).1
unfolding invalidate rescope discard_queued
invalidate-IsRevoked id scope j r s = elim (Option-cases (get j r.producers)) [
  | inl e ↦ rw (e, invalidate) s
  | inr (p, e) ↦
      rw (e, invalidate)
        (update-IsRevoked id j scope (record p { blocked = true; scope = r.allocated }) r _ s refl
          (omega arith) (inl refl))
]

reconcile-IsRevoked :
    (id : ProducerId) (scope : ℕ) (j : ProducerId) (next : Seq) (fresh : Option ProducerGeneration)
    (r : Registry)
    → IsRevoked id scope r
    → IsRevoked id scope (reconcile j next fresh r).1
unfolding reconcile renew rescope discard_queued
reconcile-IsRevoked id scope j next none r s = ground (arith, s)
reconcile-IsRevoked id scope j next (some generation) r s =
    elim (Option-cases (get j r.producers)) [
      | inl e ↦ rw (e, reconcile) s
      | inr (p, e) ↦
          rw (e, reconcile)
            (ground (
              arith,
              s,
              update-IsRevoked id j scope
                  (record (renewed p generation next) { scope = r.allocated }) r
                  (renew j p generation next r) s refl (omega arith) (inl refl),
            ))
    ]

reserve-IsRevoked :
    (id : ProducerId) (scope : ℕ) (session : EventSession) (event : EventEnvelope) (bytes : ℕ)
    (r : Registry)
    → IsRevoked id scope r
    → IsRevoked id scope (reserve session event bytes r).1
unfolding record_event
reserve-IsRevoked id scope session event bytes r s = elim (reserve-Reserved session event bytes r) [
  | refused e h ↦ rw h s
  | blocks e p held _ h ↦ rw h (
      update-IsRevoked id session.producer scope (record p { blocked = true }) r _ s refl
        (omega arith) (inr (p, held, refl)))
  | again p _ _ _ _ h ↦ rw h s
  | admitted p held _ _ _ _ _ _ _ h ↦ rw h (
      update-IsRevoked id session.producer scope _ r (record_event session.producer p event bytes r)
        s refl (omega arith) (inr (p, held, refl)))
]

count_rejection-IsRevoked :
    (id : ProducerId) (scope : ℕ) (out : Result AdmissionError Admission × Registry)
    → IsRevoked id scope out.1
    → IsRevoked id scope (count_rejection out).1
unfolding count_rejection
count_rejection-IsRevoked id scope (ok admission, r) s = s
count_rejection-IsRevoked id scope (err e, r) s = keep-IsRevoked id scope r _ s refl refl

admit-IsRevoked :
    (id : ProducerId) (scope : ℕ) (session : EventSession) (frame : List ℕ)
    (parsed : Result ProtocolError EventEnvelope) (r : Registry)
    → IsRevoked id scope r
    → IsRevoked id scope (admit session frame parsed r).1
unfolding admit
admit-IsRevoked id scope session frame (err e) r s =
    ground (arith, s, count_rejection-IsRevoked id scope (err (AdmissionError.protocol e), r) s)
admit-IsRevoked id scope session frame (ok event) r s = ground (
  arith,
  s,
  count_rejection-IsRevoked id scope (reserve session event (length frame) r)
      (reserve-IsRevoked id scope session event (length frame) r s),
)

step-IsRevoked :
    (id : ProducerId) (scope : ℕ) (c : Call) (r : Registry)
    → IsRevoked id scope r
    → IsRevoked id scope (step c r)
unfolding step invalidate_generation pop
step-IsRevoked id scope (Call.registers registration) r s =
    register-IsRevoked id scope registration r s
step-IsRevoked id scope (Call.installs registration) r s =
    install_committed-IsRevoked id scope registration r s
step-IsRevoked id scope (Call.invalidates j) r s = invalidate-IsRevoked id scope j r s
step-IsRevoked id scope (Call.invalidates_generation j generation) r s =
    ground (arith, s, invalidate-IsRevoked id scope j r s)
step-IsRevoked id scope (Call.admits session frame parsed) r s =
    admit-IsRevoked id scope session frame parsed r s
step-IsRevoked id scope (Call.reconciles j next fresh) r s =
    reconcile-IsRevoked id scope j next fresh r s
step-IsRevoked id scope Call.pops r s = keep-IsRevoked id scope r _ s refl refl

pub run-IsRevoked :
    (id : ProducerId) (scope : ℕ) (cs : List Call) (r : Registry)
    → IsRevoked id scope r
    → IsRevoked id scope (run cs r)
unfolding run
run-IsRevoked id scope [] r s = s
run-IsRevoked id scope (c ∷ cs) r s =
    run-IsRevoked id scope cs (step c r) (step-IsRevoked id scope c r s)
