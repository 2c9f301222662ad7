-- ===== src/Ingestion/Registry/Reserving.antt =====
-- What `admit` of ingestion/registry.rs can do, on every branch.
use omarchy_harbormaster.Common.{
  ℕ, ◌≡◌, refl, ap, ◌∙◌, subst, true, false, none, some, arith, inl, inr, Result, ok, err,
  Option-cases, Bool-cases, Result-cases, ltb, nat_eq, contains,
}
use omarchy_harbormaster.Common.BTreeMap.{get, is_some, insert_same}
use omarchy_harbormaster.Protocol.Identity.{ProducerId, ident_eq}
use omarchy_harbormaster.Protocol.Event.{EventEnvelope, envelope_eq, kind, kind_eq}
use omarchy_harbormaster.Ingestion.{Admission, AdmissionError}
use omarchy_harbormaster.Ingestion.Queue.{has_room}
use omarchy_harbormaster.Ingestion.Registry.Types.{Registry, Producer, EventSession}
use omarchy_harbormaster.Ingestion.Registry.Reservation.{
  may_reserve, put, record_event, receipts_full, reserve_new, reserve_sequenced, reserve_known,
  reserve, sequence, sequence_new,
}

-- The session speaks for the producer and the event.
pub record Speaks (session : EventSession) (event : EventEnvelope) (p : Producer) : Type 0 where
  pub scope : session.scope ≡ p.scope
  pub generation : session.generation ≡ p.registration.generation
  pub event_generation : event.generation ≡ session.generation
  pub event_producer : event.producer_id ≡ session.producer
  pub event_run : event.run_id ≡ p.registration.run_id
  pub negotiated : contains session.signals (kind event.event) ≡ true

may_reserve_facts :
    (session : EventSession) (event : EventEnvelope) (p : Producer)
    → may_reserve session event p ≡ ok tt
    → Speaks session event p
unfolding may_reserve
may_reserve_facts session event p h = ground arith

-- The verdict of `sequence`, with the producer that it leaves.
pub data Sequenced (p : Producer) (event : EventEnvelope)
    (out : Result AdmissionError Admission × Producer) : Type 0 where
  refused : (e : AdmissionError) → out ≡ (err e, p) → Sequenced p event out
  blocks : (e : AdmissionError) → out ≡ (err e, record p { blocked = true }) → Sequenced p event out
  again :
      p.blocked ≡ false
      → get event.seq p.receipts ≡ some event
      → out ≡ (ok Admission.already_admitted, p)
      → Sequenced p event out
  fresh :
      p.blocked ≡ false
      → p.next ≡ some event.seq
      → get event.seq p.receipts ≡ none
      → get event.event_id p.event_ids ≡ none
      → out ≡ (ok Admission.queued, p)
      → Sequenced p event out

sequence_new-Sequenced :
    (p : Producer) (event : EventEnvelope)
    → p.blocked ≡ false
    → get event.seq p.receipts ≡ none
    → Sequenced p event (sequence_new p event)
unfolding sequence_new
sequence_new-Sequenced p event b n = elim (Bool-cases (is_some (get event.event_id p.event_ids))) [
  | inl known ↦ rw (known, sequence_new) (blocks AdmissionError.conflict refl)
  | inr unknown ↦ elim (Option-cases p.next) [
    | inl e ↦ refused AdmissionError.reconciliation_required (ground (arith, unknown, e))
    | inr (next, e) ↦ elim (Bool-cases (ltb event.seq next)) [
      | inl old ↦ refused AdmissionError.replay_rejected (ground (arith, unknown, e, old))
      | inr reached ↦ elim (Bool-cases (ltb next event.seq)) [
        | inl gap ↦ blocks AdmissionError.sequence_gap (ground (arith, unknown, e, reached, gap))
        | inr exact ↦
            fresh b (ground (arith, e, reached, exact)) n (ground (arith, unknown))
              (ground (arith, unknown, e, reached, exact))
      ]
    ]
  ]
]

sequence-Sequenced : (p : Producer) (event : EventEnvelope) → Sequenced p event (sequence p event)
unfolding sequence
sequence-Sequenced p event = elim (Bool-cases p.blocked) [
  | inl b ↦ refused AdmissionError.reconciliation_required (rw b)
  | inr b ↦ elim (Option-cases (get event.seq p.receipts)) [
    | inl n ↦ subst (Sequenced p event) (ground (arith, b, n)) (sequence_new-Sequenced p event b n)
    | inr (previous, e) ↦ elim (envelope_eq.dec previous event) [
      | yes same ↦ again b (e ∙ ap some same) (ground (arith, b, e, same))
      | no other ↦ blocks AdmissionError.conflict (ground (arith, b, e, other))
    ]
  ]
]

-- What `reserve` can do: it refuses and changes nothing, it refuses and blocks the session's
-- producer, it finds the event's receipt and changes nothing, or it admits the event.
pub data Reserved (session : EventSession) (event : EventEnvelope) (bytes : ℕ) (r : Registry)
    (out : Result AdmissionError Admission × Registry) : Type 0 where
  refused : (e : AdmissionError) → out ≡ (err e, r) → Reserved session event bytes r out
  blocks :
      (e : AdmissionError) (p : Producer)
      → get session.producer r.producers ≡ some p
      → Speaks session event p
      → out ≡ (err e, put session.producer (record p { blocked = true }) r)
      → Reserved session event bytes r out
  again :
      (p : Producer)
      → get session.producer r.producers ≡ some p
      → Speaks session event p
      → p.blocked ≡ false
      → get event.seq p.receipts ≡ some event
      → out ≡ (ok Admission.already_admitted, r)
      → Reserved session event bytes r out
  admitted :
      (p : Producer)
      → get session.producer r.producers ≡ some p
      → Speaks session event p
      → p.blocked ≡ false
      → p.next ≡ some event.seq
      → get event.seq p.receipts ≡ none
      → get event.event_id p.event_ids ≡ none
      → has_room r.queue session.producer ≡ true
      → receipts_full p bytes r ≡ false
      → out ≡ (ok Admission.queued, record_event session.producer p event bytes r)
      → Reserved session event bytes r out

-- Putting a producer back unchanged changes nothing.
pub put_same :
    (r : Registry) (id : ProducerId) (p : Producer) → get id r.producers ≡ some p → put id p r ≡ r
put_same r id p h = ap (λ m. record r { producers = m }) (insert_same id p r.producers h)

module _ (session : EventSession) (event : EventEnvelope) (bytes : ℕ) (r : Registry) (p : Producer)
    (held : get session.producer r.producers ≡ some p) (speaks : Speaks session event p) where
  reserve_new-Reserved :
      p.blocked ≡ false
      → p.next ≡ some event.seq
      → get event.seq p.receipts ≡ none
      → get event.event_id p.event_ids ≡ none
      → Reserved session event bytes r (reserve_new session.producer p event bytes r)
  unfolding reserve_new
  reserve_new-Reserved b n unseen fresh_id = elim (Bool-cases (has_room r.queue session.producer)) [
    | inr full ↦ refused AdmissionError.queue_full (ground (arith, full))
    | inl room ↦ elim (Bool-cases (receipts_full p bytes r)) [
      | inl full ↦
          blocks AdmissionError.reconciliation_required p held speaks (ground (arith, room, full))
      | inr space ↦
          admitted p held speaks b n unseen fresh_id room space (ground (arith, room, space))
    ]
  ]

  reserve_sequenced-Reserved :
      (out : Result AdmissionError Admission × Producer)
      → Sequenced p event out
      → Reserved session event bytes r (reserve_sequenced session.producer event bytes r out)
  unfolding reserve_sequenced
  reserve_sequenced-Reserved out (Sequenced.refused e h) =
      rw h (refused e (ap (λ s. (err e, s)) (put_same r session.producer p held)))
  reserve_sequenced-Reserved out (Sequenced.blocks e h) = rw h (blocks e p held speaks refl)
  reserve_sequenced-Reserved out (Sequenced.again b h h') = rw h' (
      again p held speaks b h
        (ap (λ s. (ok Admission.already_admitted, s)) (put_same r session.producer p held)))
  reserve_sequenced-Reserved out (Sequenced.fresh b n unseen fresh_id h) =
      rw (h, put_same r session.producer p held) (reserve_new-Reserved b n unseen fresh_id)

  reserve_known-Reserved :
      may_reserve session event p ≡ ok tt
      → Reserved session event bytes r (reserve_known session event bytes r p)
  unfolding reserve_known
  reserve_known-Reserved h =
      rw (h, reserve_known)
        (reserve_sequenced-Reserved (sequence p event) (sequence-Sequenced p event))

-- `reserve` does one of these on every input.
pub reserve-Reserved :
    (session : EventSession) (event : EventEnvelope) (bytes : ℕ) (r : Registry)
    → Reserved session event bytes r (reserve session event bytes r)
unfolding reserve reserve_known
reserve-Reserved session event bytes r = elim (Option-cases (get session.producer r.producers)) [
  | inl e ↦ rw (e, reserve) (refused AdmissionError.unknown_producer refl)
  | inr (p, e) ↦
      rw (e, reserve)
        (elim (Result-cases (may_reserve session event p)) [
          | inl (error, bad) ↦ rw (bad, reserve_known) (refused error refl)
          | inr (_, good) ↦
              reserve_known-Reserved session event bytes r p e
                (may_reserve_facts session event p good) good
        ])
]
