-- ===== src/Ingestion/Registry/Outcomes.antt =====
-- Success, repetition and failure of `admit` of ingestion/registry.rs.
use omarchy_harbormaster.Common.{
  ℕ, ◌≡◌, refl, ap, sym, ◌∙◌, subst, false, List, some, length, arith, Result, ok, err, nat_eq,
}
use omarchy_harbormaster.Common.BTreeMap.{get, get-insert_self}
use omarchy_harbormaster.Protocol.{ProtocolError}
use omarchy_harbormaster.Protocol.Identity.{ProducerId, ident_eq}
use omarchy_harbormaster.Protocol.Event.{EventEnvelope}
use omarchy_harbormaster.Ingestion.{Admission, AdmissionError}
use omarchy_harbormaster.Ingestion.Registry.Types.{Registry, Producer, EventSession}
use omarchy_harbormaster.Ingestion.Registry.Reservation.{
  record_event, reserve, count_rejection, admit, may_reserve, reserve_known, reserve_sequenced,
  sequence,
}
use omarchy_harbormaster.Ingestion.Registry.Reserving.{
  Speaks, refused, blocks, again, admitted, reserve-Reserved, put_same,
}
use omarchy_harbormaster.Ingestion.Registry.Admitting.{Leaves, record_event-Leaves}

count_rejection-ok :
    (out : Result AdmissionError Admission × Registry) (r' : Registry) (admission : Admission)
    → count_rejection out ≡ (ok admission, r')
    → out ≡ (ok admission, r')
unfolding count_rejection
count_rejection-ok (ok a, r) r' admission h = h
count_rejection-ok (err e, r) r' admission h = cc (ap (λ o. o.0) h)

-- `admit` succeeds only where `reserve` does, on a frame that parses and in its own authority.
pub admit_ok :
    (session : EventSession) (frame : List ℕ) (parsed : Result ProtocolError EventEnvelope)
    (r r' : Registry) (admission : Admission)
    → admit session frame parsed r ≡ (ok admission, r')
    → (session.authority ≡ r.authority)
      × ((event : EventEnvelope) × (parsed ≡ ok event)
          × (reserve session event (length frame) r ≡ (ok admission, r')))
unfolding admit count_rejection
admit_ok session frame (err e) r r' admission h = ground arith
admit_ok session frame (ok event) r r' admission h =
    elim (nat_eq.dec session.authority r.authority) [
      | yes same ↦ (
        same,
        (
          event,
          refl,
          count_rejection-ok (reserve session event (length frame) r) r' admission (ground arith),
        ),
      )
      | no other ↦ ground arith
    ]

-- A frame is newly admitted only as an observation of the session's own producer, run and
-- generation, of a negotiated kind and with the very sequence that the unblocked producer expects.
-- It is then the last to wait for that producer, has its receipt, and moves the expected sequence
-- on; other producers are left as they are.
pub admit_queued :
    (session : EventSession) (frame : List ℕ) (parsed : Result ProtocolError EventEnvelope)
    (r r' : Registry)
    → admit session frame parsed r ≡ (ok Admission.queued, r')
    → (event : EventEnvelope) × (p : Producer) × (parsed ≡ ok event)
      × (get session.producer r.producers ≡ some p)
      × Speaks session event p
      × (p.blocked ≡ false)
      × (p.next ≡ some event.seq)
      × Leaves r session.producer event (length frame) r'
admit_queued session frame parsed r r' h =
    let (_, (event, parse, reserved)) = admit_ok session frame parsed r r' Admission.queued h in
    elim (reserve-Reserved session event (length frame) r) [
      | refused e out ↦ cc (ap (λ o. o.0) (sym out ∙ reserved))
      | blocks e p _ _ out ↦ cc (ap (λ o. o.0) (sym out ∙ reserved))
      | again p _ _ _ _ out ↦ cc (ap (λ o. o.0) (sym out ∙ reserved))
      | admitted p held speaks b n _ _ _ _ out ↦ (
        event,
        p,
        parse,
        held,
        speaks,
        b,
        n,
        subst (Leaves r session.producer event (length frame)) (ap (λ o. o.1) (sym out ∙ reserved))
            (record_event-Leaves r session.producer p event (length frame) speaks.event_producer b),
      )
    ]

may_reserve_made :
    (session : EventSession) (event : EventEnvelope) (p : Producer)
    → Speaks session event p
    → may_reserve session event p ≡ ok tt
unfolding may_reserve
may_reserve_made session event p s = ground arith

reserve_again :
    (session : EventSession) (event : EventEnvelope) (bytes : ℕ) (r : Registry) (p : Producer)
    → get session.producer r.producers ≡ some p
    → Speaks session event p
    → p.blocked ≡ false
    → get event.seq p.receipts ≡ some event
    → reserve session event bytes r ≡ (ok Admission.already_admitted, r)
unfolding reserve reserve_known reserve_sequenced sequence
reserve_again session event bytes r p held speaks b receipt = ground (
  arith,
  held,
  may_reserve_made session event p speaks,
  b,
  receipt,
  put_same r session.producer p held,
)

record_event_again :
    (session : EventSession) (event : EventEnvelope) (bytes : ℕ) (r : Registry) (p : Producer)
    → Speaks session event p
    → p.blocked ≡ false
    → reserve session event bytes (record_event session.producer p event bytes r)
      ≡ (ok Admission.already_admitted, record_event session.producer p event bytes r)
unfolding record_event
record_event_again session event bytes r p speaks b =
    reserve_again session event bytes _ _ (get-insert_self session.producer _ r.producers)
      (record {
        scope = speaks.scope;
        generation = speaks.generation;
        event_generation = speaks.event_generation;
        event_producer = speaks.event_producer;
        event_run = speaks.event_run;
        negotiated = speaks.negotiated;
      })
      b (get-insert_self event.seq event p.receipts)

admit_reserved :
    (session : EventSession) (frame : List ℕ) (event : EventEnvelope) (r : Registry)
    (admission : Admission)
    → session.authority ≡ r.authority
    → reserve session event (length frame) r ≡ (ok admission, r)
    → admit session frame (ok event) r ≡ (ok admission, r)
unfolding admit count_rejection
admit_reserved session frame event r admission same h = ground (arith, same, h)

authority-record_event :
    (id : ProducerId) (p : Producer) (event : EventEnvelope) (bytes : ℕ) (r : Registry)
    → (record_event id p event bytes r).authority ≡ r.authority
unfolding record_event
authority-record_event id p event bytes r = refl

-- A frame that was just admitted is recognised when it comes again, and changes nothing.
pub admit_again :
    (session : EventSession) (frame : List ℕ) (parsed : Result ProtocolError EventEnvelope)
    (r r' : Registry)
    → admit session frame parsed r ≡ (ok Admission.queued, r')
    → admit session frame parsed r' ≡ (ok Admission.already_admitted, r')
admit_again session frame parsed r r' h =
    let (same, (event, parse, reserved)) = admit_ok session frame parsed r r' Admission.queued h in
    elim (reserve-Reserved session event (length frame) r) [
      | refused e out ↦ cc (ap (λ o. o.0) (sym out ∙ reserved))
      | blocks e p _ _ out ↦ cc (ap (λ o. o.0) (sym out ∙ reserved))
      | again p _ _ _ _ out ↦ cc (ap (λ o. o.0) (sym out ∙ reserved))
      | admitted p held speaks b _ _ _ _ _ out ↦
          let left = ap (λ o. o.1) (sym reserved ∙ out) in
          let stays =
            admit_reserved session frame event _ Admission.already_admitted
              (same ∙ sym (authority-record_event session.producer p event (length frame) r))
              (record_event_again session event (length frame) r p speaks b) in
          rw parse (
            subst (λ s. admit session frame (ok event) s ≡ (ok Admission.already_admitted, s))
              (sym left) stays)
    ]
