-- ===== src/Ingestion/Registry/Admitting.antt =====
-- The results of `admit` of ingestion/registry.rs, and that it keeps the registry sound.
use omarchy_harbormaster.Common.{
  ℕ, suc, ◌+◌, ◌-◌, ◌≤◌, ◌<◌, ◌≡◌, ◌≢◌, refl, ap, true, false, List, [], ◌∷◌, ◌++◌, none, some,
  length, arith, inl, Result, ok, err, nat_eq,
}
use omarchy_harbormaster.Common.BTreeMap.{
  get, insert, len, get-insert_self, get-insert_other, len-insert,
}
use omarchy_harbormaster.Protocol.{ProtocolError}
use omarchy_harbormaster.Protocol.Identity.{ProducerId, ident_eq, checked_next}
use omarchy_harbormaster.Protocol.Event.{EventEnvelope, envelope_eq, kind_eq}
use omarchy_harbormaster.Ingestion.{
  Admission, AdmissionError, max_producer_receipts, max_receipts, max_receipt_bytes,
}
use omarchy_harbormaster.Ingestion.Queue.{has_room, pending}
use omarchy_harbormaster.Ingestion.Queue.Fifo.{pending-push}
use omarchy_harbormaster.Ingestion.Queue.Capacity.{push-Fits}
use omarchy_harbormaster.Ingestion.Registry.Types.{Registry, Producer, EventSession}
use omarchy_harbormaster.Ingestion.Registry.Soundness.{IsSound, receipt_count, update-IsSound}
use omarchy_harbormaster.Ingestion.Registry.Reservation.{
  put, record_event, receipts_full, reserve, count_rejection, admit,
}
use omarchy_harbormaster.Ingestion.Registry.Reserving.{
  refused, blocks, again, admitted, reserve-Reserved,
}

-- A producer with room for one more receipt of this size.
receipts_room :
    (p : Producer) (bytes : ℕ) (r : Registry)
    → receipts_full p bytes r ≡ false
    → (receipt_count p < max_producer_receipts)
      × (r.receipts < max_receipts)
      × (bytes ≤ max_receipt_bytes - r.receipt_bytes)
unfolding receipts_full
receipts_room p bytes r h = ground arith

receipt_count-insert :
    (p : Producer) (event : EventEnvelope)
    → get event.seq p.receipts ≡ none
    → len (insert event.seq event p.receipts) ≡ suc (len p.receipts)
receipt_count-insert p event h = ground (arith, len-insert event.seq event p.receipts)

record_event-IsSound :
    (r : Registry) (id : ProducerId) (p : Producer) (event : EventEnvelope) (bytes : ℕ)
    → IsSound r
    → get id r.producers ≡ some p
    → event.producer_id ≡ id
    → get event.seq p.receipts ≡ none
    → has_room r.queue id ≡ true
    → receipts_full p bytes r ≡ false
    → IsSound (record_event id p event bytes r)
unfolding record_event
record_event-IsSound r id p event bytes s held mine unseen room space =
    let fits = receipts_room p bytes r space in
    let more = receipt_count-insert p event unseen in
    update-IsSound r _ id _ s refl (ground (arith, held, more)) (ground (arith, held))
      (omega (arith, fits.1)) (omega (arith, fits.2, s.bytes_fit)) (inl (ground (arith, held)))
      (omega arith) (ground (arith, s.each id, held, more, fits.0))
      (push-Fits r.queue event (rw mine room) s.queue_fits)
      (λ j other n. ground (arith, (pending-push r.queue event j).0, mine, other, s.known j n))

-- A producer changed in place, with its receipts.
put-IsSound :
    (r : Registry) (id : ProducerId) (old p : Producer)
    → IsSound r
    → get id r.producers ≡ some old
    → p.receipts ≡ old.receipts
    → p.bytes ≡ old.bytes
    → p.scope ≡ old.scope
    → p.registration ≡ old.registration
    → IsSound (put id p r)
put-IsSound r id old p s h rc bc sc rg =
    update-IsSound r _ id p s refl (ground (arith, h, rc, ap len rc)) (ground (arith, h, bc))
      s.receipts_fit s.bytes_fit (inl (ground (arith, h))) (omega arith)
      (ground (arith, s.each id, h, rg, sc, ap len rc)) s.queue_fits (λ j _ n. s.known j n)

reserve-IsSound :
    (session : EventSession) (event : EventEnvelope) (bytes : ℕ) (r : Registry)
    → IsSound r
    → IsSound (reserve session event bytes r).1
reserve-IsSound session event bytes r s = elim (reserve-Reserved session event bytes r) [
  | refused e h ↦ rw h s
  | blocks e p held _ h ↦
      rw h
        (put-IsSound r session.producer p (record p { blocked = true }) s held refl refl refl refl)
  | again p _ _ _ _ h ↦ rw h s
  | admitted p held speaks _ _ unseen _ room space h ↦ rw h (
      record_event-IsSound r session.producer p event bytes s held speaks.event_producer unseen room
        space)
]

count_rejection-IsSound :
    (out : Result AdmissionError Admission × Registry)
    → IsSound out.1
    → IsSound (count_rejection out).1
unfolding count_rejection
count_rejection-IsSound (ok admission, r) s = s
count_rejection-IsSound (err e, r) s = record {
  queue_fits = s.queue_fits;
  keys = s.keys;
  counted = s.counted;
  weighed = s.weighed;
  receipts_fit = s.receipts_fit;
  bytes_fit = s.bytes_fit;
  producers_fit = s.producers_fit;
  each = s.each;
  known = s.known;
}

pub admit-IsSound :
    (session : EventSession) (frame : List ℕ) (parsed : Result ProtocolError EventEnvelope)
    (r : Registry)
    → IsSound r
    → IsSound (admit session frame parsed r).1
unfolding admit
admit-IsSound session frame (err e) r s =
    ground (arith, s, count_rejection-IsSound (err (AdmissionError.protocol e), r) s)
admit-IsSound session frame (ok event) r s = ground (
  arith,
  s,
  count_rejection-IsSound (reserve session event (length frame) r)
      (reserve-IsSound session event (length frame) r s),
)

-- What an admitted event leaves: it is the last one waiting for its producer, it has the
-- receipt of its sequence, and the producer expects the sequence after it; nothing else changes.
pub record Leaves (r : Registry) (id : ProducerId) (event : EventEnvelope) (bytes : ℕ)
    (r' : Registry) : Type 0 where
  pub waits : pending r'.queue id ≡ pending r.queue id ++ event ∷ []
  pub others_wait : (j : ProducerId) → id ≢ j → pending r'.queue j ≡ pending r.queue j
  pub expected :
      (p' : Producer) × (get id r'.producers ≡ some p')
      × (get event.seq p'.receipts ≡ some event)
      × (p'.next ≡ checked_next event.seq)
      × (p'.blocked ≡ false)
  pub others : (j : ProducerId) → id ≢ j → get j r'.producers ≡ get j r.producers
  pub receipts : r'.receipts ≡ r.receipts + 1
  pub receipt_bytes : r'.receipt_bytes ≡ r.receipt_bytes + bytes

pub record_event-Leaves :
    (r : Registry) (id : ProducerId) (p : Producer) (event : EventEnvelope) (bytes : ℕ)
    → event.producer_id ≡ id
    → p.blocked ≡ false
    → Leaves r id event bytes (record_event id p event bytes r)
unfolding record_event
record_event-Leaves r id p event bytes mine b = record {
  waits = ground (arith, (pending-push r.queue event id).0, mine);
  others_wait = λ j other. ground (arith, (pending-push r.queue event j).0, mine);
  expected =
      (_, get-insert_self id _ r.producers, get-insert_self event.seq event p.receipts, refl, b);
  others = λ j other. get-insert_other j id _ r.producers other;
  receipts = refl;
  receipt_bytes = refl;
}
