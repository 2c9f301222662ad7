-- ===== src/Ingestion/Registry/Reservation.antt =====
-- crates/harbormaster/src/ingestion/registry.rs: the admission of a frame by `admit`, `reserve` and
-- `Producer::sequence`.
use omarchy_harbormaster.Ingestion.Registry.Types.{EventSession, Producer, Registry, saturating_add}
use omarchy_harbormaster.Common.{
  ℕ, ◌+◌, ◌-◌, Bool, true, not, ◌||◌, List, none, some, ◌==◌, ltb, leb, length, contains,
  if◌then◌else◌, Result, ok, err, nat_eq, option_eq, ◌>>◌, reject_if,
}
use omarchy_harbormaster.Common.BTreeMap.{get, insert, len, is_some}
use omarchy_harbormaster.Protocol.{ProtocolError}
use omarchy_harbormaster.Protocol.Identity.{ident_eq, ProducerId, checked_next}
use omarchy_harbormaster.Protocol.Event.{
  EventEnvelope, envelope_eq, harness_eq, kind_eq, kind_ord, kind,
}
use omarchy_harbormaster.Ingestion.Queue
use omarchy_harbormaster.Ingestion.{
  Admission, AdmissionError, max_producer_receipts, max_receipts, max_receipt_bytes,
}

-- `Producer::sequence` behind its test for a receipt of the same sequence.
unfoldable pub sequence_new : Producer → EventEnvelope → Result AdmissionError Admission × Producer
sequence_new producer event =
    if is_some (get event.event_id producer.event_ids)
    then (err AdmissionError.conflict, record producer { blocked = true })
    else elim producer.next [
      | none ↦ (err AdmissionError.reconciliation_required, producer)
      | some next ↦
          if ltb event.seq next
          then (err AdmissionError.replay_rejected, producer)
          else if ltb next event.seq
          then (err AdmissionError.sequence_gap, record producer { blocked = true })
          else (ok Admission.queued, producer)
    ]

-- `Producer::sequence`
unfoldable pub sequence : Producer → EventEnvelope → Result AdmissionError Admission × Producer
sequence producer event =
    if producer.blocked
    then (err AdmissionError.reconciliation_required, producer)
    else elim (get event.seq producer.receipts) [
      | some previous ↦
          if previous == event
          then (ok Admission.already_admitted, producer)
          else (err AdmissionError.conflict, record producer { blocked = true })
      | none ↦ sequence_new producer event
    ]

-- The checks of `reserve` before it asks for the sequence.
unfoldable pub may_reserve :
    EventSession → EventEnvelope → Producer → Result AdmissionError (Unit {0})
may_reserve session event producer = do
  reject_if
      (not (session.scope == producer.scope)
        || not (session.generation == producer.registration.generation)
        || not (event.generation == session.generation))
      AdmissionError.stale_generation
  reject_if
      (not (event.producer_id == session.producer)
        || not (event.run_id == producer.registration.run_id)
        || not (contains session.signals (kind event.event)))
      AdmissionError.permission_denied

-- `self.producers[id] = producer`, for a producer that was changed in place.
abbrev pub put : ProducerId → Producer → Registry → Registry
put id producer r = record r { producers = insert id producer r.producers }

-- The writes of `reserve`.
unfoldable pub record_event : ProducerId → Producer → EventEnvelope → ℕ → Registry → Registry
record_event id producer event bytes r = record r {
  producers =
      insert id
        (record producer {
          next = checked_next event.seq;
          event_ids = insert event.event_id event.seq producer.event_ids;
          receipts = insert event.seq event producer.receipts;
          bytes = producer.bytes + bytes;
        })
        r.producers;
  receipts = r.receipts + 1;
  receipt_bytes = r.receipt_bytes + bytes;
  queue = Queue.push r.queue event;
}

-- Whether the receipts have no room for one more of this size.
unfoldable pub receipts_full : Producer → ℕ → Registry → Bool
receipts_full producer bytes r =
    leb max_producer_receipts (len producer.receipts)
    || leb max_receipts r.receipts
    || ltb (max_receipt_bytes - r.receipt_bytes) bytes

-- The part of `reserve` behind `sequence`, for a new event.
unfoldable pub reserve_new :
    ProducerId
    → Producer
    → EventEnvelope
    → ℕ
    → Registry
    → Result AdmissionError Admission × Registry
reserve_new id producer event bytes r =
    if not (Queue.has_room r.queue id)
    then (err AdmissionError.queue_full, r)
    else if receipts_full producer bytes r
    then (err AdmissionError.reconciliation_required, put id (record producer { blocked = true }) r)
    else (ok Admission.queued, record_event id producer event bytes r)

-- What `reserve` does with the verdict of `sequence` and the producer that this left.
unfoldable pub reserve_sequenced :
    ProducerId
    → EventEnvelope
    → ℕ
    → Registry
    → Result AdmissionError Admission × Producer
    → Result AdmissionError Admission × Registry
reserve_sequenced id event bytes r (err e, producer) = (err e, put id producer r)
reserve_sequenced id event bytes r (ok Admission.already_admitted, producer) =
    (ok Admission.already_admitted, put id producer r)
reserve_sequenced id event bytes r (ok Admission.queued, producer) =
    reserve_new id producer event bytes (put id producer r)

unfoldable pub reserve_known :
    EventSession
    → EventEnvelope
    → ℕ
    → Registry
    → Producer
    → Result AdmissionError Admission × Registry
reserve_known session event bytes r producer = elim (may_reserve session event producer) [
  | err e ↦ (err e, r)
  | ok _ ↦ reserve_sequenced session.producer event bytes r (sequence producer event)
]

-- `Registry::reserve`
unfoldable pub reserve :
    EventSession → EventEnvelope → ℕ → Registry → Result AdmissionError Admission × Registry
reserve session event bytes r = elim (get session.producer r.producers) [
  | none ↦ (err AdmissionError.unknown_producer, r)
  | some producer ↦ reserve_known session event bytes r producer
]

-- `self.rejected` grows with each error.
unfoldable pub count_rejection :
    Result AdmissionError Admission × Registry → Result AdmissionError Admission × Registry
count_rejection (ok admission, r) = (ok admission, r)
count_rejection (err e, r) = (err e, record r { rejected = saturating_add r.rejected 1 })

-- `Registry::admit`; `parsed` is the verdict of `parse_event` on `frame`.
unfoldable pub admit :
    EventSession
    → List ℕ
    → Result ProtocolError EventEnvelope
    → Registry
    → Result AdmissionError Admission × Registry
admit session frame parsed r =
    if not (session.authority == r.authority)
    then (err AdmissionError.permission_denied, r)
    else elim parsed [
      | err e ↦ count_rejection (err (AdmissionError.protocol e), r)
      | ok event ↦ count_rejection (reserve session event (length frame) r)
    ]
