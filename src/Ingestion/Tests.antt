-- ===== src/Ingestion/Tests.antt =====
-- The event side of ingestion on a registry with one producer.
use omarchy_harbormaster.Common.{
  ℕ, ◌≡◌, ◌↔◌, ◌⊎◌, subst, ap, refl, true, false, List, [], ◌∷◌, none, some, Result, ok, err,
  if◌then◌else◌, bytes_eq, nat_eq, option_eq, ◌==◌, length,
}
use omarchy_harbormaster.Common.BTreeMap.{get, insert}
use omarchy_harbormaster.Common.BTreeSet.{Distinct, collect, intersection}
use omarchy_harbormaster.Common.BTreeSet
use omarchy_harbormaster.Protocol.{ProtocolError}
use omarchy_harbormaster.Protocol.Identity.{
  ident_eq, RunId, TurnId, ProducerId, ProducerGeneration, checked_next,
}
use omarchy_harbormaster.Protocol.Event.{
  EventEnvelope, EventHandshake, EventPayload, EventKind, HarnessKind, kind, kind_eq, kind_ord,
  harness_eq, envelope_eq,
}
use omarchy_harbormaster.Ingestion.{Admission, AdmissionError}
use omarchy_harbormaster.Ingestion.Queue
use omarchy_harbormaster.Ingestion.Queue.{Queue, has_room, pending, pop_ready, pop_from, take_event}
use omarchy_harbormaster.Ingestion.Queue.Invariant.{
  IsWellFormed, empty-IsWellFormed, push-IsWellFormed,
}
use omarchy_harbormaster.Ingestion.Queue.Fifo.{pop_fifo, served_in_turn, turn, pop_times, Takes}
use omarchy_harbormaster.Ingestion.Queue.Capacity.{Fits, empty-Fits, push-Fits}
use omarchy_harbormaster.Ingestion.Registry.Types.{
  Registry, Producer, ProducerRegistration, EventSession, Peer, Channel, channel_eq, new_producer,
  saturating_add,
}
use omarchy_harbormaster.Ingestion.Registry.{
  new, register, may_register, unique_signals, enroll, connect, invalidate, rescope, discard_queued,
}
use omarchy_harbormaster.Ingestion.Registry.Reservation.{
  admit, reserve, may_reserve, reserve_known, reserve_sequenced, reserve_new, sequence,
  sequence_new, receipts_full, record_event, count_rejection,
}
use omarchy_harbormaster.Ingestion.Registry.Soundness.{IsSound}
use omarchy_harbormaster.Ingestion.Registry.Preserves.{new-IsSound, register-IsSound}
use omarchy_harbormaster.Ingestion.Registry.Reserving.{Speaks}
use omarchy_harbormaster.Ingestion.Registry.Admitting.{Leaves}
use omarchy_harbormaster.Ingestion.Registry.Outcomes.{admit_queued, admit_again}
use omarchy_harbormaster.Ingestion.Registry.Refusals.{admit_refused, Spares}
use omarchy_harbormaster.Ingestion.Registry.History.{Call, step, run, run-IsSound}
use omarchy_harbormaster.Ingestion.Registry.Sessions.{Revokes, invalidated, revoked_forever}
use omarchy_harbormaster.Ingestion.Registry.Connecting.{
  connect_exact, connect-Grants, MayConnect, Grants,
}

abbrev run_1 : RunId
run_1 = record { text = b'r' ∷ b'1' ∷ [] }

abbrev producer_1 : ProducerId
producer_1 = record { text = b'p' ∷ b'1' ∷ [] }

abbrev generation_1 : ProducerGeneration
generation_1 = record { text = b'g' ∷ b'1' ∷ [] }

abbrev turn_1 : TurnId
turn_1 = record { text = b't' ∷ b'1' ∷ [] }

abbrev registration_1 : ProducerRegistration
registration_1 = record {
  producer_id = producer_1;
  generation = generation_1;
  run_id = run_1;
  harness = HarnessKind.codex;
  uid = 1000;
  allowed_signals = EventKind.turn_started ∷ EventKind.run_exited ∷ [];
  next_sequence = 7;
}

abbrev registry_1 : Registry
registry_1 = enroll registration_1 (new 1)

registered : register registration_1 (new 1) ≡ (ok tt, registry_1)
unfolding register may_register unique_signals collect BTreeSet.insert new get nat_eq kind_ord
registered = refl

abbrev handshake_1 : EventHandshake
handshake_1 = record {
  producer_id = producer_1;
  generation = generation_1;
  run_id = run_1;
  harness = HarnessKind.codex;
  requested_signals = EventKind.turn_completed ∷ EventKind.turn_started ∷ [];
}

abbrev peer_1 : Peer
peer_1 = record { channel = Channel.event; uid = 1000 }

abbrev session_1 : EventSession
session_1 = record {
  authority = 1;
  scope = 0;
  producer = producer_1;
  generation = generation_1;
  signals = EventKind.turn_started ∷ [];
}

connected : connect registry_1 peer_1 handshake_1 ≡ ok session_1
unfolding connect enroll new new_producer insert get unique_signals collect intersection
    BTreeSet.insert nat_eq kind_ord kind_eq ident_eq bytes_eq harness_eq channel_eq
connected = refl

abbrev event_1 : EventEnvelope
event_1 = record {
  event_id = record { text = b'e' ∷ b'1' ∷ [] };
  producer_id = producer_1;
  generation = generation_1;
  seq = 7;
  run_id = run_1;
  event = EventPayload.turn_started (record { turn_id = turn_1 });
}

abbrev parsed_1 : Result ProtocolError EventEnvelope
parsed_1 = ok event_1

abbrev frame_1 : List ℕ
frame_1 = b'{' ∷ b'}' ∷ b'\n' ∷ []

abbrev admitted_1 : Registry
admitted_1 = record_event producer_1 (new_producer 0 registration_1) event_1 3 registry_1

admitted : admit session_1 frame_1 (ok event_1) registry_1 ≡ (ok Admission.queued, admitted_1)
unfolding admit count_rejection reserve reserve_known may_reserve reserve_sequenced sequence
    sequence_new reserve_new receipts_full has_room enroll new new_producer insert get kind nat_eq
    kind_eq ident_eq bytes_eq record_event checked_next Queue.push
admitted = refl

abbrev late_event : EventEnvelope
late_event = record event_1 { seq = 9 }

abbrev gap_1 : Registry
gap_1 = record registry_1 {
  producers =
      insert producer_1 (record (new_producer 0 registration_1) { blocked = true })
        registry_1.producers;
  rejected = 1;
}

refused_gap :
    admit session_1 frame_1 (ok late_event) registry_1 ≡ (err AdmissionError.sequence_gap, gap_1)
unfolding admit count_rejection reserve reserve_known may_reserve reserve_sequenced sequence
    sequence_new enroll new new_producer insert get kind nat_eq kind_eq ident_eq bytes_eq
    saturating_add
refused_gap = refl

-- After a gap the producer is blocked, so that the event it missed is refused as well.
refused_blocked :
    (admit session_1 frame_1 (ok event_1) gap_1).0 ≡ err AdmissionError.reconciliation_required
unfolding admit count_rejection reserve reserve_known may_reserve reserve_sequenced sequence
    sequence_new enroll new new_producer insert get kind nat_eq kind_eq ident_eq bytes_eq
    saturating_add
refused_blocked = refl

run-IsSound_example : IsSound (
    run
      (Call.registers registration_1 ∷ Call.admits session_1 frame_1 (ok event_1) ∷ Call.pops ∷ [])
      (new 1))
run-IsSound_example =
    run-IsSound 1
      (Call.registers registration_1 ∷ Call.admits session_1 frame_1 (ok event_1) ∷ Call.pops ∷ [])

admit_queued_example :
    (event : EventEnvelope) × (p : Producer) × (parsed_1 ≡ ok event)
    × (get session_1.producer registry_1.producers ≡ some p)
    × Speaks session_1 event p
    × (p.blocked ≡ false)
    × (p.next ≡ some event.seq)
    × Leaves registry_1 session_1.producer event (length frame_1) admitted_1
admit_queued_example = admit_queued session_1 frame_1 (ok event_1) registry_1 admitted_1 admitted

admit_again_example :
    admit session_1 frame_1 (ok event_1) admitted_1 ≡ (ok Admission.already_admitted, admitted_1)
admit_again_example = admit_again session_1 frame_1 (ok event_1) registry_1 admitted_1 admitted

admit_refused_example :
    Spares registry_1 session_1.producer gap_1
    × (gap_1.rejected ≡ (
        if session_1.authority == registry_1.authority
        then saturating_add registry_1.rejected 1
        else registry_1.rejected))
admit_refused_example =
    admit_refused session_1 frame_1 (ok late_event) registry_1 gap_1 AdmissionError.sequence_gap
      refused_gap

abbrev two_producers : Queue
two_producers =
    Queue.push (Queue.push Queue.empty event_1)
      (record event_1 { producer_id = record { text = b'p' ∷ b'2' ∷ [] } })

two_producers-IsWellFormed : IsWellFormed two_producers
two_producers-IsWellFormed =
    push-IsWellFormed (Queue.push Queue.empty event_1)
      (record event_1 { producer_id = record { text = b'p' ∷ b'2' ∷ [] } })
      (push-IsWellFormed Queue.empty event_1 empty-IsWellFormed)

pop_fifo_example :
    ((two_producers.count ≡ 0) × (Queue.pop two_producers ≡ (none, two_producers)))
    ⊎ ((event : EventEnvelope) × (q' : Queue) × (Queue.pop two_producers ≡ (some event, q'))
        × Takes two_producers event q')
pop_fifo_example = pop_fifo two_producers two_producers-IsWellFormed

second_turn : turn two_producers.ready (record { text = b'p' ∷ b'2' ∷ [] }) ≡ some 1
unfolding turn Queue.push insert get ident_eq bytes_eq
second_turn = refl

served_in_turn_example :
    (event : EventEnvelope) × (rest : List EventEnvelope) × (pending two_producers
        (record { text = b'p' ∷ b'2' ∷ [] })
      ≡ event ∷ rest)
    × ((Queue.pop (pop_times 1 two_producers)).0 ≡ some event)
served_in_turn_example =
    served_in_turn 1 two_producers (record { text = b'p' ∷ b'2' ∷ [] }) two_producers-IsWellFormed
      second_turn

room_1 : has_room Queue.empty event_1.producer_id ≡ true
unfolding has_room get
room_1 = refl

push-Fits_example : Fits (Queue.push Queue.empty event_1)
push-Fits_example = push-Fits Queue.empty event_1 room_1 empty-Fits

registry_1-IsSound : IsSound registry_1
registry_1-IsSound =
    subst IsSound (ap (λ o. o.1) registered)
      (register-IsSound (new 1) registration_1 (new-IsSound 1))

invalidated_1 : Revokes session_1.producer (run [] registry_1) (Call.invalidates producer_1)
unfolding run invalidate rescope discard_queued Queue.discard enroll new new_producer insert get
    ident_eq bytes_eq
invalidated_1 = invalidated 0 refl refl

revoked_forever_example :
    (e : AdmissionError) × ((admit session_1 frame_1
        (ok event_1)
        (run (Call.pops ∷ []) (step (Call.invalidates producer_1) (run [] registry_1)))).0
      ≡ err e)
revoked_forever_example =
    revoked_forever registry_1 peer_1 handshake_1 session_1 [] (Call.pops ∷ [])
      (Call.invalidates producer_1) frame_1 (ok event_1) registry_1-IsSound connected invalidated_1

connect_exact_example :
    ((session : EventSession) × (connect registry_1 peer_1 handshake_1 ≡ ok session)) ↔ (
      (p : Producer) × (get handshake_1.producer_id registry_1.producers ≡ some p)
      × MayConnect peer_1 handshake_1 p)
connect_exact_example = connect_exact registry_1 peer_1 handshake_1

connect-Grants_example :
    (p : Producer) × (get handshake_1.producer_id registry_1.producers ≡ some p)
    × Grants registry_1 handshake_1 p session_1
connect-Grants_example = connect-Grants registry_1 peer_1 handshake_1 session_1 connected
