-- ===== src/Ipc/Connection/Received.antt =====
-- Every history of a connection of ipc/connection.rs, with the bytes that have arrived and the frames
-- that `read_frame` has returned.
use omarchy_harbormaster.Common.{
  ℕ, zero, suc, ◌≡◌, refl, ap, sym, ◌∙◌, subst, Bool, true, false, List, [], ◌++◌, Option, none,
  drop, Result, ok, err, arith, nat_eq,
}
use omarchy_harbormaster.Ipc.{IpcError}
use omarchy_harbormaster.Ipc.Connection.{
  Connection, ReadAnswer, accepted, close, read_checked, read_frame, checked, behind,
}
use omarchy_harbormaster.Ipc.Connection.Calls.{shut, late, early, check_deadlines-Checked}
use omarchy_harbormaster.Ipc.Connection.Failing.{
  Holds-Stopped, Stopped, Stopped-later, checked_shut, lost, read_frame_closes,
}
use omarchy_harbormaster.Ipc.Connection.Feeding.{listed}
use omarchy_harbormaster.Ipc.Framing.{OutboundQueue, new_outbound, push}
use omarchy_harbormaster.Ipc.Connection.{
  WriteAnswer, written, complete_handshake, queue_checked, queue_frame, flush_answered,
  flush_checked, flush,
}
use omarchy_harbormaster.Ipc.Connection.Receiving.{Holds, took, read_checked-Holds}

-- Histories, with whether a read has failed.
pub data Receives : List ℕ → List (List ℕ) → Bool → Connection → Type 0 where
  accepts : (now deadline : ℕ) → Receives [] [] false (accepted now deadline)
  reads :
      {stream : List ℕ} {frames : List (List ℕ)} {failed : Bool} {c : Connection} (now : ℕ)
      (answer : ReadAnswer) (frame : Option (List ℕ)) (c' : Connection)
      → Receives stream frames failed c
      → read_frame now answer c ≡ (ok frame, c')
      → Receives (stream ++ took answer c) (frames ++ listed frame) failed c'
  fails :
      {stream : List ℕ} {frames : List (List ℕ)} {failed : Bool} {c : Connection} (now : ℕ)
      (answer : ReadAnswer) (e : IpcError) (c' : Connection)
      → Receives stream frames failed c
      → read_frame now answer c ≡ (err e, c')
      → Receives (stream ++ lost now answer c) frames true c'
  completes :
      {stream : List ℕ} {frames : List (List ℕ)} {failed : Bool} {c : Connection} (now : ℕ)
      → Receives stream frames failed c
      → Receives stream frames failed (complete_handshake now c).1
  queues :
      {stream : List ℕ} {frames : List (List ℕ)} {failed : Bool} {c : Connection} (now : ℕ)
      (frame : List ℕ)
      → Receives stream frames failed c
      → Receives stream frames failed (queue_frame now frame c).1
  flushes :
      {stream : List ℕ} {frames : List (List ℕ)} {failed : Bool} {c : Connection} (now : ℕ)
      (answer : WriteAnswer)
      → Receives stream frames failed c
      → Receives stream frames failed (flush now answer c).1

-- The writing side and the deadlines may change.
changed-Holds :
    (stream : List ℕ) (frames : List (List ℕ)) (c : Connection) (q : OutboundQueue)
    (handshake write : Option ℕ) (closed : Bool)
    → Holds stream frames c
    → Holds stream frames (record c {
      outgoing = q;
      handshake_deadline = handshake;
      write_deadline = write;
      closed = closed;
    })
changed-Holds stream frames c q handshake write closed s = record {
  decoding = s.decoding;
  within = s.within;
  whole = s.whole;
  valid = s.valid;
  exact = s.exact;
}

close-Holds :
    (stream : List ℕ) (frames : List (List ℕ)) (c : Connection)
    → Holds stream frames c
    → Holds stream frames (close c)
unfolding close
close-Holds stream frames c s =
    changed-Holds stream frames c new_outbound c.handshake_deadline c.write_deadline true s

checked-Holds {ℓ} :
    {A : Type ℓ} (now : ℕ) (body : Connection → Result IpcError A × Connection) (stream : List ℕ)
    (frames : List (List ℕ)) (c : Connection)
    → Holds stream frames c
    → Holds stream frames (body c).1
    → Holds stream frames (checked now body c).1
checked-Holds now body stream frames c s b = elim (check_deadlines-Checked now c) [
  | shut _ e ↦ subst (Holds stream frames) (sym (ap (λ o. (behind body o).1) e)) s
  | late _ e ↦
      subst (Holds stream frames) (sym (ap (λ o. (behind body o).1) e))
        (close-Holds stream frames c s)
  | early _ _ e ↦ subst (Holds stream frames) (sym (ap (λ o. (behind body o).1) e)) b
]

queue_checked-Holds :
    (now : ℕ) (out : Result IpcError (Unit {0}) × OutboundQueue) (stream : List ℕ)
    (frames : List (List ℕ)) (c : Connection)
    → Holds stream frames c
    → Holds stream frames (queue_checked now out c).1
unfolding queue_checked
queue_checked-Holds now (err IpcError.resource_exhausted, q) stream frames c s =
    close-Holds stream frames (record c { outgoing = q })
      (changed-Holds stream frames c q c.handshake_deadline c.write_deadline c.closed s)
queue_checked-Holds now (err _, q) stream frames c s =
    changed-Holds stream frames c q c.handshake_deadline c.write_deadline c.closed s
queue_checked-Holds now (ok _, q) stream frames c s =
    changed-Holds stream frames c q c.handshake_deadline _ c.closed s

flush_answered-Holds :
    (answer : WriteAnswer) (stream : List ℕ) (frames : List (List ℕ)) (c : Connection)
    → Holds stream frames c
    → Holds stream frames (flush_answered answer c).1
unfolding flush_answered
flush_answered-Holds (written zero) stream frames c s = close-Holds stream frames c s
flush_answered-Holds (written (suc n)) stream frames c s =
    changed-Holds stream frames c _ c.handshake_deadline _ c.closed s
flush_answered-Holds WriteAnswer.would_block stream frames c s = s
flush_answered-Holds WriteAnswer.failed stream frames c s = close-Holds stream frames c s

flush_checked-Holds :
    (answer : WriteAnswer) (stream : List ℕ) (frames : List (List ℕ)) (c : Connection)
    → Holds stream frames c
    → Holds stream frames (flush_checked answer c).1
unfolding flush_checked
flush_checked-Holds answer stream frames c s =
    ground (arith, s, flush_answered-Holds answer stream frames c s)

-- A read that succeeds has passed the check of the deadlines.
read_frame-passed :
    (now : ℕ) (answer : ReadAnswer) (c c' : Connection) (frame : Option (List ℕ))
    → read_frame now answer c ≡ (ok frame, c')
    → read_checked now answer c ≡ (ok frame, c')
unfolding read_frame
read_frame-passed now answer c c' frame h = elim (check_deadlines-Checked now c) [
  | shut _ e ↦ cc (ap (λ o. o.0) (sym (ap (behind (read_checked now answer)) e) ∙ h))
  | late _ e ↦ cc (ap (λ o. o.0) (sym (ap (behind (read_checked now answer)) e) ∙ h))
  | early _ _ e ↦ sym (ap (behind (read_checked now answer)) e) ∙ h
]

accepted-Holds : (now deadline : ℕ) → Holds [] [] (accepted now deadline)
unfolding accepted drop
accepted-Holds now deadline = record {
  decoding = record { running = refl; room = omega arith };
  within = omega arith;
  whole = refl;
  valid = tt;
  exact = refl;
}

-- Where a connection is: running on what has arrived, or stopped by a read that failed.
abbrev pub Delivers : List ℕ → List (List ℕ) → Bool → Connection → Type 0
Delivers stream frames false c = Holds stream frames c
Delivers stream frames true c = Stopped stream frames c

-- A call that does not read keeps to it.
call-Delivers {ℓ} :
    {A : Type ℓ} (now : ℕ) (body : Connection → Result IpcError A × Connection) (stream : List ℕ)
    (frames : List (List ℕ)) (failed : Bool) (c : Connection)
    → Delivers stream frames failed c
    → (Holds stream frames c → Holds stream frames (body c).1)
    → Delivers stream frames failed (checked now body c).1
call-Delivers now body stream frames false c s b = checked-Holds now body stream frames c s (b s)
call-Delivers now body stream frames true c s b =
    subst (λ o. Stopped stream frames o.1) (sym (checked_shut now body c s.shut)) s

read-Delivers :
    (now : ℕ) (answer : ReadAnswer) (c c' : Connection) (stream : List ℕ) (frames : List (List ℕ))
    (frame : Option (List ℕ)) (failed : Bool)
    → Delivers stream frames failed c
    → read_frame now answer c ≡ (ok frame, c')
    → Delivers (stream ++ took answer c) (frames ++ listed frame) failed c'
unfolding read_frame
read-Delivers now answer c c' stream frames frame false s h =
    read_checked-Holds now answer c c' stream frames frame s
      (read_frame-passed now answer c c' frame h)
read-Delivers now answer c c' stream frames frame true s h =
    cc (ap (λ o. o.0) (sym (checked_shut now (read_checked now answer) c s.shut) ∙ h))

fail-Stopped :
    (now : ℕ) (answer : ReadAnswer) (c c' : Connection) (stream : List ℕ) (frames : List (List ℕ))
    (e : IpcError) (failed : Bool)
    → Delivers stream frames failed c
    → read_frame now answer c ≡ (err e, c')
    → Stopped (stream ++ lost now answer c) frames c'
fail-Stopped now answer c c' stream frames e false s h =
    Holds-Stopped stream (lost now answer c) frames c c' s (read_frame_closes now answer c c' e h)
fail-Stopped now answer c c' stream frames e true s h =
    Stopped-later stream (lost now answer c) frames c c' s (read_frame_closes now answer c c' e h)

-- Through any history of reads, failed ones too, of writes and of deadlines, the frames that were
-- returned are valid and within the limit. While no read has failed they are the bytes that have
-- arrived in order, up to those that the decoder holds and those that are still pending; once one
-- has, the connection is closed and they are the first of those bytes.
pub Receives-exact :
    (stream : List ℕ) (frames : List (List ℕ)) (failed : Bool) (c : Connection)
    → Receives stream frames failed c
    → Delivers stream frames failed c
unfolding complete_handshake queue_frame flush
Receives-exact stream frames failed c (accepts now deadline) = accepted-Holds now deadline
Receives-exact stream frames failed c
      (reads {stream = s} {frames = f} {c = b} now answer frame c' before h) =
    read-Delivers now answer b c' s f frame failed (Receives-exact s f failed b before) h
Receives-exact stream frames failed c
      (fails {stream = s} {frames = f} {failed = was} {c = b} now answer e c' before h) =
    fail-Stopped now answer b c' s f e was (Receives-exact s f was b before) h
Receives-exact stream frames failed c (completes {c = b} now before) =
    call-Delivers {A = Unit {0}} now (λ d. (ok tt, record d { handshake_deadline = none })) stream
      frames failed b (Receives-exact stream frames failed b before)
      (changed-Holds stream frames b b.outgoing none b.write_deadline b.closed)
Receives-exact stream frames failed c (queues {c = b} now frame before) =
    call-Delivers now (λ d. queue_checked now (push frame d.outgoing) d) stream frames failed b
      (Receives-exact stream frames failed b before)
      (queue_checked-Holds now (push frame b.outgoing) stream frames b)
Receives-exact stream frames failed c (flushes {c = b} now answer before) =
    call-Delivers now (flush_checked answer) stream frames failed b
      (Receives-exact stream frames failed b before) (flush_checked-Holds answer stream frames b)
