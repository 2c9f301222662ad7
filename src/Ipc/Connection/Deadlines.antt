-- ===== src/Ipc/Connection/Deadlines.antt =====
-- The deadlines of ipc/connection.rs over any history of calls.
use omarchy_harbormaster.Common.{
  ℕ, zero, suc, ◌-◌, ◌≡◌, refl, ap, sym, ◌∙◌, subst, true, false, not, List, [], ◌∷◌, ◌++◌, Option,
  none, some, ◌==◌, length, take, Result, ok, err, nat_eq, arith, length-append, Option-cases,
  Bool-cases, Result-cases, inl, inr,
}
use omarchy_harbormaster.Common.BTreeMap.{is_some}
use omarchy_harbormaster.Protocol.{max_frame_bytes}
use omarchy_harbormaster.Ipc.{IpcError}
use omarchy_harbormaster.Ipc.Framing.{
  FrameDecoder, OutboundQueue, feed, feed_open, feed_inspected, newline_position, has_partial, push,
  front,
}
use omarchy_harbormaster.Ipc.Framing.Outbound.{push-checks, push_refused}
use omarchy_harbormaster.Ipc.Connection.Calls.{
  Call, step, run, completes, reads, queues, flushes, shut, late, early, check_deadlines-Checked,
}
use omarchy_harbormaster.Ipc.Connection.{
  Connection, ReadAnswer, WriteAnswer, accepted, close, checked, behind, complete_handshake, fed,
  answered, feed_pending, read_more, read_checked, read_frame, queue_checked, queue_frame,
  no_frames, flush_answered, flush_checked, flush, arrived, written,
}

-- An open connection has a deadline for the frame that it is reading exactly if it is reading one,
-- and for writing exactly if there is something to write.
pub record IsTimed (c : Connection) : Type 0 where
  pub reading : c.closed ≡ false → is_some c.frame_deadline ≡ has_partial c.decoder
  pub writing : c.closed ≡ false → is_some c.write_deadline ≡ not (no_frames c.outgoing)

close-IsTimed : (c : Connection) → IsTimed (close c)
unfolding close
close-IsTimed c = record { reading = λ h. cc h; writing = λ h. cc h }

-- A method on a connection whose deadlines were checked.
checked-IsTimed {ℓ} :
    {A : Type ℓ} (now : ℕ) (body : Connection → Result IpcError A × Connection) (c : Connection)
    → IsTimed c
    → (c.closed ≡ false → IsTimed (body c).1)
    → IsTimed (checked now body c).1
checked-IsTimed now body c t b = elim (check_deadlines-Checked now c) [
  | shut _ e ↦ subst IsTimed (sym (ap (λ o. (behind body o).1) e)) t
  | late _ e ↦ subst IsTimed (sym (ap (λ o. (behind body o).1) e)) (close-IsTimed c)
  | early o _ e ↦ subst IsTimed (sym (ap (λ r. (behind body r).1) e)) (b o)
]

-- What a successful `feed` leaves of a frame: nothing once it is whole, and no less than before
-- while it is not.
abbrev Leaves : FrameDecoder → Result IpcError (ℕ × Option (List ℕ)) × FrameDecoder → Type 0
Leaves d (err e, d') = Unit
Leaves d (ok (n, some frame), d') = has_partial d' ≡ false
Leaves d (ok (n, none), d') = has_partial d ≡ true → has_partial d' ≡ true

has_partial-append :
    (d : FrameDecoder) (ps bs : List ℕ)
    → d.partial ≡ ps
    → has_partial d ≡ true
    → has_partial (record d { partial = ps ++ bs }) ≡ true
unfolding has_partial
has_partial-append d [] bs e h = ground (arith, e)
has_partial-append d (p ∷ ps) bs e h = refl

feed_inspected-Leaves :
    (inspected : List ℕ) (newline : Option ℕ) (d : FrameDecoder)
    → Leaves d (feed_inspected inspected newline d)
unfolding feed_inspected
feed_inspected-Leaves inspected (some i) d = unfold has_partial in ground arith
feed_inspected-Leaves inspected none d =
    ground (arith, has_partial-append d d.partial inspected refl)

feed-Leaves : (bytes : List ℕ) (d : FrameDecoder) → Leaves d (feed bytes d)
unfolding feed feed_open
feed-Leaves bytes d = ground (
  arith,
  feed_inspected-Leaves (take (max_frame_bytes - length d.partial) bytes)
      (newline_position (take (max_frame_bytes - length d.partial) bytes)) d,
)

-- Feeding keeps the deadlines in step with the decoder.
answered-IsTimed :
    (now : ℕ) (out : Result IpcError (ℕ × Option (List ℕ)) × FrameDecoder) (c : Connection)
    → IsTimed c
    → c.closed ≡ false
    → Leaves c.decoder out
    → IsTimed (answered now out c).1
unfolding answered
answered-IsTimed now (err e, d) c t o l = close-IsTimed (record c { decoder = d })
answered-IsTimed now (ok (n, some frame), d) c t o l = record {
  reading = λ _. unfold fed in ground (arith, l);
  writing = λ h. unfold fed in t.writing h;
}
answered-IsTimed now (ok (n, none), d) c t o l = record {
  reading = λ _. unfold fed in ground (arith, l, t.reading o);
  writing = λ h. unfold fed in t.writing h;
}

read_more-IsTimed :
    (now : ℕ) (answer : ReadAnswer) (c : Connection)
    → IsTimed c
    → c.closed ≡ false
    → IsTimed (read_more now answer c).1
unfolding read_more feed_pending
read_more-IsTimed now (arrived []) c t o = close-IsTimed _
read_more-IsTimed now (arrived (b ∷ bs)) c t o =
    answered-IsTimed now _ (record c { pending = b ∷ bs; offset = 0; available = length (b ∷ bs) })
      (record { reading = t.reading; writing = t.writing }) o (feed-Leaves _ c.decoder)
read_more-IsTimed now ReadAnswer.would_block c t o = t
read_more-IsTimed now ReadAnswer.failed c t o = close-IsTimed c

read_checked-IsTimed :
    (now : ℕ) (answer : ReadAnswer) (c : Connection)
    → IsTimed c
    → c.closed ≡ false
    → IsTimed (read_checked now answer c).1
unfolding read_checked feed_pending
read_checked-IsTimed now answer c t o = elim (Bool-cases (c.offset == c.available)) [
  | inl empty ↦ rw (empty, read_checked) (read_more-IsTimed now answer c t o)
  | inr more ↦ rw (more, read_checked) (answered-IsTimed now _ c t o (feed-Leaves _ c.decoder))
]

queue_refused-IsTimed :
    (now : ℕ) (e : IpcError) (c : Connection)
    → IsTimed c
    → IsTimed (queue_checked now (err e, c.outgoing) c).1
unfolding queue_checked
queue_refused-IsTimed now IpcError.resource_exhausted c t = close-IsTimed c
queue_refused-IsTimed now _ c t = t

queue_taken-IsTimed :
    (now : ℕ) (frame : List ℕ) (q : OutboundQueue) (c : Connection)
    → IsTimed c
    → push frame c.outgoing ≡ (ok tt, q)
    → IsTimed (queue_checked now (ok tt, q) c).1
unfolding queue_checked
queue_taken-IsTimed now frame q c t h =
    let (_, _, _, left) = push-checks frame c.outgoing q h in
    let longer = length-append c.outgoing.frames (frame ∷ []) in
    let more : no_frames q ≡ false =
      subst (λ r. no_frames r ≡ false) left (ground (arith, longer)) in
    record { reading = t.reading; writing = λ _. ground (arith, more) }

queue_checked-IsTimed :
    (now : ℕ) (frame : List ℕ) (c : Connection)
    → IsTimed c
    → IsTimed (queue_checked now (push frame c.outgoing) c).1
queue_checked-IsTimed now frame c t = elim (Result-cases (push frame c.outgoing).0) [
  | inl (e, h) ↦
      let answer : push frame c.outgoing ≡ (err e, (push frame c.outgoing).1) =
        ap (λ r. (r, (push frame c.outgoing).1)) h in
      let same = push_refused frame c.outgoing (push frame c.outgoing).1 e answer in
      subst (λ out. IsTimed (queue_checked now out c).1)
        (sym (answer ∙ ap (λ (q : OutboundQueue). (err e, q)) (sym same)))
        (queue_refused-IsTimed now e c t)
  | inr (_, h) ↦
      let answer : push frame c.outgoing ≡ (ok tt, (push frame c.outgoing).1) =
        ap (λ r. (r, (push frame c.outgoing).1)) h in
      subst (λ out. IsTimed (queue_checked now out c).1) (sym answer)
        (queue_taken-IsTimed now frame (push frame c.outgoing).1 c t answer)
]

flush_answered-IsTimed :
    (answer : WriteAnswer) (c : Connection)
    → IsTimed c
    → c.closed ≡ false
    → no_frames c.outgoing ≡ false
    → IsTimed (flush_answered answer c).1
unfolding flush_answered
flush_answered-IsTimed (written zero) c t o busy = close-IsTimed c
flush_answered-IsTimed (written (suc n)) c t o busy = record {
  reading = t.reading;
  writing = λ _. ground (arith, t.writing o, busy);
}
flush_answered-IsTimed WriteAnswer.would_block c t o busy = t
flush_answered-IsTimed WriteAnswer.failed c t o busy = close-IsTimed c

front-busy : (q : OutboundQueue) (piece : List ℕ) → front q ≡ some piece → no_frames q ≡ false
unfolding front
front-busy q piece h = ground arith

flush_checked-IsTimed :
    (answer : WriteAnswer) (c : Connection)
    → IsTimed c
    → c.closed ≡ false
    → IsTimed (flush_checked answer c).1
unfolding flush_checked
flush_checked-IsTimed answer c t o = elim (Option-cases (front c.outgoing)) [
  | inl e ↦ rw (e, flush_checked) t
  | inr (piece, e) ↦
      rw (e, flush_checked) (flush_answered-IsTimed answer c t o (front-busy c.outgoing piece e))
]

step-IsTimed : (call : Call) (c : Connection) → IsTimed c → IsTimed (step call c)
unfolding step complete_handshake read_frame queue_frame flush
step-IsTimed (completes now) c t =
    checked-IsTimed now _ c t (λ _. record { reading = t.reading; writing = t.writing })
step-IsTimed (reads now answer) c t =
    checked-IsTimed now _ c t (λ o. read_checked-IsTimed now answer c t o)
step-IsTimed (queues now frame) c t =
    checked-IsTimed now _ c t (λ _. queue_checked-IsTimed now frame c t)
step-IsTimed (flushes now answer) c t =
    checked-IsTimed now _ c t (λ o. flush_checked-IsTimed answer c t o)

run_keeps-IsTimed : (calls : List Call) (c : Connection) → IsTimed c → IsTimed (run calls c)
unfolding run
run_keeps-IsTimed [] c t = t
run_keeps-IsTimed (call ∷ calls) c t = run_keeps-IsTimed calls (step call c) (step-IsTimed call c t)

accepted-IsTimed : (now deadline : ℕ) → IsTimed (accepted now deadline)
unfolding accepted has_partial nat_eq
accepted-IsTimed now deadline = record { reading = λ _. refl; writing = λ _. refl }

-- After any calls, a connection that is still open has a deadline for the frame that it is reading
-- exactly if it is reading one, and one for writing exactly if there is something to write.
pub run-IsTimed :
    (now deadline : ℕ) (calls : List Call) → IsTimed (run calls (accepted now deadline))
run-IsTimed now deadline calls =
    run_keeps-IsTimed calls (accepted now deadline) (accepted-IsTimed now deadline)
