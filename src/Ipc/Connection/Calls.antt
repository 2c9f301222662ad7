-- ===== src/Ipc/Connection/Calls.antt =====
-- Histories of calls of ipc/connection.rs, and what its check of the deadlines does to a call.
use omarchy_harbormaster.Common.{
  ℕ, ◌≡◌, refl, ap, ◌∙◌, Bool, true, false, ◌||◌, List, [], ◌∷◌, Option, none, some, Result, ok,
  err, nat_eq, arith, Bool-cases, inl, inr,
}
use omarchy_harbormaster.Ipc.{IpcError}
use omarchy_harbormaster.Ipc.Framing.{push}
use omarchy_harbormaster.Ipc.Connection.{
  Connection, ReadAnswer, WriteAnswer, close, is_due, check_deadlines, checked, behind,
  complete_handshake, read_checked, read_frame, queue_checked, queue_frame, flush_checked, flush,
}

-- The calls of a connection, each at its time.
pub data Call : Type 0 where
  completes : ℕ → Call
  reads : ℕ → ReadAnswer → Call
  queues : ℕ → List ℕ → Call
  flushes : ℕ → WriteAnswer → Call

unfoldable pub step : Call → Connection → Connection
step (completes now) c = (complete_handshake now c).1
step (reads now answer) c = (read_frame now answer c).1
step (queues now frame) c = (queue_frame now frame c).1
step (flushes now answer) c = (flush now answer c).1

unfoldable pub run : List Call → Connection → Connection
run [] c = c
run (call ∷ calls) c = run calls (step call c)

-- Some deadline has passed.
abbrev pub any_due : ℕ → Connection → Bool
any_due now c =
    is_due now c.handshake_deadline || is_due now c.frame_deadline || is_due now c.write_deadline

-- The three answers of `check_deadlines`.
pub data Checked (now : ℕ) (c : Connection) : Type 0 where
  shut : c.closed ≡ true → check_deadlines now c ≡ (err IpcError.closed, c) → Checked now c
  late :
      any_due now c ≡ true
      → check_deadlines now c ≡ (err IpcError.deadline_exceeded, close c)
      → Checked now c
  early :
      c.closed ≡ false → any_due now c ≡ false → check_deadlines now c ≡ (ok tt, c) → Checked now c

pub check_deadlines-Checked : (now : ℕ) (c : Connection) → Checked now c
unfolding check_deadlines
check_deadlines-Checked now c = elim (Bool-cases c.closed) [
  | inl s ↦ shut s (ground (arith, s))
  | inr o ↦ elim (Bool-cases (any_due now c)) [
    | inl due ↦ late due (ground (arith, o, due))
    | inr e ↦ early o e (ground (arith, o, e))
  ]
]

-- What a method fails with.
abbrev error_of {ℓ} : {A : Type ℓ} → Result IpcError A → Option IpcError
error_of (ok a) = none
error_of (err e) = some e

unfoldable pub refusal : Call → Connection → Option IpcError
refusal (completes now) c = error_of (complete_handshake now c).0
refusal (reads now answer) c = error_of (read_frame now answer c).0
refusal (queues now frame) c = error_of (queue_frame now frame c).0
refusal (flushes now answer) c = error_of (flush now answer c).0

-- The time of a call.
abbrev pub time : Call → ℕ
time (completes now) = now
time (reads now answer) = now
time (queues now frame) = now
time (flushes now answer) = now

checked_fails {ℓ} :
    {A : Type ℓ} (now : ℕ) (body : Connection → Result IpcError A × Connection) (c c' : Connection)
    (e : IpcError)
    → check_deadlines now c ≡ (err e, c')
    → (error_of (checked now body c).0 ≡ some e) × ((checked now body c).1 ≡ c')
checked_fails now body c c' e h =
    (ap (λ out. error_of (behind body out).0) h, ap (λ out. (behind body out).1) h)

-- Every call fails as the check of the deadlines does.
step_unchecked :
    (call : Call) (c c' : Connection) (e : IpcError)
    → check_deadlines (time call) c ≡ (err e, c')
    → (refusal call c ≡ some e) × (step call c ≡ c')
unfolding refusal step complete_handshake read_frame queue_frame flush
step_unchecked (completes now) c c' e h =
    checked_fails {A = Unit {0}} now (λ d. (ok tt, record d { handshake_deadline = none })) c c' e h
step_unchecked (reads now answer) c c' e h = checked_fails now (read_checked now answer) c c' e h
step_unchecked (queues now frame) c c' e h =
    checked_fails now (λ d. queue_checked now (push frame d.outgoing) d) c c' e h
step_unchecked (flushes now answer) c c' e h = checked_fails now (flush_checked answer) c c' e h

-- A closed connection refuses every call and stays as it is.
step_closed :
    (call : Call) (c : Connection)
    → c.closed ≡ true
    → (refusal call c ≡ some IpcError.closed) × (step call c ≡ c)
unfolding check_deadlines
step_closed call c gone = step_unchecked call c c IpcError.closed (ground (arith, gone))

run_closed : (calls : List Call) (c : Connection) → c.closed ≡ true → run calls c ≡ c
unfolding run
run_closed [] c gone = refl
run_closed (call ∷ calls) c gone =
    ap (run calls) (step_closed call c gone).1 ∙ run_closed calls c gone

-- The first call at or after any deadline of an open connection fails and closes it, with nothing
-- left to send; and every later call, at whatever time, fails and changes nothing.
pub overdue_final :
    (c : Connection) (call later : Call) (calls : List Call)
    → c.closed ≡ false
    → any_due (time call) c ≡ true
    → (refusal call c ≡ some IpcError.deadline_exceeded)
      × (run calls (step call c)
          ≡ record c { closed = true; outgoing = record { frames = []; bytes = 0; offset = 0 } })
      × (refusal later (run calls (step call c)) ≡ some IpcError.closed)
unfolding check_deadlines
overdue_final c call later calls o due =
    let first =
      step_unchecked call c (close c) IpcError.deadline_exceeded (ground (arith, o, due)) in
    let gone : (close c).closed ≡ true = unfold close in refl in
    let left = ap (run calls) first.1 ∙ run_closed calls (close c) gone in
    let emptied : close c
        ≡ record c { closed = true; outgoing = record { frames = []; bytes = 0; offset = 0 } } =
      unfold close in refl in
    (first.0, left ∙ emptied, ap (refusal later) left ∙ (step_closed later (close c) gone).0)
