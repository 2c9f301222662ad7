-- ===== src/Ipc/Connection/Tests.antt =====
-- A connection of ipc/connection.rs that reads one frame in two pieces.
use omarchy_harbormaster.Common.{
  ℕ, List, ◌+◌, ◌<◌, ◌≡◌, ◌⊎◌, refl, true, false, [], ◌∷◌, ◌++◌, none, some, ok, err, take, drop,
  nat_eq, option_eq,
}
use omarchy_harbormaster.Ipc.{IpcError}
use omarchy_harbormaster.Ipc.Framing.{
  feed, feed_open, feed_inspected, newline_position, valid_frame, last, any_line_break, utf8_from,
  continuations, has_partial,
}
use omarchy_harbormaster.Ipc.Connection.{
  Connection, ConnectionBudget, WriteAnswer, arrived, accepted, accept, accept_with, acquire,
  release, close, check_deadlines, min, read_frame, read_checked, read_more, feed_pending, answered,
  fed,
}
use omarchy_harbormaster.Ipc.Connection.Calls.{
  reads, completes, flushes, run, step, refusal, any_due, overdue_final,
}
use omarchy_harbormaster.Ipc.Connection.Deadlines.{run-IsTimed, IsTimed}
use omarchy_harbormaster.Ipc.Connection.Receiving.{took}
use omarchy_harbormaster.Ipc.Connection.Received.{Receives, accepts, Receives-exact}
use omarchy_harbormaster.Ipc.Connection.Received
use omarchy_harbormaster.Ipc.Connection.Failing.{Stopped, lost}
use omarchy_harbormaster.Ipc.Framing
use omarchy_harbormaster.Ipc.Connection.Budget.{accept_exact}

abbrev start : Connection
start = accepted 0 1000

-- At 10 the first two bytes arrive, and the rest of the frame has until 110.
abbrev half_read : Connection
half_read = record start {
  decoder = record { partial = b'{' ∷ b'}' ∷ []; closed = false };
  pending = b'{' ∷ b'}' ∷ [];
  offset = 2;
  available = 2;
  frame_deadline = some 110;
}

first_half : read_frame 10 (arrived (b'{' ∷ b'}' ∷ [])) start ≡ (ok none, half_read)
unfolding read_frame check_deadlines accepted min read_checked read_more feed_pending answered fed
    has_partial feed feed_open feed_inspected newline_position take drop nat_eq
first_half = refl

-- The newline comes in time.
second_half :
    (read_frame 20 (arrived (b'\n' ∷ [])) half_read).0 ≡ ok (some (b'{' ∷ b'}' ∷ b'\n' ∷ []))
unfolding read_frame check_deadlines accepted min read_checked read_more feed_pending answered fed
    has_partial feed feed_open feed_inspected newline_position valid_frame last any_line_break
    utf8_from continuations take drop nat_eq option_eq
second_half = refl

-- After the deadline of the handshake nothing is read.
too_late : (read_frame 100 (arrived (b'\n' ∷ [])) half_read).0 ≡ err IpcError.deadline_exceeded
unfolding read_frame check_deadlines accepted min
too_late = refl

half_read-running : half_read.closed ≡ false
unfolding accepted
half_read-running = refl

half_read-due : any_due 100 half_read ≡ true
unfolding accepted min
half_read-due = refl

overdue_final_example :
    (refusal (completes 100) half_read ≡ some IpcError.deadline_exceeded)
    × (run (flushes 120 WriteAnswer.would_block ∷ []) (step (completes 100) half_read)
        ≡ record half_read {
          closed = true;
          outgoing = record { frames = []; bytes = 0; offset = 0 };
        })
    × (refusal
          (reads 130 (arrived (b'\n' ∷ [])))
          (run (flushes 120 WriteAnswer.would_block ∷ []) (step (completes 100) half_read))
        ≡ some IpcError.closed)
overdue_final_example =
    overdue_final half_read (completes 100) (reads 130 (arrived (b'\n' ∷ [])))
      (flushes 120 WriteAnswer.would_block ∷ []) half_read-running half_read-due

run-IsTimed_example :
    IsTimed (run (reads 10 (arrived (b'{' ∷ b'}' ∷ [])) ∷ completes 20 ∷ []) (accepted 0 1000))
run-IsTimed_example = run-IsTimed 0 1000 (reads 10 (arrived (b'{' ∷ b'}' ∷ [])) ∷ completes 20 ∷ [])

half_received : Receives ([] ++ took (arrived (b'{' ∷ b'}' ∷ [])) start) ([] ++ []) false half_read
half_received =
    Received.reads 10 (arrived (b'{' ∷ b'}' ∷ [])) none half_read (accepts 0 1000) first_half

-- The newline completes the frame, and then the stream ends.
abbrev whole : Connection
whole = record half_read {
  decoder = record { partial = []; closed = false };
  pending = b'\n' ∷ [];
  offset = 1;
  available = 1;
  frame_deadline = none;
}

abbrev ended : Connection
ended = record whole { decoder = record { partial = []; closed = true }; closed = true }

completed :
    read_frame 20 (arrived (b'\n' ∷ [])) half_read ≡ (ok (some (b'{' ∷ b'}' ∷ b'\n' ∷ [])), whole)
unfolding read_frame check_deadlines accepted min read_checked read_more feed_pending answered fed
    has_partial feed feed_open feed_inspected newline_position valid_frame last any_line_break
    utf8_from continuations take drop nat_eq option_eq
completed = refl

at_end : read_frame 30 (arrived []) whole ≡ (err IpcError.closed, ended)
unfolding read_frame check_deadlines accepted min read_checked read_more Framing.finish close
    Framing.close has_partial nat_eq
at_end = refl

abbrev all_read : List ℕ
all_read =
    (([] ++ took (arrived (b'{' ∷ b'}' ∷ [])) start) ++ took (arrived (b'\n' ∷ [])) half_read)
    ++ lost 30 (arrived []) whole

Receives-exact_example : Stopped all_read (([] ++ []) ++ (b'{' ∷ b'}' ∷ b'\n' ∷ []) ∷ []) ended
Receives-exact_example =
    Receives-exact all_read (([] ++ []) ++ (b'{' ∷ b'}' ∷ b'\n' ∷ []) ∷ []) true ended (
      Received.fails 30 (arrived []) IpcError.closed ended
        (Received.reads 20 (arrived (b'\n' ∷ [])) (some (b'{' ∷ b'}' ∷ b'\n' ∷ [])) whole
          half_received completed)
        at_end)

abbrev last_permit : ConnectionBudget
last_permit = record { active = 1; limit = 2 }

abbrev full : ConnectionBudget
full = record { active = 4; limit = 4 }

manager_full :
    accept 0 1000 (ok tt) last_permit full ≡ (err IpcError.resource_exhausted, last_permit, full)
unfolding accept accept_with acquire release
manager_full = refl

accept_exact_example :
    ((last_permit.active < last_permit.limit)
      × (full.active < full.limit)
      × (accept 0 1000 (ok tt) last_permit full ≡ (
        ok (accepted 0 1000),
        record last_permit { active = last_permit.active + 1 },
        record full { active = full.active + 1 },
      )))
    ⊎ ((e : IpcError) × (accept 0 1000 (ok tt) last_permit full ≡ (err e, last_permit, full)))
accept_exact_example = accept_exact 0 1000 (ok tt) last_permit full
