-- ===== src/Ipc/Connection.antt =====
-- crates/harbormaster/src/ipc/connection.rs: an accepted stream with its deadlines. An `Instant` is
-- a number of milliseconds; what the socket answers to a read or a write is an argument.
pub mod Calls
pub mod Deadlines
pub mod Feeding
pub mod Receiving
pub mod Failing
pub mod Received
pub mod Budget
mod Tests
use omarchy_harbormaster.Common.{
  ℕ, zero, suc, ◌+◌, ◌-◌, ◌≤◌, Bool, true, false, not, ◌&&◌, ◌||◌, List, [], ◌∷◌, Option, none,
  some, ◌==◌, ltb, leb, length, take, drop, if◌then◌else◌, Result, ok, err, nat_eq, is_none,
  is_some_and,
}
use omarchy_harbormaster.Common.BTreeMap.{is_some}
use omarchy_harbormaster.Ipc.{IpcError}
use omarchy_harbormaster.Ipc.Framing
use omarchy_harbormaster.Ipc.Framing.{
  FrameDecoder, OutboundQueue, new_decoder, new_outbound, feed, finish, has_partial, front, advance,
}

abbrev pub max_connections : ℕ
max_connections = 64

abbrev pub forward_limit : ℕ
forward_limit = 100

-- The active connections of all clones of a budget, and its limit.
pub record ConnectionBudget : Type 0 where
  pub active : ℕ
  pub limit : ℕ

-- `ConnectionBudget::new`
unfoldable pub new_budget : ℕ → Result IpcError ConnectionBudget
new_budget limit =
    if leb 1 limit && leb limit max_connections
    then ok (record { active = 0; limit = limit })
    else err IpcError.resource_exhausted

-- `ConnectionBudget::acquire`
unfoldable pub acquire : ConnectionBudget → Result IpcError (Unit {0}) × ConnectionBudget
acquire budget =
    if leb budget.limit budget.active
    then (err IpcError.resource_exhausted, budget)
    else (ok tt, record budget { active = budget.active + 1 })

-- `Permit::drop`
unfoldable pub release : ConnectionBudget → ConnectionBudget
release budget = record budget { active = budget.active - 1 }

-- `pending` is what the last read has put into the buffer.
pub record Connection : Type 0 where
  pub decoder : FrameDecoder
  pub outgoing : OutboundQueue
  pub pending : List ℕ
  pub offset : ℕ
  pub available : ℕ
  pub handshake_deadline : Option ℕ
  pub frame_deadline : Option ℕ
  pub write_deadline : Option ℕ
  pub closed : Bool

-- What the socket answers to a read; no bytes mean the end of the stream.
pub data ReadAnswer : Type 0 where
  arrived : List ℕ → ReadAnswer
  would_block failed : ReadAnswer

pub data WriteAnswer : Type 0 where
  written : ℕ → WriteAnswer
  would_block failed : WriteAnswer

unfoldable pub min : ℕ → ℕ → ℕ
min a b = if leb a b then a else b

-- The connection that `accept` makes, at `now` with the deadline that it is given.
unfoldable pub accepted : ℕ → ℕ → Connection
accepted now deadline = record {
  decoder = new_decoder;
  outgoing = new_outbound;
  pending = [];
  offset = 0;
  available = 0;
  handshake_deadline = some (min deadline (now + forward_limit));
  frame_deadline = none;
  write_deadline = none;
  closed = false;
}

-- `accept` with the two permits that it has asked for. Those that it holds are dropped on an error.
unfoldable pub accept_with :
    ℕ
    → ℕ
    → Result IpcError (Unit {0})
    → ConnectionBudget
    → Result IpcError (Unit {0}) × ConnectionBudget
    → Result IpcError (Unit {0}) × ConnectionBudget
    → Result IpcError Connection × ConnectionBudget × ConnectionBudget
accept_with now deadline setup manager (err e, taken) manager_permit = (err e, taken, manager)
accept_with now deadline setup manager (ok _, taken) (err e, manager_taken) =
    (err e, release taken, manager_taken)
accept_with now deadline (err e) manager (ok _, taken) (ok _, manager_taken) =
    (err e, release taken, release manager_taken)
accept_with now deadline (ok _) manager (ok _, taken) (ok _, manager_taken) =
    (ok (accepted now deadline), taken, manager_taken)

-- `Connection::accept`; `setup` is the verdict of the peer's credentials and of the socket's options.
unfoldable pub accept :
    ℕ
    → ℕ
    → Result IpcError (Unit {0})
    → ConnectionBudget
    → ConnectionBudget
    → Result IpcError Connection × ConnectionBudget × ConnectionBudget
accept now deadline setup budget manager =
    accept_with now deadline setup manager (acquire budget) (acquire manager)

-- `Connection::close`
unfoldable pub close : Connection → Connection
close c = record c { closed = true; outgoing = new_outbound }

abbrev pub is_due : ℕ → Option ℕ → Bool
is_due now none = false
is_due now (some deadline) = leb deadline now

-- `Connection::check_deadlines`
unfoldable pub check_deadlines : ℕ → Connection → Result IpcError (Unit {0}) × Connection
check_deadlines now c =
    if c.closed
    then (err IpcError.closed, c)
    else if is_due now c.handshake_deadline
        || is_due now c.frame_deadline
        || is_due now c.write_deadline
    then (err IpcError.deadline_exceeded, close c)
    else (ok tt, c)

-- `?`: a method goes on behind a check that passed.
abbrev pub behind {ℓ} :
    {A : Type ℓ}
    → (Connection → Result IpcError A × Connection)
    → Result IpcError (Unit {0}) × Connection
    → Result IpcError A × Connection
behind body (err e, c) = (err e, c)
behind body (ok _, c) = body c

-- A method that starts with `self.check_deadlines(now)?`.
abbrev pub checked {ℓ} :
    {A : Type ℓ}
    → ℕ
    → (Connection → Result IpcError A × Connection)
    → Connection
    → Result IpcError A × Connection
checked now body c = behind body (check_deadlines now c)

-- `Connection::complete_handshake`
unfoldable pub complete_handshake : ℕ → Connection → Result IpcError (Unit {0}) × Connection
complete_handshake now c = checked now (λ c'. (ok tt, record c' { handshake_deadline = none })) c

-- `result.and(Err(IpcError::Closed))`
abbrev pub end_of_stream : Result IpcError (Unit {0}) → IpcError
end_of_stream (err e) = e
end_of_stream (ok _) = IpcError.closed

-- The deadlines that `read_frame` sets once `feed` has answered.
unfoldable pub fed : ℕ → Option (List ℕ) → Connection → Connection
fed now frame c =
    let kept : Option ℕ = if is_some frame then none else c.frame_deadline in
    record c {
      frame_deadline =
          if has_partial c.decoder && is_none kept then some (now + forward_limit) else kept;
    }

-- The answer of `feed`.
unfoldable pub answered :
    ℕ
    → Result IpcError (ℕ × Option (List ℕ)) × FrameDecoder
    → Connection
    → Result IpcError (Option (List ℕ)) × Connection
answered now (err e, decoder) c = (err e, close (record c { decoder = decoder }))
answered now (ok (consumed, frame), decoder) c =
    (ok frame, fed now frame (record c { decoder = decoder; offset = c.offset + consumed }))

-- `read_frame` behind its read: feeding what is pending.
unfoldable pub feed_pending : ℕ → Connection → Result IpcError (Option (List ℕ)) × Connection
feed_pending now c = answered now (feed (drop c.offset (take c.available c.pending)) c.decoder) c

-- `read_frame` when nothing is pending, with what the socket answers.
unfoldable pub read_more :
    ℕ → ReadAnswer → Connection → Result IpcError (Option (List ℕ)) × Connection
read_more now (arrived []) c =
    let (result, decoder) = finish c.decoder in
    (err (end_of_stream result), close (record c { decoder = decoder }))
read_more now (arrived (b ∷ bs)) c =
    feed_pending now (record c { pending = b ∷ bs; offset = 0; available = length (b ∷ bs) })
read_more now ReadAnswer.would_block c = (ok none, c)
read_more now ReadAnswer.failed c = (err IpcError.io, close c)

-- `read_frame` behind its check of the deadlines.
unfoldable pub read_checked :
    ℕ → ReadAnswer → Connection → Result IpcError (Option (List ℕ)) × Connection
read_checked now answer c =
    if c.offset == c.available then read_more now answer c else feed_pending now c

-- `Connection::read_frame`
unfoldable pub read_frame :
    ℕ → ReadAnswer → Connection → Result IpcError (Option (List ℕ)) × Connection
read_frame now answer c = checked now (read_checked now answer) c

-- `queue_frame` behind its check of the deadlines.
unfoldable pub queue_checked :
    ℕ
    → Result IpcError (Unit {0}) × OutboundQueue
    → Connection
    → Result IpcError (Unit {0}) × Connection
queue_checked now (err IpcError.resource_exhausted, q) c =
    (err IpcError.resource_exhausted, close (record c { outgoing = q }))
queue_checked now (err e, q) c = (err e, record c { outgoing = q })
queue_checked now (ok _, q) c = (
  ok tt,
  record c {
    outgoing = q;
    write_deadline =
        if is_none c.write_deadline then some (now + forward_limit) else c.write_deadline;
  },
)

-- `Connection::queue_frame`
unfoldable pub queue_frame : ℕ → List ℕ → Connection → Result IpcError (Unit {0}) × Connection
queue_frame now frame c =
    checked now (λ c'. queue_checked now (Framing.push frame c'.outgoing) c') c

abbrev pub no_frames : OutboundQueue → Bool
no_frames q = length q.frames == 0

-- `flush` once the socket has answered.
unfoldable pub flush_answered : WriteAnswer → Connection → Result IpcError Bool × Connection
flush_answered (written zero) c = (err IpcError.closed, close c)
flush_answered (written (suc n)) c =
    let q : OutboundQueue = advance (suc n) c.outgoing in
    (
      ok (no_frames q),
      record c { outgoing = q; write_deadline = if no_frames q then none else c.write_deadline },
    )
flush_answered WriteAnswer.would_block c = (ok false, c)
flush_answered WriteAnswer.failed c = (err IpcError.io, close c)

unfoldable pub flush_checked : WriteAnswer → Connection → Result IpcError Bool × Connection
flush_checked answer c = elim (front c.outgoing) [
  | none ↦ (ok true, c)
  | some piece ↦ flush_answered answer c
]

-- `Connection::flush`
unfoldable pub flush : ℕ → WriteAnswer → Connection → Result IpcError Bool × Connection
flush now answer c = checked now (flush_checked answer) c
