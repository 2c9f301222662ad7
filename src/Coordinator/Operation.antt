-- ===== src/Coordinator/Operation.antt =====
-- crates/harbormaster/src/coordinator/operation.rs and the tickets of storage/worker/pending.rs.
pub mod Polling
use omarchy_harbormaster.Common.{
  Bool, true, false, Option, none, some, Result, ok, err, if◌then◌else◌,
}
use omarchy_harbormaster.Storage.{StorageError}
use omarchy_harbormaster.Storage.Types.{Request, Response}

pub data SubmitFailure : Type 0 where
  invalid : StorageError → SubmitFailure
  full stopped : SubmitFailure

pub data ReceiptError : Type 0 where
  pending unknown_outcome already_received : ReceiptError
  storage : StorageError → ReceiptError

pub record Ticket : Type 0 where
  pub request : Request
  pub received : Bool

-- What the reply channel of a ticket has: the worker's answer, nothing yet, or no sender left.
pub data Reply : Type 0 where
  answered : Result StorageError Response → Reply
  timeout disconnected : Reply

-- `Ticket::wait_timeout`, on a ticket whose answer has not been received.
unfoldable pub receive : Reply → Ticket → Result ReceiptError Response × Ticket
receive (answered (ok response)) ticket = (ok response, record ticket { received = true })
receive (answered (err e)) ticket =
    (err (ReceiptError.storage e), record ticket { received = true })
receive timeout ticket = (err ReceiptError.pending, ticket)
receive disconnected ticket = (err ReceiptError.unknown_outcome, ticket)

-- `Ticket::wait_timeout`
unfoldable pub wait_timeout : Reply → Ticket → Result ReceiptError Response × Ticket
wait_timeout reply ticket =
    if ticket.received then (err ReceiptError.already_received, ticket) else receive reply ticket

pub record Operation : Type 0 where
  pub request : Option Request
  pub ticket : Option Ticket

pub data Poll : Type 0 where
  pending backpressure unknown : Poll
  result : Result StorageError Response → Poll

-- `Operation::new`
abbrev pub new : Request → Operation
new request = record { request = some request; ticket = none }

-- `Operation::request`; `none` where the code panics.
unfoldable pub intent : Operation → Option Request
intent op = elim op.ticket [ none ↦ op.request | some ticket ↦ some ticket.request ]

-- What a refused submission polls as.
unfoldable pub refused : SubmitFailure → Poll
refused SubmitFailure.full = Poll.backpressure
refused SubmitFailure.stopped = Poll.result (err StorageError.persistence_unavailable)
refused (SubmitFailure.invalid e) = Poll.result (err e)

unfoldable pub answer : Result ReceiptError Response → Poll
answer (ok response) = Poll.result (ok response)
answer (err ReceiptError.pending) = Poll.pending
answer (err (ReceiptError.storage e)) = Poll.result (err e)
answer (err ReceiptError.unknown_outcome) = Poll.unknown
answer (err ReceiptError.already_received) = Poll.unknown

-- The wait at the end of `poll`.
unfoldable pub await : Reply → Ticket → Operation → Poll × Operation
await reply ticket op =
    let (received, left) = wait_timeout reply ticket in
    (answer received, record op { ticket = some left })

-- `poll`'s submission: `try_submit` takes the request, or gives it back with its reason.
unfoldable pub submit : Option SubmitFailure → Reply → Request → Operation → Poll × Operation
submit (some reason) reply request op = (refused reason, record op { request = some request })
submit none reply request op =
    await reply (record { request = request; received = false }) (record op { request = none })

-- `Operation::poll`; `none` where the code panics.
unfoldable pub poll : Option SubmitFailure → Reply → Operation → Option (Poll × Operation)
poll failure reply op = elim op.ticket [
  | some ticket ↦ some (await reply ticket op)
  | none ↦ elim op.request [ none ↦ none | some request ↦ some (submit failure reply request op) ]
]
