-- ===== src/Coordinator/Operation/Polling.antt =====
-- One poll of an operation of coordinator/operation.rs: its intent is kept until it is answered.
use omarchy_harbormaster.Common.{
  ◌≡◌, ◌⊎◌, inl, inr, refl, sym, subst, Bool, true, false, Option, none, some, Result, ok, err,
}
use omarchy_harbormaster.Storage.{StorageError}
use omarchy_harbormaster.Storage.Types.{Request, Response}
use omarchy_harbormaster.Coordinator.Operation.{
  Operation, Poll, Reply, SubmitFailure, Ticket, answer, answered, await, disconnected, intent, new,
  poll, receive, refused, submit, timeout, wait_timeout,
}

abbrev pub sent : Request → Operation
sent request = record {
  request = none;
  ticket = some (record { request = request; received = false });
}

-- The operation has its intent, queued or not, and no answer yet.
pub data Holds (request : Request) (op : Operation) : Type 0 where
  unsent : op ≡ new request → Holds request op
  queued : op ≡ sent request → Holds request op

pub Holds-intent :
    (request : Request) (op : Operation) → Holds request op → intent op ≡ some request
unfolding intent
Holds-intent request op (unsent e) = subst (λ o. intent o ≡ some request) (sym e) refl
Holds-intent request op (queued e) = subst (λ o. intent o ≡ some request) (sym e) refl

-- Is the request with the worker.
abbrev pub is_queued : Operation → Bool
is_queued op = elim op.ticket [ none ↦ false | some ticket ↦ true ]

-- What a poll finds: no answer yet, a refusal to queue, a lost answer, or the answer.
pub data Polled (request : Request) (reply : Reply) (p : Poll) (op : Operation) : Type 0 where
  quiet :
      (p ≡ Poll.pending) ⊎ (p ≡ Poll.backpressure) → Holds request op → Polled request reply p op
  unqueued :
      (e : StorageError) → p ≡ Poll.result (err e) → Holds request op → Polled request reply p op
  lost : p ≡ Poll.unknown → Polled request reply p op
  got :
      (a : Result StorageError Response)
      → reply ≡ answered a
      → p ≡ Poll.result a
      → Polled request reply p op

await-Polled :
    (request : Request) (reply : Reply) (op : Operation)
    → op.request ≡ none
    → Polled request reply
        (await reply (record { request = request; received = false }) op).0
        (await reply (record { request = request; received = false }) op).1
unfolding await wait_timeout receive answer
await-Polled request (answered (ok response)) op e = got (ok response) refl refl
await-Polled request (answered (err e')) op e = got (err e') refl refl
await-Polled request timeout op e = quiet (inl refl) (queued (cc e))
await-Polled request disconnected op e = lost refl

submit-Polled :
    (failure : Option SubmitFailure) (reply : Reply) (request : Request)
    → Polled request reply
        (submit failure reply request (new request)).0
        (submit failure reply request (new request)).1
unfolding submit refused
submit-Polled none reply request = await-Polled request reply _ refl
submit-Polled (some SubmitFailure.full) reply request = quiet (inr refl) (unsent refl)
submit-Polled (some SubmitFailure.stopped) reply request = unqueued _ refl (unsent refl)
submit-Polled (some (SubmitFailure.invalid e)) reply request = unqueued e refl (unsent refl)

-- A poll never panics while the intent is held.
pub poll-Polled :
    (failure : Option SubmitFailure) (reply : Reply) (request : Request) (op : Operation)
    → Holds request op
    → (out : Poll × Operation) × (poll failure reply op ≡ some out)
      × Polled request reply out.0 out.1
unfolding poll
poll-Polled failure reply request op (unsent e) = (
  submit failure reply request (new request),
  subst (λ o. poll failure reply o ≡ some (submit failure reply request (new request))) (sym e)
      refl,
  submit-Polled failure reply request,
)
poll-Polled failure reply request op (queued e) =
    let ticket : Ticket = record { request = request; received = false } in
    (
      await reply ticket (sent request),
      subst (λ o. poll failure reply o ≡ some (await reply ticket (sent request))) (sym e) refl,
      await-Polled request reply (sent request) refl,
    )

abbrev pub spent : Request → Operation
spent request = record {
  request = none;
  ticket = some (record { request = request; received = true });
}

new-answered :
    (a : Result StorageError Response) (request : Request)
    → poll none (answered a) (new request) ≡ some (Poll.result a, spent request)
unfolding poll submit await wait_timeout receive answer
new-answered (ok response) request = refl
new-answered (err e) request = refl

sent-answered :
    (a : Result StorageError Response) (request : Request)
    → poll none (answered a) (sent request) ≡ some (Poll.result a, spent request)
unfolding poll submit await wait_timeout receive answer
sent-answered (ok response) request = refl
sent-answered (err e) request = refl

-- A request that is queued, or that the worker takes, is answered by its answer.
pub poll-answered :
    (a : Result StorageError Response) (request : Request) (op : Operation)
    → Holds request op
    → poll none (answered a) op ≡ some (Poll.result a, spent request)
poll-answered a request op (unsent e) =
    subst (λ o. poll none (answered a) o ≡ some (Poll.result a, spent request)) (sym e)
      (new-answered a request)
poll-answered a request op (queued e) =
    subst (λ o. poll none (answered a) o ≡ some (Poll.result a, spent request)) (sym e)
      (sent-answered a request)
