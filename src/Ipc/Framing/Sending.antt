-- ===== src/Ipc/Framing/Sending.antt =====
-- Histories of the outbound queue of ipc/framing.rs: `queue_frame` and `flush` of ipc/connection.rs
-- call it in these ways only.
use omarchy_harbormaster.Common.{
  ℕ, ◌≤◌, ◌≡◌, refl, ap, sym, ◌∙◌, subst, List, [], ◌++◌, some, length, take, drop, ok, err, arith,
  append_assoc, take-drop, drop-append,
}
use omarchy_harbormaster.Ipc.{IpcError}
use omarchy_harbormaster.Ipc.Framing.{OutboundQueue, new_outbound, push, front, advance}
use omarchy_harbormaster.Ipc.Framing.Outbound.{
  IsBounded, unsent, push-checks, push-IsBounded, unsent-push, written-Moves, front-prefix,
  push_refused,
}

-- `Sends accepted sent q`: from a new queue, `accepted` are the bytes of the frames that were taken,
-- and `sent` are the bytes that the socket has taken, which leave `q`.
pub data Sends : List ℕ → List ℕ → OutboundQueue → Type 0 where
  starts : Sends [] [] new_outbound
  takes :
      {accepted sent : List ℕ} {q : OutboundQueue} (frame : List ℕ) (q' : OutboundQueue)
      → Sends accepted sent q
      → push frame q ≡ (ok tt, q')
      → Sends (accepted ++ frame) sent q'
  refuses :
      {accepted sent : List ℕ} {q : OutboundQueue} (frame : List ℕ) (e : IpcError)
      (q' : OutboundQueue)
      → Sends accepted sent q
      → push frame q ≡ (err e, q')
      → Sends accepted sent q'
  writes :
      {accepted sent : List ℕ} {q : OutboundQueue} (piece : List ℕ) (written : ℕ)
      → Sends accepted sent q
      → front q ≡ some piece
      → written ≤ length piece
      → Sends accepted (sent ++ take written piece) (advance written q)

nothing-IsBounded : IsBounded new_outbound × (unsent new_outbound ≡ [])
unfolding drop
nothing-IsBounded = (
  record { whole = tt; counted = refl; few = omega arith; small = omega arith; started = refl },
  refl,
)

-- What was written is the beginning of what was unsent.
written_exact :
    (sent accepted piece rest left : List ℕ) (written : ℕ)
    → written ≤ length piece
    → left ≡ drop written (piece ++ rest)
    → sent ++ (piece ++ rest) ≡ accepted
    → (sent ++ take written piece) ++ left ≡ accepted
written_exact sent accepted piece rest left written le moved exact =
    append_assoc sent (take written piece) left
    ∙ ap (λ t. sent ++ (take written piece ++ t)) (moved ∙ drop-append written piece rest le)
    ∙ ap (λ t. sent ++ t) (sym (append_assoc (take written piece) (drop written piece) rest))
    ∙ ap (λ t. sent ++ (t ++ rest)) (take-drop written piece)
    ∙ exact

-- Whatever is pushed and however short each write is, the socket has taken exactly the bytes of
-- the accepted frames in order, up to those that the queue still holds; and the queue holds whole
-- frames, at most 256 of them and at most a mebibyte, of which it counts every byte.
pub Sends-exact :
    (accepted sent : List ℕ) (q : OutboundQueue)
    → Sends accepted sent q
    → IsBounded q × (sent ++ unsent q ≡ accepted)
Sends-exact accepted sent q starts = nothing-IsBounded
Sends-exact accepted sent q (takes {accepted = a} {q = p} frame q' before h) =
    let (bounded, exact) = Sends-exact a sent p before in
    let (valid, few, small, left) = push-checks frame p q' h in
    subst (λ r. IsBounded r × (sent ++ unsent r ≡ a ++ frame)) left
      (
        push-IsBounded frame p valid few small bounded,
        ap (λ t. sent ++ t) (unsent-push frame p bounded)
            ∙ sym (append_assoc sent (unsent p) frame)
            ∙ ap (λ t. t ++ frame) exact,
      )
Sends-exact accepted sent q (refuses {q = p} frame e q' before h) =
    subst (λ r. IsBounded r × (sent ++ unsent r ≡ accepted)) (push_refused frame p q' e h)
      (Sends-exact accepted sent p before)
Sends-exact accepted sent q (writes {sent = s} {q = p} piece written before h le) =
    let (bounded, exact) = Sends-exact accepted s p before in
    let (rest, shown) = front-prefix p piece bounded h in
    let (still, moved) = written-Moves p piece written bounded h le in
    (
      still,
      written_exact s accepted piece rest (unsent (advance written p)) written le
          (moved ∙ ap (drop written) shown) (ap (λ t. s ++ t) (sym shown) ∙ exact),
    )
