-- ===== src/Ipc/Connection/Receiving.antt =====
-- What `read_frame` of ipc/connection.rs returns over any history of a connection.
use omarchy_harbormaster.Common.{
  ℕ, ◌+◌, ◌≤◌, ◌≡◌, refl, ap, sym, ◌∙◌, subst, List, [], ◌∷◌, ◌++◌, Option, none, ◌==◌, length,
  take, drop, Result, ok, err, arith, append_nil, append_assoc, All, if◌then◌else◌, nat_eq,
  Bool-cases, inl, inr, take_all, drop_all, drop-drop, length-drop,
}
use omarchy_harbormaster.Ipc.{IpcError}
use omarchy_harbormaster.Ipc.Framing.{FrameDecoder, feed}
use omarchy_harbormaster.Ipc.Framing.Bytewise.{IsOpen}
use omarchy_harbormaster.Ipc.Framing.Stream.{concat}
use omarchy_harbormaster.Ipc.Framing.Lines.{IsFrame}
use omarchy_harbormaster.Ipc.Connection.{
  Connection, ReadAnswer, arrived, fed, answered, feed_pending, read_more, read_checked,
}
use omarchy_harbormaster.Ipc.Connection.Feeding.{Fed, feed-Fed, listed}

-- The bytes that a call of `read_frame` takes from the socket: it reads only when nothing is
-- pending.
abbrev answer_bytes : ReadAnswer → List ℕ
answer_bytes (arrived bs) = bs
answer_bytes ReadAnswer.would_block = []
answer_bytes ReadAnswer.failed = []

abbrev pub took : ReadAnswer → Connection → List ℕ
took answer c = if c.offset == c.available then answer_bytes answer else []

-- The bytes that have arrived are those of the returned frames, what the decoder holds, and what
-- is pending.
pub record Holds (stream : List ℕ) (frames : List (List ℕ)) (c : Connection) : Type 0 where
  pub decoding : IsOpen c.decoder
  pub within : c.offset ≤ c.available
  pub whole : c.available ≡ length c.pending
  pub valid : All IsFrame frames
  pub exact : concat frames ++ (c.decoder.partial ++ drop c.offset c.pending) ≡ stream

concat-append : (xss yss : List (List ℕ)) → concat (xss ++ yss) ≡ concat xss ++ concat yss
concat-append [] yss = refl
concat-append (xs ∷ xss) yss =
    ap (λ t. xs ++ t) (concat-append xss yss) ∙ sym (append_assoc xs (concat xss) (concat yss))

All-append :
    (xss yss : List (List ℕ)) → All IsFrame xss → All IsFrame yss → All IsFrame (xss ++ yss)
All-append [] yss a b = b
All-append (xs ∷ xss) yss a b = (a.0, All-append xss yss a.1 b)

fed-Holds :
    (now n : ℕ) (given : Option (List ℕ)) (d : FrameDecoder) (c : Connection) (stream : List ℕ)
    (frames : List (List ℕ))
    → Holds stream frames c
    → Fed c.decoder (drop c.offset c.pending) (ok (n, given), d)
    → Holds stream
        (frames ++ listed given)
        (fed now given (record c { decoder = d; offset = c.offset + n }))
unfolding fed
fed-Holds now n given d c stream frames s (still, n_le, valid, split) = record {
  decoding = still;
  within = omega (arith, n_le, length-drop c.offset c.pending, s.within, s.whole);
  whole = s.whole;
  valid = All-append frames (listed given) s.valid valid;
  exact =
      ap (λ t. t ++ (d.partial ++ drop (c.offset + n) c.pending))
        (concat-append frames (listed given))
      ∙ append_assoc (concat frames) (concat (listed given))
          (d.partial ++ drop (c.offset + n) c.pending)
      ∙ ap (λ t. concat frames ++ (concat (listed given) ++ (d.partial ++ t)))
          (sym (drop-drop c.offset n c.pending))
      ∙ ap (λ t. concat frames ++ t) split
      ∙ s.exact;
}

-- What a successful answer of `feed` on the pending bytes leaves.
answered-Holds :
    (now : ℕ) (out : Result IpcError (ℕ × Option (List ℕ)) × FrameDecoder) (c c' : Connection)
    (stream : List ℕ) (frames : List (List ℕ)) (frame : Option (List ℕ))
    → Holds stream frames c
    → Fed c.decoder (drop c.offset c.pending) out
    → answered now out c ≡ (ok frame, c')
    → Holds stream (frames ++ listed frame) c'
unfolding answered
answered-Holds now (err e, d) c c' stream frames frame s f h = cc (ap (λ o. o.0) h)
answered-Holds now (ok (n, given), d) c c' stream frames frame s f h =
    let same : given ≡ frame = cc (ap (λ o. o.0) h) in
    subst (λ x. Holds stream (frames ++ listed x) c') same
      (subst (Holds stream (frames ++ listed given)) (ap (λ o. o.1) h)
        (fed-Holds now n given d c stream frames s f))

-- The bytes that `read_frame` feeds.
pending-bytes :
    (c : Connection)
    → c.available ≡ length c.pending
    → drop c.offset (take c.available c.pending) ≡ drop c.offset c.pending
pending-bytes c whole = ap (drop c.offset) (take_all c.available c.pending (omega (arith, whole)))

feed_pending-Holds :
    (now : ℕ) (c c' : Connection) (stream : List ℕ) (frames : List (List ℕ))
    (frame : Option (List ℕ))
    → Holds stream frames c
    → feed_pending now c ≡ (ok frame, c')
    → Holds stream (frames ++ listed frame) c'
unfolding feed_pending
feed_pending-Holds now c c' stream frames frame s h =
    answered-Holds now (feed (drop c.offset (take c.available c.pending)) c.decoder) c c' stream
      frames frame s
      (subst (λ bs. Fed c.decoder (drop c.offset c.pending) (feed bs c.decoder))
        (sym (pending-bytes c s.whole)) (feed-Fed (drop c.offset c.pending) c.decoder s.decoding))
      h

-- The buffer with what a read has brought, when everything before it was consumed.
refilled-Holds :
    (b : ℕ) (bs : List ℕ) (c : Connection) (stream : List ℕ) (frames : List (List ℕ))
    → Holds stream frames c
    → c.offset ≡ c.available
    → Holds
        (stream ++ b ∷ bs)
        frames
        (record c { pending = b ∷ bs; offset = 0; available = length (b ∷ bs) })
unfolding drop
refilled-Holds b bs c stream frames s empty = record {
  decoding = s.decoding;
  within = omega arith;
  whole = refl;
  valid = s.valid;
  exact =
      let used : drop c.offset c.pending ≡ [] =
        drop_all c.offset c.pending (omega (arith, empty, s.whole)) in
      let before : concat frames ++ c.decoder.partial ≡ stream =
        ap (λ t. concat frames ++ t)
          (sym (append_nil c.decoder.partial) ∙ ap (λ t. c.decoder.partial ++ t) (sym used))
        ∙ s.exact in
      sym (append_assoc (concat frames) c.decoder.partial (b ∷ bs)) ∙ ap (λ t. t ++ b ∷ bs) before;
}

nothing_more :
    (stream : List ℕ) (frames : List (List ℕ)) (c : Connection)
    → Holds stream frames c
    → Holds (stream ++ []) (frames ++ []) c
nothing_more stream frames c s =
    subst (λ x. Holds x (frames ++ []) c) (sym (append_nil stream))
      (subst (λ x. Holds stream x c) (sym (append_nil frames)) s)

read_more-Holds :
    (now : ℕ) (answer : ReadAnswer) (c c' : Connection) (stream : List ℕ) (frames : List (List ℕ))
    (frame : Option (List ℕ))
    → Holds stream frames c
    → c.offset ≡ c.available
    → read_more now answer c ≡ (ok frame, c')
    → Holds (stream ++ answer_bytes answer) (frames ++ listed frame) c'
unfolding read_more
read_more-Holds now (arrived []) c c' stream frames frame s empty h = cc (ap (λ o. o.0) h)
read_more-Holds now (arrived (b ∷ bs)) c c' stream frames frame s empty h =
    feed_pending-Holds now (record c { pending = b ∷ bs; offset = 0; available = length (b ∷ bs) })
      c' (stream ++ b ∷ bs) frames frame (refilled-Holds b bs c stream frames s empty) h
read_more-Holds now ReadAnswer.would_block c c' stream frames frame s empty h =
    let same : none ≡ frame = cc (ap (λ o. o.0) h) in
    subst (λ x. Holds (stream ++ []) (frames ++ listed x) c') same
      (subst (Holds (stream ++ []) (frames ++ [])) (ap (λ o. o.1) h)
        (nothing_more stream frames c s))
read_more-Holds now ReadAnswer.failed c c' stream frames frame s empty h = cc (ap (λ o. o.0) h)

pub read_checked-Holds :
    (now : ℕ) (answer : ReadAnswer) (c c' : Connection) (stream : List ℕ) (frames : List (List ℕ))
    (frame : Option (List ℕ))
    → Holds stream frames c
    → read_checked now answer c ≡ (ok frame, c')
    → Holds (stream ++ took answer c) (frames ++ listed frame) c'
unfolding read_checked
read_checked-Holds now answer c c' stream frames frame s h =
    elim (Bool-cases (c.offset == c.available)) [
      | inl empty ↦
          let all : took answer c ≡ answer_bytes answer = ground (arith, empty) in
          let reading : read_checked now answer c ≡ read_more now answer c =
            ground (arith, empty) in
          subst (λ x. Holds (stream ++ x) (frames ++ listed frame) c') (sym all)
            (read_more-Holds now answer c c' stream frames frame s (ground (arith, empty))
              (sym reading ∙ h))
      | inr more ↦
          let none_taken : took answer c ≡ [] = ground (arith, more) in
          let feeding : read_checked now answer c ≡ feed_pending now c = ground (arith, more) in
          subst (λ x. Holds (stream ++ x) (frames ++ listed frame) c') (sym none_taken)
            (subst (λ x. Holds x (frames ++ listed frame) c') (sym (append_nil stream))
              (feed_pending-Holds now c c' stream frames frame s (sym feeding ∙ h)))
    ]
