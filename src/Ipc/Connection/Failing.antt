-- ===== src/Ipc/Connection/Failing.antt =====
-- Calls of ipc/connection.rs that fail: a failed read closes, and a closed connection stays as it is.
use omarchy_harbormaster.Common.{
  ℕ, ◌≡◌, ap, sym, ◌∙◌, true, List, [], ◌∷◌, ◌++◌, Option, ◌==◌, ◌||◌, drop, take, Result, ok, err,
  arith, append_assoc, All, if◌then◌else◌, nat_eq, Bool-cases, inl, inr,
}
use omarchy_harbormaster.Ipc.{IpcError}
use omarchy_harbormaster.Ipc.Framing.{FrameDecoder, feed}
use omarchy_harbormaster.Ipc.Framing.Stream.{concat}
use omarchy_harbormaster.Ipc.Framing.Lines.{IsFrame}
use omarchy_harbormaster.Ipc.Connection.{
  Connection, ReadAnswer, answered, arrived, behind, check_deadlines, checked, close, feed_pending,
  read_checked, read_frame, read_more,
}
use omarchy_harbormaster.Ipc.Connection.Calls.{any_due, check_deadlines-Checked, early, late, shut}
use omarchy_harbormaster.Ipc.Connection.Receiving.{Holds, took}

-- The bytes that a failed call of `read_frame` has taken from the socket: none when the check of the
-- deadlines fails.
abbrev pub lost : ℕ → ReadAnswer → Connection → List ℕ
lost now answer c = if c.closed || any_due now c then [] else took answer c

-- The returned frames are the first of the bytes that have arrived.
pub record Stopped (stream : List ℕ) (frames : List (List ℕ)) (c : Connection) : Type 0 where
  pub shut : c.closed ≡ true
  pub valid : All IsFrame frames
  pub rest : List ℕ
  pub exact : concat frames ++ rest ≡ stream

answered_closes :
    (now : ℕ) (out : Result IpcError (ℕ × Option (List ℕ)) × FrameDecoder) (c c' : Connection)
    (e : IpcError)
    → answered now out c ≡ (err e, c')
    → c'.closed ≡ true
unfolding answered close
answered_closes now (err e0, d) c c' e h = ap (λ o. o.1.closed) (sym h)
answered_closes now (ok out, d) c c' e h = cc (ap (λ o. o.0) h)

read_more_closes :
    (now : ℕ) (answer : ReadAnswer) (c c' : Connection) (e : IpcError)
    → read_more now answer c ≡ (err e, c')
    → c'.closed ≡ true
unfolding read_more close feed_pending
read_more_closes now (arrived []) c c' e h = ap (λ o. o.1.closed) (sym h)
read_more_closes now (arrived (b ∷ bs)) c c' e h = answered_closes now _ _ c' e h
read_more_closes now ReadAnswer.would_block c c' e h = cc (ap (λ o. o.0) h)
read_more_closes now ReadAnswer.failed c c' e h = ap (λ o. o.1.closed) (sym h)

read_checked_closes :
    (now : ℕ) (answer : ReadAnswer) (c c' : Connection) (e : IpcError)
    → read_checked now answer c ≡ (err e, c')
    → c'.closed ≡ true
unfolding read_checked feed_pending
read_checked_closes now answer c c' e h = elim (Bool-cases (c.offset == c.available)) [
  | inl empty ↦ read_more_closes now answer c c' e (ground (arith, empty, h))
  | inr more ↦
      answered_closes now (feed (drop c.offset (take c.available c.pending)) c.decoder) c c' e
        (ground (arith, more, h))
]

pub read_frame_closes :
    (now : ℕ) (answer : ReadAnswer) (c c' : Connection) (e : IpcError)
    → read_frame now answer c ≡ (err e, c')
    → c'.closed ≡ true
unfolding read_frame close
read_frame_closes now answer c c' e h = elim (check_deadlines-Checked now c) [
  | shut gone k ↦ ap (λ o. o.1.closed) (sym h ∙ ap (behind (read_checked now answer)) k) ∙ gone
  | late _ k ↦ ap (λ o. o.1.closed) (sym h ∙ ap (behind (read_checked now answer)) k)
  | early _ _ k ↦
      read_checked_closes now answer c c' e (sym (ap (behind (read_checked now answer)) k) ∙ h)
]

check_shut :
    (now : ℕ) (c : Connection) → c.closed ≡ true → check_deadlines now c ≡ (err IpcError.closed, c)
unfolding check_deadlines
check_shut now c gone = ground (arith, gone)

-- A closed connection fails every call, and stays as it is.
pub checked_shut {ℓ} :
    {A : Type ℓ} (now : ℕ) (body : Connection → Result IpcError A × Connection) (c : Connection)
    → c.closed ≡ true
    → checked now body c ≡ (err IpcError.closed, c)
checked_shut now body c gone = ap (behind body) (check_shut now c gone)

pub Holds-Stopped :
    (stream more : List ℕ) (frames : List (List ℕ)) (c c' : Connection)
    → Holds stream frames c
    → c'.closed ≡ true
    → Stopped (stream ++ more) frames c'
Holds-Stopped stream more frames c c' s gone = record {
  shut = gone;
  valid = s.valid;
  rest = (c.decoder.partial ++ drop c.offset c.pending) ++ more;
  exact =
      sym (append_assoc (concat frames) (c.decoder.partial ++ drop c.offset c.pending) more)
      ∙ ap (λ t. t ++ more) s.exact;
}

pub Stopped-later :
    (stream more : List ℕ) (frames : List (List ℕ)) (c c' : Connection)
    → Stopped stream frames c
    → c'.closed ≡ true
    → Stopped (stream ++ more) frames c'
Stopped-later stream more frames c c' s gone = record {
  shut = gone;
  valid = s.valid;
  rest = s.rest ++ more;
  exact = sym (append_assoc (concat frames) s.rest more) ∙ ap (λ t. t ++ more) s.exact;
}
