-- ===== src/Ipc/Framing/Outbound.antt =====
-- The outbound queue of ipc/framing.rs as a stream of bytes that are still to be sent.
use omarchy_harbormaster.Common.{
  ℕ, ◌+◌, ◌-◌, ◌≤◌, ◌<◌, ◌≡◌, ◌≢◌, refl, ap, sym, ◌∙◌, subst, List, [], ◌∷◌, ◌++◌, some, length,
  drop, ok, err, nat_eq, option_eq, arith, append_nil, append_assoc, length-append, length-drop,
  drop-append, drop-drop, drop_all, All,
}
use omarchy_harbormaster.Ipc.{IpcError}
use omarchy_harbormaster.Ipc.Framing.{
  OutboundQueue, push, front, advance, pop_sent, max_unsent_frames, max_unsent_bytes,
}
use omarchy_harbormaster.Ipc.Framing.Stream.{concat}
use omarchy_harbormaster.Ipc.Framing.Lines.{IsFrame}
use omarchy_harbormaster.Ipc.Framing.Roundtrip.{valid_frame-parts}

-- Some of the first frame may be sent, but not all of it.
abbrev Started : ℕ → List (List ℕ) → Type 0
Started offset [] = offset ≡ 0
Started offset (frame ∷ frames) = offset < length frame

pub record IsBounded (q : OutboundQueue) : Type 0 where
  pub whole : All IsFrame q.frames
  pub counted : q.bytes ≡ length (concat q.frames)
  pub few : length q.frames ≤ max_unsent_frames
  pub small : q.bytes ≤ max_unsent_bytes
  pub started : Started q.offset q.frames

-- What is still to be sent.
abbrev pub unsent : OutboundQueue → List ℕ
unsent q = drop q.offset (concat q.frames)

concat-snoc :
    (frames : List (List ℕ)) (frame : List ℕ)
    → concat (frames ++ frame ∷ []) ≡ concat frames ++ frame
concat-snoc [] frame = append_nil frame
concat-snoc (f ∷ frames) frame =
    ap (λ t. f ++ t) (concat-snoc frames frame) ∙ sym (append_assoc f (concat frames) frame)

All-snoc :
    (frames : List (List ℕ)) (frame : List ℕ)
    → All IsFrame frames
    → IsFrame frame
    → All IsFrame (frames ++ frame ∷ [])
All-snoc [] frame fs f = (f, tt)
All-snoc (g ∷ frames) frame fs f = (fs.0, All-snoc frames frame fs.1 f)

frame_long : (frame : List ℕ) → IsFrame frame → 1 < length frame
frame_long frame f = (valid_frame-parts frame f.0).0

Started-snoc :
    (offset : ℕ) (frames : List (List ℕ)) (frame : List ℕ)
    → IsFrame frame
    → Started offset frames
    → Started offset (frames ++ frame ∷ [])
Started-snoc offset [] frame f s = omega (arith, s, frame_long frame f)
Started-snoc offset (g ∷ frames) frame f s = s

started-le :
    (offset : ℕ) (frames : List (List ℕ)) → Started offset frames → offset ≤ length (concat frames)
started-le offset [] s = omega arith
started-le offset (f ∷ frames) s = omega (arith, length-append f (concat frames))

-- What an accepted frame has passed.
pub push-checks :
    (frame : List ℕ) (q q' : OutboundQueue)
    → push frame q ≡ (ok tt, q')
    → IsFrame frame
      × (length q.frames ≢ max_unsent_frames)
      × (length frame ≤ max_unsent_bytes - q.bytes)
      × (record q { bytes = q.bytes + length frame; frames = q.frames ++ frame ∷ [] } ≡ q')
unfolding push
push-checks frame q q' h = ground arith

pub push-IsBounded :
    (frame : List ℕ) (q : OutboundQueue)
    → IsFrame frame
    → length q.frames ≢ max_unsent_frames
    → length frame ≤ max_unsent_bytes - q.bytes
    → IsBounded q
    → IsBounded (record q { bytes = q.bytes + length frame; frames = q.frames ++ frame ∷ [] })
push-IsBounded frame q f few small b = record {
  whole = All-snoc q.frames frame b.whole f;
  counted = omega (
    arith,
    b.counted,
    ap length (concat-snoc q.frames frame),
    length-append (concat q.frames) frame,
  );
  few = omega (arith, b.few, few, length-append q.frames (frame ∷ []));
  small = omega (arith, b.small, small);
  started = Started-snoc q.offset q.frames frame f b.started;
}

pub unsent-push :
    (frame : List ℕ) (q : OutboundQueue)
    → IsBounded q
    → drop q.offset (concat (q.frames ++ frame ∷ [])) ≡ unsent q ++ frame
unsent-push frame q b =
    ap (drop q.offset) (concat-snoc q.frames frame)
    ∙ drop-append q.offset (concat q.frames) frame (started-le q.offset q.frames b.started)

abbrev queue_of : List (List ℕ) → ℕ → ℕ → OutboundQueue
queue_of frames bytes offset = record { frames = frames; bytes = bytes; offset = offset }

Started-first : (frames : List (List ℕ)) → All IsFrame frames → Started 0 frames
Started-first [] fs = refl
Started-first (f ∷ frames) fs = omega (arith, frame_long f fs.0)

-- What `front` shows is not empty, and is the beginning of what is unsent.
front-unsent :
    (frames : List (List ℕ)) (bytes offset : ℕ) (piece : List ℕ)
    → IsBounded (queue_of frames bytes offset)
    → front (queue_of frames bytes offset) ≡ some piece
    → (frame : List ℕ) × (rest : List (List ℕ)) × (frames ≡ frame ∷ rest)
      × (drop offset frame ≡ piece)
unfolding front
front-unsent [] bytes offset piece b h = cc h
front-unsent (frame ∷ frames) bytes offset piece b h = (frame, frames, refl, cc h)

-- The first frame is all sent.
advance-last :
    (frame : List ℕ) (frames : List (List ℕ)) (bytes offset written : ℕ)
    → offset + written ≡ length frame
    → advance written (queue_of (frame ∷ frames) bytes offset)
      ≡ queue_of frames (bytes - length frame) 0
unfolding advance pop_sent
advance-last frame frames bytes offset written e = ground (arith, e)

-- Some of the first frame is left.
advance-part :
    (frame : List ℕ) (frames : List (List ℕ)) (bytes offset written : ℕ)
    → offset + written ≢ length frame
    → advance written (queue_of (frame ∷ frames) bytes offset)
      ≡ queue_of (frame ∷ frames) bytes (offset + written)
unfolding advance pop_sent
advance-part frame frames bytes offset written e = ground (arith, e)

-- A write moves on by what was written, and keeps the queue within its bounds.
abbrev pub Moves : OutboundQueue → ℕ → OutboundQueue → Type 0
Moves q written q' = IsBounded q' × (unsent q' ≡ drop written (unsent q))

advance-Moves :
    (frame : List ℕ) (frames : List (List ℕ)) (bytes offset written : ℕ)
    → IsBounded (queue_of (frame ∷ frames) bytes offset)
    → written ≤ length (drop offset frame)
    → Moves
        (queue_of (frame ∷ frames) bytes offset)
        written
        (advance written (queue_of (frame ∷ frames) bytes offset))
unfolding drop
advance-Moves frame frames bytes offset written b le =
    let longer = length-append frame (concat frames) in
    let left = length-drop offset frame in
    elim (nat_eq.dec (offset + written) (length frame)) [
      | yes all ↦ rw (advance-last frame frames bytes offset written all) (
        record {
          whole = b.whole.1;
          counted = omega (arith, b.counted, longer);
          few = omega (arith, b.few);
          small = omega (arith, b.small);
          started = Started-first frames b.whole.1;
        },
        sym (
            drop-drop offset written (frame ++ concat frames)
            ∙ drop-append (offset + written) frame (concat frames) (omega (arith, all))
            ∙ ap (λ t. t ++ concat frames)
                (drop_all (offset + written) frame (omega (arith, all)))),
      )
      | no some_left ↦ rw (advance-part frame frames bytes offset written some_left) (
        record {
          whole = b.whole;
          counted = b.counted;
          few = b.few;
          small = b.small;
          started = omega (arith, b.started, le, left, some_left);
        },
        sym (drop-drop offset written (frame ++ concat frames)),
      )
    ]

rewritten :
    (q : OutboundQueue) (frame : List ℕ) (frames : List (List ℕ)) (written : ℕ)
    → q.frames ≡ frame ∷ frames
    → IsBounded q
    → written ≤ length (drop q.offset frame)
    → Moves q written (advance written q)
rewritten q frame frames written first b le =
    let same : q ≡ queue_of (frame ∷ frames) q.bytes q.offset =
      ap (λ f. queue_of f q.bytes q.offset) first in
    subst (λ r. Moves r written (advance written r)) (sym same)
      (advance-Moves frame frames q.bytes q.offset written (subst IsBounded same b) le)

-- A write of at most what `front` shows.
pub written-Moves :
    (q : OutboundQueue) (piece : List ℕ) (written : ℕ)
    → IsBounded q
    → front q ≡ some piece
    → written ≤ length piece
    → Moves q written (advance written q)
written-Moves q piece written b h le =
    let (frame, frames, first, shown) = front-unsent q.frames q.bytes q.offset piece b h in
    rewritten q frame frames written first b (omega (arith, le, ap length shown))

-- What `front` shows is the beginning of what is unsent.
pub front-prefix :
    (q : OutboundQueue) (piece : List ℕ)
    → IsBounded q
    → front q ≡ some piece
    → (rest : List ℕ) × (unsent q ≡ piece ++ rest)
front-prefix q piece b h =
    let (frame, frames, first, shown) = front-unsent q.frames q.bytes q.offset piece b h in
    let started = subst (Started q.offset) first b.started in
    (
      concat frames,
      ap (λ f. drop q.offset (concat f)) first
          ∙ drop-append q.offset frame (concat frames) (omega (arith, started))
          ∙ ap (λ t. t ++ concat frames) shown,
    )

-- A refused frame changes nothing.
pub push_refused :
    (frame : List ℕ) (q q' : OutboundQueue) (e : IpcError) → push frame q ≡ (err e, q') → q ≡ q'
unfolding push
push_refused frame q q' e h = ground arith
