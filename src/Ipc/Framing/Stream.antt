-- ===== src/Ipc/Framing/Stream.antt =====
-- The loop in which a connection feeds its decoder (`read_frame` of ipc/connection.rs), and that
-- the frames do not depend on how a stream was cut into chunks.
use omarchy_harbormaster.Common.{
  ℕ, zero, suc, ◌≤◌, List, [], ◌∷◌, ◌++◌, Option, none, some, length, drop, Result, ok, err, nat_eq,
  arith, length-append,
}
use omarchy_harbormaster.Ipc.{IpcError}
use omarchy_harbormaster.Ipc.Framing.{FrameDecoder, feed}
use omarchy_harbormaster.Ipc.Framing.Bytewise.{IsOpen, read_byte, read_bytes, after_byte, count_one}

-- The frames of a stream, what ended it, and the decoder that is left.
pub record Decoded : Type 0 where
  pub frames : List (List ℕ)
  pub failure : Option IpcError
  pub decoder : FrameDecoder

abbrev pub stopped : FrameDecoder → Option IpcError → Decoded
stopped d failure = record { frames = []; failure = failure; decoder = d }

abbrev pub with_frame : Option (List ℕ) → Decoded → Decoded
with_frame none r = r
with_frame (some frame) r = record r { frames = frame ∷ r.frames }

-- What follows an answer of `feed`: the rest of the chunk, unless it failed.
abbrev pub resumed : Result IpcError (ℕ × Option (List ℕ)) × FrameDecoder → Decoded → Decoded
resumed (err e, d) rest = stopped d (some e)
resumed (ok (n, frame), d) rest = with_frame frame rest

-- How much of a chunk an answer of `feed` has consumed.
abbrev pub consumed : Result IpcError (ℕ × Option (List ℕ)) → ℕ
consumed (err e) = 0
consumed (ok (n, frame)) = n

-- Feeding one chunk until it is consumed, on fuel; its length is enough.
unfoldable pub drain : ℕ → List ℕ → FrameDecoder → Decoded
drain zero bytes d = stopped d none
drain (suc fuel) [] d = stopped d none
drain (suc fuel) (b ∷ bs) d =
    let out = feed (b ∷ bs) d in
    let rest = drain fuel (drop (consumed out.0) (b ∷ bs)) out.1 in resumed out rest

-- A failure ends the stream; otherwise the frames of the rest follow.
abbrev pub followed : Decoded → Decoded → Decoded
followed r rest = elim r.failure [
  | some e ↦ r
  | none ↦ record rest { frames = r.frames ++ rest.frames }
]

-- A stream that arrives in chunks.
unfoldable pub decode : List (List ℕ) → FrameDecoder → Decoded
decode [] d = stopped d none
decode (chunk ∷ chunks) d =
    let first = drain (length chunk) chunk d in
    let rest = decode chunks first.decoder in followed first rest

-- The same stream read a byte at a time.
unfoldable pub read_all : List ℕ → FrameDecoder → Decoded
read_all [] d = stopped d none
read_all (b ∷ bs) d =
    let out = read_byte b d in
    let rest = read_all bs out.1 in
    elim out.0 [ err e ↦ stopped out.1 (some e) | ok frame ↦ with_frame frame rest ]

abbrev pub concat : List (List ℕ) → List ℕ
concat [] = []
concat (xs ∷ xss) = xs ++ concat xss

-- An answer that is no error leaves the decoder open, and consumed something.
abbrev pub Progress : ℕ → Result IpcError (ℕ × Option (List ℕ)) × FrameDecoder → Type 0
Progress least (err e, d) = Unit
Progress least (ok (n, frame), d) = IsOpen d × (least ≤ n)

abbrev pub StaysOpen : Result IpcError (Option (List ℕ)) × FrameDecoder → Type 0
StaysOpen (err e, d) = Unit
StaysOpen (ok frame, d) = IsOpen d

pub read_byte-StaysOpen : (b : ℕ) (d : FrameDecoder) → IsOpen d → StaysOpen (read_byte b d)
unfolding read_byte
read_byte-StaysOpen b d o = ground (arith, o.running, o.room, length-append d.partial (b ∷ []))

count_one-Progress :
    (out : Result IpcError (ℕ × Option (List ℕ)) × FrameDecoder)
    → Progress 0 out
    → Progress 1 (count_one out)
count_one-Progress (err e, d) p = tt
count_one-Progress (ok (n, frame), d) p = (p.0, omega arith)

after_byte-Progress :
    (out : Result IpcError (Option (List ℕ)) × FrameDecoder)
    (rest : Result IpcError (ℕ × Option (List ℕ)) × FrameDecoder)
    → StaysOpen out
    → (IsOpen out.1 → Progress 0 rest)
    → Progress 1 (after_byte out rest)
after_byte-Progress (err e, d) rest s p = tt
after_byte-Progress (ok (some frame), d) rest s p = (s, omega arith)
after_byte-Progress (ok none, d) rest s p = count_one-Progress rest (p s)

weaken :
    (out : Result IpcError (ℕ × Option (List ℕ)) × FrameDecoder) → Progress 1 out → Progress 0 out
weaken (err e, d) p = tt
weaken (ok (n, frame), d) p = (p.0, omega arith)

read_bytes-Progress : (bs : List ℕ) (d : FrameDecoder) → IsOpen d → Progress 0 (read_bytes bs d)
unfolding read_bytes
read_bytes-Progress [] d o = (o, omega arith)
read_bytes-Progress (b ∷ bs) d o = weaken _ (
    after_byte-Progress (read_byte b d) _ (read_byte-StaysOpen b d o)
      (λ o'. read_bytes-Progress bs (read_byte b d).1 o'))

pub read_bytes_cons-Progress :
    (b : ℕ) (bs : List ℕ) (d : FrameDecoder) → IsOpen d → Progress 1 (read_bytes (b ∷ bs) d)
unfolding read_bytes
read_bytes_cons-Progress b bs d o =
    after_byte-Progress (read_byte b d) _ (read_byte-StaysOpen b d o)
      (λ o'. read_bytes-Progress bs (read_byte b d).1 o')
