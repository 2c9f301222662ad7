-- ===== src/Ipc/Framing.antt =====
-- crates/harbormaster/src/ipc/framing.rs: frames of one line each, decoded and queued in bounds.
pub mod Bytewise
pub mod Stream
pub mod Chunks
pub mod Lines
pub mod Roundtrip
pub mod Outbound
pub mod Sending
mod Tests
use omarchy_harbormaster.Common.{
  ℕ, zero, suc, ◌+◌, ◌-◌, ◌*◌, Bool, true, false, not, ◌&&◌, ◌||◌, List, [], ◌∷◌, ◌++◌, Option,
  none, some, ◌==◌, ltb, leb, length, take, drop, if◌then◌else◌, Result, ok, err, nat_eq, option_eq,
}
use omarchy_harbormaster.Protocol.{max_frame_bytes}
use omarchy_harbormaster.Ipc.{IpcError}

abbrev pub max_unsent_frames : ℕ
max_unsent_frames = 256

abbrev pub max_unsent_bytes : ℕ
max_unsent_bytes = 1048576

pub record FrameDecoder : Type 0 where
  pub partial : List ℕ
  pub closed : Bool

-- `FrameDecoder::default`
abbrev pub new_decoder : FrameDecoder
new_decoder = record { partial = []; closed = false }

-- The bytes that may follow a byte of a character, as the lowest and the highest of each.
unfoldable pub continuations : ℕ → Option (List (ℕ × ℕ))
continuations b =
    if ltb b 0x80
    then some []
    else if ltb b 0xc2
    then none
    else if ltb b 0xe0
    then some ((0x80, 0xbf) ∷ [])
    else if b == 0xe0
    then some ((0xa0, 0xbf) ∷ (0x80, 0xbf) ∷ [])
    else if b == 0xed
    then some ((0x80, 0x9f) ∷ (0x80, 0xbf) ∷ [])
    else if ltb b 0xf0
    then some ((0x80, 0xbf) ∷ (0x80, 0xbf) ∷ [])
    else if b == 0xf0
    then some ((0x90, 0xbf) ∷ (0x80, 0xbf) ∷ (0x80, 0xbf) ∷ [])
    else if ltb b 0xf4
    then some ((0x80, 0xbf) ∷ (0x80, 0xbf) ∷ (0x80, 0xbf) ∷ [])
    else if b == 0xf4
    then some ((0x80, 0x8f) ∷ (0x80, 0xbf) ∷ (0x80, 0xbf) ∷ [])
    else none

-- Whether the bytes are the rest of a character and further characters.
unfoldable pub utf8_from : List (ℕ × ℕ) → List ℕ → Bool
utf8_from [] [] = true
utf8_from (range ∷ ranges) [] = false
utf8_from [] (b ∷ bs) = elim (continuations b) [ none ↦ false | some ranges ↦ utf8_from ranges bs ]
utf8_from ((low, high) ∷ ranges) (b ∷ bs) = leb low b && leb b high && utf8_from ranges bs

-- `std::str::from_utf8(frame).is_ok()`
abbrev pub is_utf8 : List ℕ → Bool
is_utf8 bytes = utf8_from [] bytes

unfoldable pub last : List ℕ → Option ℕ
last [] = none
last (b ∷ []) = some b
last (b ∷ c ∷ bs) = last (c ∷ bs)

-- `iter().any(|b| matches!(b, b'\n' | b'\r'))`
unfoldable pub any_line_break : List ℕ → Bool
any_line_break [] = false
any_line_break (b ∷ bs) = (b == b'\n' || b == b'\r') || any_line_break bs

unfoldable pub valid_frame : List ℕ → Bool
valid_frame frame =
    ltb 1 (length frame)
    && last frame == some b'\n'
    && not (any_line_break (take (length frame - 1) frame))
    && is_utf8 frame

-- `iter().position(|byte| *byte == b'\n')`
unfoldable pub newline_position : List ℕ → Option ℕ
newline_position [] = none
newline_position (b ∷ bs) =
    let rest = newline_position bs in
    if b == b'\n' then some 0 else elim rest [ none ↦ none | some i ↦ some (i + 1) ]

-- `FrameDecoder::close`
unfoldable pub close : FrameDecoder → FrameDecoder
close d = record { partial = []; closed = true }

-- The part of `feed` behind the search for a newline, which stands at an index or nowhere in
-- `inspected`.
unfoldable pub feed_inspected :
    List ℕ → Option ℕ → FrameDecoder → Result IpcError (ℕ × Option (List ℕ)) × FrameDecoder
feed_inspected inspected (some index) d =
    let frame : List ℕ = d.partial ++ take (index + 1) inspected in
    if valid_frame frame
    then (ok (index + 1, some frame), record d { partial = [] })
    else (err IpcError.invalid_frame, close d)
feed_inspected inspected none d =
    let partial : List ℕ = d.partial ++ inspected in
    if length partial == max_frame_bytes
    then (err IpcError.frame_too_large, close d)
    else (ok (length inspected, none), record d { partial = partial })

-- `feed` of a decoder that is not closed.
unfoldable pub feed_open :
    List ℕ → FrameDecoder → Result IpcError (ℕ × Option (List ℕ)) × FrameDecoder
feed_open bytes d =
    let inspected : List ℕ = take (max_frame_bytes - length d.partial) bytes in
    feed_inspected inspected (newline_position inspected) d

-- `FrameDecoder::feed`
unfoldable pub feed : List ℕ → FrameDecoder → Result IpcError (ℕ × Option (List ℕ)) × FrameDecoder
feed bytes d = if d.closed then (err IpcError.closed, d) else feed_open bytes d

abbrev is_empty : List ℕ → Bool
is_empty [] = true
is_empty (b ∷ bs) = false

-- `FrameDecoder::has_partial`
unfoldable pub has_partial : FrameDecoder → Bool
has_partial d = not (is_empty d.partial)

-- `FrameDecoder::finish`
unfoldable pub finish : FrameDecoder → Result IpcError (Unit {0}) × FrameDecoder
finish d = (if has_partial d then err IpcError.truncated_frame else ok tt, close d)

pub record OutboundQueue : Type 0 where
  pub frames : List (List ℕ)
  pub bytes : ℕ
  pub offset : ℕ

-- `OutboundQueue::default`
abbrev pub new_outbound : OutboundQueue
new_outbound = record { frames = []; bytes = 0; offset = 0 }

-- `OutboundQueue::push`
unfoldable pub push : List ℕ → OutboundQueue → Result IpcError (Unit {0}) × OutboundQueue
push frame q =
    if ltb max_frame_bytes (length frame)
    then (err IpcError.frame_too_large, q)
    else if not (valid_frame frame)
    then (err IpcError.invalid_frame, q)
    else if length q.frames == max_unsent_frames || ltb (max_unsent_bytes - q.bytes) (length frame)
    then (err IpcError.resource_exhausted, q)
    else (ok tt, record q { bytes = q.bytes + length frame; frames = q.frames ++ frame ∷ [] })

-- `OutboundQueue::front`
unfoldable pub front : OutboundQueue → Option (List ℕ)
front q = elim q.frames [ [] ↦ none | frame ∷ frames ↦ some (drop q.offset frame) ]

-- `advance` once `offset` was moved on.
unfoldable pub pop_sent : List (List ℕ) → OutboundQueue → OutboundQueue
pop_sent [] q = q
pop_sent (frame ∷ frames) q =
    if q.offset == length frame
    then record { frames = frames; bytes = q.bytes - length frame; offset = 0 }
    else q

-- `OutboundQueue::advance`
unfoldable pub advance : ℕ → OutboundQueue → OutboundQueue
advance written q = pop_sent q.frames (record q { offset = q.offset + written })
