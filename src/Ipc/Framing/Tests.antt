-- ===== src/Ipc/Framing/Tests.antt =====
-- Frames of ipc/framing.rs on short streams.
use omarchy_harbormaster.Common.{
  ℕ, ◌≡◌, refl, true, false, List, [], ◌∷◌, ◌++◌, none, some, ok, err, take, drop, nat_eq,
  option_eq, arith, All,
}
use omarchy_harbormaster.Ipc.{IpcError}
use omarchy_harbormaster.Ipc.Framing.{
  new_decoder, valid_frame, last, any_line_break, utf8_from, continuations, newline_position, feed,
  feed_open, feed_inspected, close, finish, has_partial, OutboundQueue, new_outbound, push, front,
  advance,
}
use omarchy_harbormaster.Ipc.Framing.Bytewise.{IsOpen}
use omarchy_harbormaster.Ipc.Framing.Stream.{decode, concat, read_all}
use omarchy_harbormaster.Ipc.Framing.Chunks.{decode_bytewise}
use omarchy_harbormaster.Ipc.Framing.Lines.{decode-Accounts, Accounts, IsFrame}
use omarchy_harbormaster.Ipc.Framing.Roundtrip.{decode_frames}
use omarchy_harbormaster.Ipc.Framing.Outbound.{IsBounded, unsent}
use omarchy_harbormaster.Ipc.Framing.Sending.{Sends, starts, takes, writes, Sends-exact}

abbrev object : List ℕ
object = b'{' ∷ b'}' ∷ b'\n' ∷ []

-- A string of the two bytes of U+00E9, and a newline.
abbrev accented : List ℕ
accented = 0xc3 ∷ 0xa9 ∷ b'\n' ∷ []

object_valid : valid_frame object ≡ true
unfolding valid_frame last any_line_break utf8_from continuations take nat_eq option_eq
object_valid = refl

accented_valid : valid_frame accented ≡ true
unfolding valid_frame last any_line_break utf8_from continuations take nat_eq option_eq
accented_valid = refl

-- A surrogate is no character.
surrogate_invalid : valid_frame (0xed ∷ 0xa0 ∷ 0x80 ∷ b'\n' ∷ []) ≡ false
unfolding valid_frame last any_line_break utf8_from continuations take nat_eq option_eq
surrogate_invalid = refl

blank_line_invalid : valid_frame (b'\n' ∷ []) ≡ false
unfolding valid_frame last any_line_break utf8_from continuations take nat_eq option_eq
blank_line_invalid = refl

feed_two : feed (object ++ accented) new_decoder ≡ (ok (3, some object), new_decoder)
unfolding feed feed_open feed_inspected newline_position valid_frame last any_line_break utf8_from
    continuations take nat_eq option_eq
feed_two = refl

feed_part :
    feed (b'{' ∷ b'}' ∷ []) new_decoder
    ≡ (ok (2, none), record { partial = b'{' ∷ b'}' ∷ []; closed = false })
unfolding feed feed_open feed_inspected newline_position valid_frame last any_line_break utf8_from
    continuations take nat_eq option_eq
feed_part = refl

finish_part :
    finish (record { partial = b'{' ∷ []; closed = false })
    ≡ (err IpcError.truncated_frame, record { partial = []; closed = true })
unfolding finish has_partial close
finish_part = refl

new_decoder-IsOpen : IsOpen new_decoder
new_decoder-IsOpen = record { running = refl; room = omega arith }

-- The two frames, cut inside the first and inside a character of the second.
abbrev cut : List (List ℕ)
cut = (b'{' ∷ []) ∷ (b'}' ∷ b'\n' ∷ 0xc3 ∷ []) ∷ (0xa9 ∷ b'\n' ∷ []) ∷ []

decode_bytewise_example : decode cut new_decoder ≡ read_all (concat cut) new_decoder
decode_bytewise_example = decode_bytewise cut new_decoder new_decoder-IsOpen

decode-Accounts_example : Accounts (new_decoder.partial ++ concat cut) (decode cut new_decoder)
decode-Accounts_example = decode-Accounts cut new_decoder new_decoder-IsOpen

both_frames : All IsFrame (object ∷ accented ∷ [])
both_frames = ((object_valid, omega arith), ((accented_valid, omega arith), tt))

decode_frames_example :
    decode cut new_decoder
    ≡ record { frames = object ∷ accented ∷ []; failure = none; decoder = new_decoder }
decode_frames_example = decode_frames (object ∷ accented ∷ []) cut both_frames refl

abbrev one_queued : OutboundQueue
one_queued = record { frames = object ∷ []; bytes = 3; offset = 0 }

object_taken : push object new_outbound ≡ (ok tt, one_queued)
unfolding push valid_frame last any_line_break utf8_from continuations take nat_eq option_eq
object_taken = refl

object_shown : front one_queued ≡ some object
unfolding front drop
object_shown = refl

-- The first two bytes of a frame are written.
two_written : Sends ([] ++ object) ([] ++ take 2 object) (advance 2 one_queued)
two_written =
    writes object 2 (takes object one_queued starts object_taken) object_shown (omega arith)

Sends-exact_example :
    IsBounded (advance 2 one_queued)
    × (([] ++ take 2 object) ++ unsent (advance 2 one_queued) ≡ [] ++ object)
Sends-exact_example =
    Sends-exact ([] ++ object) ([] ++ take 2 object) (advance 2 one_queued) two_written
