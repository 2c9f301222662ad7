-- ===== src/Ipc/Framing/Roundtrip.antt =====
-- A stream of whole frames, however it is cut, gives these frames: `feed` of ipc/framing.rs undoes
-- what a sender writes.
use omarchy_harbormaster.Common.{
  ℕ, ◌+◌, ◌-◌, ◌<◌, ◌≡◌, refl, ap, sym, ◌∙◌, true, false, List, [], ◌∷◌, ◌++◌, none, some, length,
  take, ok, nat_eq, option_eq, arith, append_nil, append_assoc, length-append, All, take_more,
}
use omarchy_harbormaster.Protocol.{max_frame_bytes}
use omarchy_harbormaster.Ipc.Framing.{FrameDecoder, new_decoder, valid_frame, last, any_line_break}
use omarchy_harbormaster.Ipc.Framing.Bytewise.{IsOpen, read_byte, read_byte-kept}
use omarchy_harbormaster.Ipc.Framing.Stream.{with_frame, decode, read_all, concat}
use omarchy_harbormaster.Ipc.Framing.Chunks.{decode_bytewise}
use omarchy_harbormaster.Ipc.Framing.Lines.{IsFrame, read_all-byte}

-- Bytes without a line break are kept while they do not fill the decoder.
read_all-body :
    (body rest : List ℕ) (d : FrameDecoder)
    → any_line_break body ≡ false
    → length d.partial + length body < max_frame_bytes
    → read_all (body ++ rest) d ≡ read_all rest (record d { partial = d.partial ++ body })
unfolding any_line_break
read_all-body [] rest d plain room =
    ap (λ p. read_all rest (record d { partial = p })) (sym (append_nil d.partial))
read_all-body (b ∷ body) rest d plain room =
    let longer = length-append d.partial (b ∷ []) in
    let kept = read_byte-kept b d (ground arith) (omega (arith, longer, room)) in
    read_all-byte b (body ++ rest) d _ kept
    ∙ read_all-body body rest (record d { partial = d.partial ++ b ∷ [] }) (ground arith)
        (omega (arith, longer, room))
    ∙ ap (λ p. read_all rest (record d { partial = p })) (append_assoc d.partial (b ∷ []) body)

-- A list is what comes before its last member, and that member.
snoc-last : (bs : List ℕ) (c : ℕ) → last bs ≡ some c → take (length bs - 1) bs ++ c ∷ [] ≡ bs
unfolding last
snoc-last [] c h = cc h
snoc-last (b ∷ []) c h = unfold take in cc h
snoc-last (b ∷ x ∷ xs) c h =
    ap (λ t. t ++ c ∷ [])
      (take_more (length (b ∷ x ∷ xs) - 1) (length (x ∷ xs) - 1) b (x ∷ xs) (omega arith))
    ∙ ap (λ t. b ∷ t) (snoc-last (x ∷ xs) c h)

-- What a valid frame is: a body without a line break and a newline.
pub valid_frame-parts :
    (frame : List ℕ)
    → valid_frame frame ≡ true
    → (1 < length frame)
      × (last frame ≡ some b'\n')
      × (any_line_break (take (length frame - 1) frame) ≡ false)
unfolding valid_frame
valid_frame-parts frame h = ground arith

read_byte-ends :
    (d : FrameDecoder)
    → valid_frame (d.partial ++ b'\n' ∷ []) ≡ true
    → read_byte b'\n' d ≡ (ok (some (d.partial ++ b'\n' ∷ [])), record d { partial = [] })
unfolding read_byte
read_byte-ends d h = ground (arith, h)

read_all-frame :
    (frame rest : List ℕ)
    → IsFrame frame
    → read_all (frame ++ rest) new_decoder ≡ with_frame (some frame) (read_all rest new_decoder)
read_all-frame frame rest (valid, fits) =
    let (long, ends, plain) = valid_frame-parts frame valid in
    let body = take (length frame - 1) frame in
    let whole : body ++ b'\n' ∷ [] ≡ frame = snoc-last frame b'\n' ends in
    let longer = length-append body (b'\n' ∷ []) in
    let held : FrameDecoder = record { partial = body; closed = false } in
    ap (λ f. read_all (f ++ rest) new_decoder) (sym whole)
    ∙ ap (λ s. read_all s new_decoder) (append_assoc body (b'\n' ∷ []) rest)
    ∙ read_all-body body (b'\n' ∷ rest) new_decoder plain
        (omega (arith, longer, ap length whole, fits))
    ∙ read_all-byte b'\n' rest held _ (read_byte-ends held (rw whole valid))
    ∙ ap (λ f. with_frame (some f) (read_all rest new_decoder)) whole

read_all-frames :
    (frames : List (List ℕ))
    → All IsFrame frames
    → read_all (concat frames) new_decoder
      ≡ record { frames = frames; failure = none; decoder = new_decoder }
read_all-frames [] f = unfold read_all in refl
read_all-frames (frame ∷ frames) (f, fs) =
    read_all-frame frame (concat frames) f
    ∙ ap (with_frame (some frame)) (read_all-frames frames fs)

new_decoder-IsOpen : IsOpen new_decoder
new_decoder-IsOpen = record { running = refl; room = omega arith }

-- A new decoder reads back the frames of a stream, whatever chunks the stream arrives in, and ends
-- as it began.
pub decode_frames :
    (frames chunks : List (List ℕ))
    → All IsFrame frames
    → concat chunks ≡ concat frames
    → decode chunks new_decoder ≡ record { frames = frames; failure = none; decoder = new_decoder }
decode_frames frames chunks f same =
    decode_bytewise chunks new_decoder new_decoder-IsOpen
    ∙ ap (λ s. read_all s new_decoder) same
    ∙ read_all-frames frames f
