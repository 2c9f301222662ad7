-- ===== src/Ipc/Framing/Chunks.antt =====
-- A stream read in chunks by the decoder of ipc/framing.rs, against the same stream read a byte at
-- a time.
use omarchy_harbormaster.Common.{
  ℕ, zero, suc, ◌≤◌, ◌≡◌, refl, ap, sym, ◌∙◌, subst, List, [], ◌∷◌, ◌++◌, Option, none, some,
  length, drop, Result, ok, err, nat_eq, arith, length-drop, Option-cases, inl, inr,
}
use omarchy_harbormaster.Ipc.{IpcError}
use omarchy_harbormaster.Ipc.Framing.{FrameDecoder}
use omarchy_harbormaster.Ipc.Framing.Bytewise.{
  IsOpen, read_byte, read_bytes, after_byte, count_one, feed_bytewise,
}
use omarchy_harbormaster.Ipc.Framing.Stream.{
  Decoded, stopped, with_frame, resumed, consumed, drain, followed, decode, read_all, concat,
  Progress, StaysOpen, read_byte-StaysOpen, read_bytes_cons-Progress,
}

-- The rest of a stream, from an answer on.
abbrev rest_of : Result IpcError (ℕ × Option (List ℕ)) × FrameDecoder → List ℕ → Decoded
rest_of out bs = resumed out (read_all (drop (consumed out.0) bs) out.1)

rest_of-count_one :
    (out : Result IpcError (ℕ × Option (List ℕ)) × FrameDecoder) (b : ℕ) (bs : List ℕ)
    → rest_of (count_one out) (b ∷ bs) ≡ rest_of out bs
unfolding drop
rest_of-count_one (err e, d) b bs = refl
rest_of-count_one (ok (n, frame), d) b bs = refl

-- `read_all` on what a byte has left.
abbrev pub read_rest : Result IpcError (Option (List ℕ)) × FrameDecoder → List ℕ → Decoded
read_rest out bs = elim out.0 [
  | err e ↦ stopped out.1 (some e)
  | ok frame ↦ with_frame frame (read_all bs out.1)
]

read_rest-after_byte :
    (out : Result IpcError (Option (List ℕ)) × FrameDecoder) (b : ℕ) (bs : List ℕ)
    → read_all bs out.1 ≡ rest_of (read_bytes bs out.1) bs
    → read_rest out bs ≡ rest_of (after_byte out (read_bytes bs out.1)) (b ∷ bs)
unfolding drop
read_rest-after_byte (err e, d) b bs ih = refl
read_rest-after_byte (ok (some frame), d) b bs ih = refl
read_rest-after_byte (ok none, d) b bs ih = ih ∙ sym (rest_of-count_one (read_bytes bs d) b bs)

read_all-read_bytes :
    (bs : List ℕ) (d : FrameDecoder) → read_all bs d ≡ rest_of (read_bytes bs d) bs
unfolding read_all read_bytes drop
read_all-read_bytes [] d = refl
read_all-read_bytes (b ∷ bs) d =
    read_rest-after_byte (read_byte b d) b bs (read_all-read_bytes bs (read_byte b d).1)

resumed-drain :
    (out : Result IpcError (ℕ × Option (List ℕ)) × FrameDecoder) (fuel : ℕ) (bytes : List ℕ)
    → Progress 1 out
    → length bytes ≤ suc fuel
    → ((bs : List ℕ) (d : FrameDecoder)
        → IsOpen d
        → length bs ≤ fuel
        → drain fuel bs d ≡ read_all bs d)
    → resumed out (drain fuel (drop (consumed out.0) bytes) out.1) ≡ rest_of out bytes
resumed-drain (err e, d) fuel bytes p enough ih = refl
resumed-drain (ok (n, frame), d) fuel bytes p enough ih =
    ap (with_frame frame)
      (ih (drop n bytes) d p.0 (omega (arith, length-drop n bytes, p.1, enough)))

-- Feeding a chunk to an open decoder until the chunk is consumed gives what its bytes give one at a
-- time, with fuel for as many rounds as the chunk has bytes.
pub drain_bytewise :
    (fuel : ℕ) (bytes : List ℕ) (d : FrameDecoder)
    → IsOpen d
    → length bytes ≤ fuel
    → drain fuel bytes d ≡ read_all bytes d
unfolding drain read_all
drain_bytewise zero [] d o enough = refl
drain_bytewise zero (b ∷ bs) d o enough = absurd (omega arith)
drain_bytewise (suc fuel) [] d o enough = refl
drain_bytewise (suc fuel) (b ∷ bs) d o enough = rw (feed_bytewise (b ∷ bs) d o) (
    resumed-drain (read_bytes (b ∷ bs) d) fuel (b ∷ bs) (read_bytes_cons-Progress b bs d o) enough
      (λ bs' d' o' e'. drain_bytewise fuel bs' d' o' e')
    ∙ sym (read_all-read_bytes (b ∷ bs) d))

followed-with_frame :
    (frame : Option (List ℕ)) (r rest : Decoded)
    → with_frame frame (followed r rest) ≡ followed (with_frame frame r) rest
followed-with_frame none r rest = refl
followed-with_frame (some frame) r rest = elim (Option-cases r.failure) [
  | inl e ↦ rw e refl
  | inr (failure, e) ↦ rw e refl
]

decoder-with_frame :
    (frame : Option (List ℕ)) (r : Decoded) → (with_frame frame r).decoder ≡ r.decoder
decoder-with_frame none r = refl
decoder-with_frame (some frame) r = refl

failure-with_frame :
    (frame : Option (List ℕ)) (r : Decoded) → (with_frame frame r).failure ≡ r.failure
failure-with_frame none r = refl
failure-with_frame (some frame) r = refl

abbrev then_all : Decoded → List ℕ → Decoded
then_all r ys = followed r (read_all ys r.decoder)

read_rest-append :
    (out : Result IpcError (Option (List ℕ)) × FrameDecoder) (xs ys : List ℕ)
    → read_all (xs ++ ys) out.1 ≡ then_all (read_all xs out.1) ys
    → read_rest out (xs ++ ys) ≡ then_all (read_rest out xs) ys
read_rest-append (err e, d) xs ys ih = refl
read_rest-append (ok frame, d) xs ys ih =
    ap (with_frame frame) ih
    ∙ followed-with_frame frame (read_all xs d) (read_all ys (read_all xs d).decoder)
    ∙ ap (λ d'. followed (with_frame frame (read_all xs d)) (read_all ys d'))
        (sym (decoder-with_frame frame (read_all xs d)))

read_all-append :
    (xs ys : List ℕ) (d : FrameDecoder) → read_all (xs ++ ys) d ≡ then_all (read_all xs d) ys
unfolding read_all
read_all-append [] ys d = refl
read_all-append (b ∷ xs) ys d =
    read_rest-append (read_byte b d) xs ys (read_all-append xs ys (read_byte b d).1)

read_rest-IsOpen :
    (out : Result IpcError (Option (List ℕ)) × FrameDecoder) (bs : List ℕ)
    → StaysOpen out
    → (IsOpen out.1 → (read_all bs out.1).failure ≡ none → IsOpen (read_all bs out.1).decoder)
    → (read_rest out bs).failure ≡ none
    → IsOpen (read_rest out bs).decoder
read_rest-IsOpen (err e, d) bs s ih fine = cc fine
read_rest-IsOpen (ok frame, d) bs s ih fine =
    subst IsOpen (sym (decoder-with_frame frame (read_all bs d)))
      (ih s (sym (failure-with_frame frame (read_all bs d)) ∙ fine))

pub read_all-IsOpen :
    (bs : List ℕ) (d : FrameDecoder)
    → IsOpen d
    → (read_all bs d).failure ≡ none
    → IsOpen (read_all bs d).decoder
unfolding read_all
read_all-IsOpen [] d o fine = o
read_all-IsOpen (b ∷ bs) d o fine =
    read_rest-IsOpen (read_byte b d) bs (read_byte-StaysOpen b d o)
      (λ o' fine'. read_all-IsOpen bs (read_byte b d).1 o' fine') fine

-- However a stream is cut into chunks, an open decoder gives the frames, the failure and the
-- state that the bytes of the stream give one at a time.
pub decode_bytewise :
    (chunks : List (List ℕ)) (d : FrameDecoder)
    → IsOpen d
    → decode chunks d ≡ read_all (concat chunks) d
unfolding decode
decode_bytewise [] d o = unfold read_all in refl
decode_bytewise (chunk ∷ chunks) d o =
    rw
      (
        drain_bytewise (length chunk) chunk d o (omega arith),
        read_all-append chunk (concat chunks) d,
      )
      (elim (Option-cases (read_all chunk d).failure) [
        | inl fine ↦
            ap (followed (read_all chunk d))
              (decode_bytewise chunks (read_all chunk d).decoder (read_all-IsOpen chunk d o fine))
        | inr (e, failed) ↦ rw failed refl
      ])
