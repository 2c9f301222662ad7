-- ===== src/Ipc/Framing/Lines.antt =====
-- The frames of a stream that the decoder of ipc/framing.rs reads.
use omarchy_harbormaster.Common.{
  ℕ, ◌≤◌, ◌≡◌, refl, ap, sym, ◌∙◌, subst, true, List, [], ◌∷◌, ◌++◌, Option, none, some, length,
  Result, ok, err, nat_eq, option_eq, arith, append_nil, append_assoc, length-append, Bool-cases,
  inl, inr, All,
}
use omarchy_harbormaster.Protocol.{max_frame_bytes}
use omarchy_harbormaster.Ipc.{IpcError}
use omarchy_harbormaster.Ipc.Framing.{FrameDecoder, valid_frame, close}
use omarchy_harbormaster.Ipc.Framing.Bytewise.{IsOpen, read_byte, read_byte-kept}
use omarchy_harbormaster.Ipc.Framing.Stream.{
  Decoded, with_frame, decode, read_all, concat, StaysOpen, read_byte-StaysOpen,
}
use omarchy_harbormaster.Ipc.Framing.Chunks.{decode_bytewise, read_rest}

-- A whole frame within the limit.
abbrev pub IsFrame : List ℕ → Type 0
IsFrame frame = (valid_frame frame ≡ true) × (length frame ≤ max_frame_bytes)

-- What a stream came to: its frames are valid and are its bytes in order, up to a tail, which is
-- what the decoder holds if nothing failed.
pub record Accounts (stream : List ℕ) (r : Decoded) : Type 0 where
  pub valid : All IsFrame r.frames
  pub tail : List ℕ
  pub split : concat r.frames ++ tail ≡ stream
  pub held : r.failure ≡ none → r.decoder.partial ≡ tail

-- The three answers to a byte.
pub data ByteRead (b : ℕ) (d : FrameDecoder)
    (out : Result IpcError (Option (List ℕ)) × FrameDecoder) : Type 0 where
  fails : (e : IpcError) (d' : FrameDecoder) → out ≡ (err e, d') → ByteRead b d out
  ends :
      IsFrame (d.partial ++ b ∷ [])
      → out ≡ (ok (some (d.partial ++ b ∷ [])), record d { partial = [] })
      → ByteRead b d out
  keeps : out ≡ (ok none, record d { partial = d.partial ++ b ∷ [] }) → ByteRead b d out

pub read_byte-ByteRead : (b : ℕ) (d : FrameDecoder) → IsOpen d → ByteRead b d (read_byte b d)
unfolding read_byte
read_byte-ByteRead b d o = elim (nat_eq.dec b b'\n') [
  | yes newline ↦ elim (Bool-cases (valid_frame (d.partial ++ b ∷ []))) [
    | inl valid ↦
        ends (valid, omega (arith, o.room, length-append d.partial (b ∷ [])))
          (ground (arith, newline, valid))
    | inr bad ↦ fails IpcError.invalid_frame (close d) (ground (arith, newline, bad))
  ]
  | no other ↦ elim (nat_eq.dec (length (d.partial ++ b ∷ [])) max_frame_bytes) [
    | yes full ↦ fails IpcError.frame_too_large (close d) (ground (arith, other, full))
    | no room ↦ keeps (read_byte-kept b d other room)
  ]
]

-- An answer to a byte is followed by what the rest of the stream gives.
pub read_all-byte :
    (b : ℕ) (bs : List ℕ) (d : FrameDecoder)
    (out : Result IpcError (Option (List ℕ)) × FrameDecoder)
    → read_byte b d ≡ out
    → read_all (b ∷ bs) d ≡ read_rest out bs
unfolding read_all
read_all-byte b bs d out e = ap (λ o. read_rest o bs) e

-- A frame in front of what is accounted for.
with_frame-Accounts :
    (frame bs : List ℕ) (r : Decoded)
    → IsFrame frame
    → Accounts bs r
    → Accounts (frame ++ bs) (with_frame (some frame) r)
with_frame-Accounts frame bs r f a = record {
  valid = (f, a.valid);
  tail = a.tail;
  split = append_assoc frame (concat r.frames) a.tail ∙ ap (λ t. frame ++ t) a.split;
  held = a.held;
}

read_all-Accounts :
    (bs : List ℕ) (d : FrameDecoder) → IsOpen d → Accounts (d.partial ++ bs) (read_all bs d)
read_all-Accounts [] d o =
    unfold read_all in
    record { valid = tt; tail = d.partial; split = sym (append_nil d.partial); held = λ _. refl }
read_all-Accounts (b ∷ bs) d o =
    let stays = read_byte-StaysOpen b d o in
    elim (read_byte-ByteRead b d o) [
      | fails e d' out ↦ rw (read_all-byte b bs d _ out) (record {
        valid = tt;
        tail = d.partial ++ b ∷ bs;
        split = refl;
        held = λ none_failed. cc none_failed;
      })
      | ends frame out ↦ rw (read_all-byte b bs d _ out) (
          subst
            (λ s.
              Accounts s
                (read_rest (ok (some (d.partial ++ b ∷ [])), record d { partial = [] }) bs))
            (append_assoc d.partial (b ∷ []) bs)
            (with_frame-Accounts (d.partial ++ b ∷ []) bs _ frame
              (read_all-Accounts bs (record d { partial = [] }) (subst StaysOpen out stays))))
      | keeps out ↦ rw (read_all-byte b bs d _ out) (
          subst (λ s. Accounts s (read_all bs (record d { partial = d.partial ++ b ∷ [] })))
            (append_assoc d.partial (b ∷ []) bs)
            (read_all-Accounts bs (record d { partial = d.partial ++ b ∷ [] })
              (subst StaysOpen out stays)))
    ]

-- An open decoder invents, drops and reorders nothing: its frames are valid and within the limit,
-- and together with a tail they are what it held and the stream; the tail is what it still holds
-- if nothing failed.
pub decode-Accounts :
    (chunks : List (List ℕ)) (d : FrameDecoder)
    → IsOpen d
    → Accounts (d.partial ++ concat chunks) (decode chunks d)
decode-Accounts chunks d o = rw (decode_bytewise chunks d o) (read_all-Accounts (concat chunks) d o)
