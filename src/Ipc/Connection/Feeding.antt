-- ===== src/Ipc/Connection/Feeding.antt =====
-- What one call of `feed` of ipc/framing.rs does with the bytes that it is given.
use omarchy_harbormaster.Common.{
  ℕ, ◌≤◌, ◌≡◌, refl, ap, sym, ◌∙◌, subst, List, [], ◌∷◌, ◌++◌, Option, none, some, length, drop,
  Result, ok, err, arith, append_nil, append_assoc, All,
}
use omarchy_harbormaster.Ipc.{IpcError}
use omarchy_harbormaster.Ipc.Framing.{FrameDecoder, feed}
use omarchy_harbormaster.Ipc.Framing.Bytewise.{
  IsOpen, read_bytes, after_byte, count_one, feed_bytewise,
}
use omarchy_harbormaster.Ipc.Framing.Stream.{concat, StaysOpen, read_byte-StaysOpen}
use omarchy_harbormaster.Ipc.Framing.Lines.{IsFrame, fails, ends, keeps, read_byte-ByteRead}

-- The frame of an answer as a list.
abbrev pub listed : Option (List ℕ) → List (List ℕ)
listed none = []
listed (some frame) = frame ∷ []

-- A successful answer: the bytes are the frame, what the decoder holds, and what was not consumed.
abbrev pub Fed :
    FrameDecoder → List ℕ → Result IpcError (ℕ × Option (List ℕ)) × FrameDecoder → Type 0
Fed d bytes (err e, d') = Unit
Fed d bytes (ok (n, frame), d') =
    IsOpen d'
    × (n ≤ length bytes)
    × All IsFrame (listed frame)
    × (concat (listed frame) ++ (d'.partial ++ drop n bytes) ≡ d.partial ++ bytes)

count_one-Fed :
    (out : Result IpcError (ℕ × Option (List ℕ)) × FrameDecoder) (b : ℕ) (bs : List ℕ)
    (d : FrameDecoder)
    → Fed (record d { partial = d.partial ++ b ∷ [] }) bs out
    → Fed d (b ∷ bs) (count_one out)
unfolding drop
count_one-Fed (err e, d') b bs d f = tt
count_one-Fed (ok (n, frame), d') b bs d (o, n_le, valid, split) =
    (o, omega (arith, n_le), valid, split ∙ append_assoc d.partial (b ∷ []) bs)

ends-Fed :
    (b : ℕ) (bs : List ℕ) (d : FrameDecoder)
    → IsOpen (record d { partial = [] })
    → IsFrame (d.partial ++ b ∷ [])
    → Fed d (b ∷ bs) (ok (1, some (d.partial ++ b ∷ [])), record d { partial = [] })
unfolding drop
ends-Fed b bs d o f = (
  o,
  omega arith,
  (f, tt),
  ap (λ t. t ++ bs) (append_nil (d.partial ++ b ∷ [])) ∙ append_assoc d.partial (b ∷ []) bs,
)

read_bytes-Fed : (bs : List ℕ) (d : FrameDecoder) → IsOpen d → Fed d bs (read_bytes bs d)
unfolding read_bytes
read_bytes-Fed [] d o = unfold drop in (o, omega arith, tt, refl)
read_bytes-Fed (b ∷ bs) d o =
    let stays = read_byte-StaysOpen b d o in
    elim (read_byte-ByteRead b d o) [
      | fails e d' out ↦ subst (λ r. Fed d (b ∷ bs) (after_byte r (read_bytes bs r.1))) (sym out) tt
      | ends frame out ↦
          subst (λ r. Fed d (b ∷ bs) (after_byte r (read_bytes bs r.1))) (sym out)
            (ends-Fed b bs d (subst StaysOpen out stays) frame)
      | keeps out ↦
          subst (λ r. Fed d (b ∷ bs) (after_byte r (read_bytes bs r.1))) (sym out)
            (count_one-Fed _ b bs d (
              read_bytes-Fed bs (record d { partial = d.partial ++ b ∷ [] })
                (subst StaysOpen out stays)))
    ]

pub feed-Fed : (bytes : List ℕ) (d : FrameDecoder) → IsOpen d → Fed d bytes (feed bytes d)
feed-Fed bytes d o = subst (Fed d bytes) (sym (feed_bytewise bytes d o)) (read_bytes-Fed bytes d o)
