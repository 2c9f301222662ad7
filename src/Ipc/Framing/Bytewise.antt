-- ===== src/Ipc/Framing/Bytewise.antt =====
-- The decoder of ipc/framing.rs against one that reads a byte at a time.
use omarchy_harbormaster.Common.{
  ℕ, suc, ◌+◌, ◌-◌, ◌<◌, ◌≡◌, ◌≢◌, ap, sym, ◌∙◌, false, List, [], ◌∷◌, ◌++◌, Option, none, some,
  ◌==◌, length, take, if◌then◌else◌, Result, ok, err, nat_eq, arith, append_nil, append_assoc,
  length-append, Option-cases, Bool-cases, take_nil, take_more, inl, inr,
}
use omarchy_harbormaster.Protocol.{max_frame_bytes}
use omarchy_harbormaster.Ipc.{IpcError}
use omarchy_harbormaster.Ipc.Framing.{
  FrameDecoder, valid_frame, newline_position, close, feed_inspected, feed_open, feed,
}

-- An open decoder never holds a whole frame, and has room for one more byte.
pub record IsOpen (d : FrameDecoder) : Type 0 where
  pub running : d.closed ≡ false
  pub room : length d.partial < max_frame_bytes

-- One byte.
unfoldable pub read_byte : ℕ → FrameDecoder → Result IpcError (Option (List ℕ)) × FrameDecoder
read_byte b d =
    let partial : List ℕ = d.partial ++ b ∷ [] in
    if b == b'\n'
    then if valid_frame partial
      then (ok (some partial), record d { partial = [] })
      else (err IpcError.invalid_frame, close d)
    else if length partial == max_frame_bytes
    then (err IpcError.frame_too_large, close d)
    else (ok none, record d { partial = partial })

-- One more byte was read before this.
abbrev pub count_one :
    Result IpcError (ℕ × Option (List ℕ)) × FrameDecoder
    → Result IpcError (ℕ × Option (List ℕ)) × FrameDecoder
count_one (err e, d) = (err e, d)
count_one (ok (n, frame), d) = (ok (suc n, frame), d)

-- What follows a byte: nothing after an error or a frame.
abbrev pub after_byte :
    Result IpcError (Option (List ℕ)) × FrameDecoder
    → Result IpcError (ℕ × Option (List ℕ)) × FrameDecoder
    → Result IpcError (ℕ × Option (List ℕ)) × FrameDecoder
after_byte (err e, d) rest = (err e, d)
after_byte (ok (some frame), d) rest = (ok (1, some frame), d)
after_byte (ok none, d) rest = count_one rest

-- Bytes up to the first frame or error, and how many were read.
unfoldable pub read_bytes :
    List ℕ → FrameDecoder → Result IpcError (ℕ × Option (List ℕ)) × FrameDecoder
read_bytes [] d = (ok (0, none), d)
read_bytes (b ∷ bs) d =
    let out = read_byte b d in let rest = read_bytes bs out.1 in after_byte out rest

newline_position-none :
    (b : ℕ) (t : List ℕ) → b ≢ b'\n' → newline_position t ≡ none → newline_position (b ∷ t) ≡ none
unfolding newline_position
newline_position-none b t other e = ground (arith, e)

newline_position-some :
    (b : ℕ) (t : List ℕ) (i : ℕ)
    → b ≢ b'\n'
    → newline_position t ≡ some i
    → newline_position (b ∷ t) ≡ some (i + 1)
unfolding newline_position
newline_position-some b t i other e = ground (arith, e)

feed_inspected-none :
    (b : ℕ) (t : List ℕ) (d : FrameDecoder)
    → feed_inspected (b ∷ t) none d
      ≡ count_one (feed_inspected t none (record d { partial = d.partial ++ b ∷ [] }))
unfolding feed_inspected close
feed_inspected-none b t d =
    rw (append_assoc d.partial (b ∷ []) t)
      (elim (Bool-cases (length (d.partial ++ b ∷ t) == max_frame_bytes)) [
        | inl full ↦ ground (arith, full)
        | inr room ↦ ground (arith, room)
      ])

take_one_more : (b : ℕ) (t : List ℕ) (i : ℕ) → take (i + 1 + 1) (b ∷ t) ≡ b ∷ take (i + 1) t
take_one_more b t i = take_more (i + 1 + 1) (i + 1) b t (omega arith)

feed_inspected-some :
    (b : ℕ) (t : List ℕ) (i : ℕ) (d : FrameDecoder)
    → feed_inspected (b ∷ t) (some (i + 1)) d
      ≡ count_one (feed_inspected t (some i) (record d { partial = d.partial ++ b ∷ [] }))
unfolding feed_inspected close
feed_inspected-some b t i d =
    rw (append_assoc d.partial (b ∷ []) (take (i + 1) t), take_one_more b t i)
      (elim (Bool-cases (valid_frame (d.partial ++ b ∷ take (i + 1) t))) [
        | inl valid ↦ ground (arith, valid)
        | inr bad ↦ ground (arith, bad)
      ])

-- A byte that ends no frame and does not fill the decoder.
feed_inspected-more :
    (b : ℕ) (t : List ℕ) (d : FrameDecoder)
    → b ≢ b'\n'
    → feed_inspected (b ∷ t) (newline_position (b ∷ t)) d
      ≡ count_one
          (feed_inspected t (newline_position t) (record d { partial = d.partial ++ b ∷ [] }))
feed_inspected-more b t d other = elim (Option-cases (newline_position t)) [
  | inl e ↦ rw (newline_position-none b t other e, e) (feed_inspected-none b t d)
  | inr (i, e) ↦ rw (newline_position-some b t i other e, e) (feed_inspected-some b t i d)
]

newline_first : (t : List ℕ) → newline_position (b'\n' ∷ t) ≡ some 0
unfolding newline_position
newline_first t = ground arith

take_first : (b : ℕ) (t : List ℕ) → take (0 + 1) (b ∷ t) ≡ b ∷ []
unfolding take
take_first b t = ground (arith, take_more (0 + 1) 0 b t (omega arith))

-- A newline ends a frame, good or bad.
feed-newline :
    (t : List ℕ) (d : FrameDecoder) (rest : Result IpcError (ℕ × Option (List ℕ)) × FrameDecoder)
    → feed_inspected (b'\n' ∷ t) (newline_position (b'\n' ∷ t)) d
      ≡ after_byte (read_byte b'\n' d) rest
unfolding feed_inspected read_byte
feed-newline t d rest =
    rw (newline_first t, take_first b'\n' t)
      (elim (Bool-cases (valid_frame (d.partial ++ b'\n' ∷ []))) [
        | inl valid ↦ ground (arith, valid)
        | inr bad ↦ ground (arith, bad)
      ])

-- A byte that fills the decoder.
feed-full :
    (b : ℕ) (t : List ℕ) (d : FrameDecoder)
    (rest : Result IpcError (ℕ × Option (List ℕ)) × FrameDecoder)
    → b ≢ b'\n'
    → length (d.partial ++ b ∷ []) ≡ max_frame_bytes
    → t ≡ []
    → feed_inspected (b ∷ t) (newline_position (b ∷ t)) d ≡ after_byte (read_byte b d) rest
unfolding feed_inspected read_byte newline_position
feed-full b t d rest other full e = rw e (ground (arith, full))

take_none : (n : ℕ) (bs : List ℕ) → n ≡ 0 → take n bs ≡ []
unfolding take
take_none n bs e = ap (λ k. take k bs) e

-- A byte that neither ends a frame nor fills the decoder is kept.
pub read_byte-kept :
    (b : ℕ) (d : FrameDecoder)
    → b ≢ b'\n'
    → length (d.partial ++ b ∷ []) ≢ max_frame_bytes
    → read_byte b d ≡ (ok none, record d { partial = d.partial ++ b ∷ [] })
unfolding read_byte
read_byte-kept b d other room = ground (arith, room)

feed-open : (bytes : List ℕ) (d : FrameDecoder) → IsOpen d → feed bytes d ≡ feed_open bytes d
unfolding feed
feed-open bytes d o = ground (arith, o.running)

-- What `feed` inspects when there is a byte.
inspected-cons :
    (b : ℕ) (bs : List ℕ) (d : FrameDecoder)
    → IsOpen d
    → take (max_frame_bytes - length d.partial) (b ∷ bs)
      ≡ b ∷ take (max_frame_bytes - length (d.partial ++ b ∷ [])) bs
inspected-cons b bs d o =
    take_more _ _ b bs (omega (arith, o.room, length-append d.partial (b ∷ [])))

feed_nothing : (d : FrameDecoder) → IsOpen d → feed_open [] d ≡ (ok (0, none), d)
unfolding feed_open feed_inspected newline_position
feed_nothing d o =
    rw (take_nil (max_frame_bytes - length d.partial), append_nil d.partial)
      (ground (arith, o.room))

-- On an open decoder `feed` reads exactly the bytes up to the first frame or error.
pub feed_bytewise :
    (bytes : List ℕ) (d : FrameDecoder) → IsOpen d → feed bytes d ≡ read_bytes bytes d
unfolding feed_open read_bytes
feed_bytewise [] d o = feed-open [] d o ∙ feed_nothing d o
feed_bytewise (b ∷ bs) d o =
    feed-open (b ∷ bs) d o
    ∙ rw (inspected-cons b bs d o) (elim (nat_eq.dec b b'\n') [
      | yes newline ↦ rw newline (feed-newline _ d _)
      | no other ↦ elim (nat_eq.dec (length (d.partial ++ b ∷ [])) max_frame_bytes) [
        | yes full ↦ feed-full b _ d _ other full (take_none _ bs (omega (arith, full)))
        | no room ↦
            let kept : FrameDecoder = record d { partial = d.partial ++ b ∷ [] } in
            let still : IsOpen kept = record {
              running = o.running;
              room = omega (arith, o.room, room, length-append d.partial (b ∷ []));
            } in
            feed_inspected-more b _ d other
            ∙ ap count_one (sym (feed-open bs kept still) ∙ feed_bytewise bs kept still)
            ∙ sym (
                ap
                  (λ (out : Result IpcError (Option (List ℕ)) × FrameDecoder).
                    after_byte out (read_bytes bs out.1))
                  (read_byte-kept b d other room))
      ]
    ])
