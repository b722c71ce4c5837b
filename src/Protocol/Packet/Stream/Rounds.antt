-- ===== src/Protocol/Packet/Stream/Rounds.antt =====
-- One round of the decoder's loop in catlabel/protocol/packet.py, and what a later piece of the
-- stream changes about it.
use catlabel.Prelude.{
  ℕ, ◌+◌, ◌-◌, ◌≤◌, ◌<◌, ◌≡◌, ap, sym, ◌∙◌, Bytes, ◌++◌, false, length, take, drop, ltb, arith,
  Bool-cases, inl, inr, ◌⊎◌, Option-cases, length-append, get_or-append_lt, take-append_le,
  drop-append_le, length-drop,
}
use catlabel.Protocol.Packet.Stream.{
  Round, judge, length_bytes, stop, skip, emit, find, examine, round,
}
use catlabel.Protocol.Packet.Stream.Seek.{
  seek, seek-append, find-seek, trim-seek, seek_found-append, seek_shorter,
}

abbrev pub extend : Round → Bytes → Round
extend (stop left) more = stop (left ++ more)
extend (skip left) more = skip (left ++ more)
extend (emit packet left) more = emit packet (left ++ more)

abbrev pub GoesOn : Round → Type 0
GoesOn (stop left) = ⊥
GoesOn (skip left) = Unit
GoesOn (emit packet left) = Unit

judge-GoesOn :
    (crc8_value : Bytes → ℕ) (prefix : Bytes) (n : ℕ) (raw : Bytes) (start : ℕ)
    (one_on rest : Bytes)
    → GoesOn (judge crc8_value prefix n raw start one_on rest)
judge-GoesOn crc8_value prefix n raw start one_on rest = ground arith

pub extend-judge :
    (crc8_value : Bytes → ℕ) (prefix : Bytes) (n : ℕ) (raw : Bytes) (start : ℕ)
    (one_on rest more : Bytes)
    → extend (judge crc8_value prefix n raw start one_on rest) more
      ≡ judge crc8_value prefix n raw start (one_on ++ more) (rest ++ more)
extend-judge crc8_value prefix n raw start one_on rest more = ground arith

module _ (crc8_value : Bytes → ℕ) (prefix : Bytes) where
  -- A frame that is there in full is judged the same when more has arrived.
  examine-append :
      (received : ℕ) (buffer more : Bytes)
      → (examine crc8_value prefix received buffer ≡ stop buffer)
        ⊎ ((examine crc8_value prefix (received + length more) (buffer ++ more)
              ≡ extend (examine crc8_value prefix received buffer) more)
            × GoesOn (examine crc8_value prefix received buffer))
  unfolding examine
  examine-append received buffer more =
      elim (Bool-cases (ltb (length buffer) (length prefix + 4))) [
        | inl short ↦ inl (rw short)
        | inr headed ↦
            elim (Bool-cases
              (ltb (length buffer) (length prefix + 4 + length_bytes prefix buffer + 2))) [
                | inl short ↦ inl (rw (headed, short))
                | inr whole ↦
                    let n = length prefix + 4 + length_bytes prefix buffer + 2 in
                    let sum = length-append buffer more in
                    let fits : n ≤ length buffer = ground arith in
                    let at_two : length prefix + 2 < length buffer = omega arith in
                    let at_three : length prefix + 3 < length buffer = omega arith in
                    let start : received + length more - length (buffer ++ more)
                        ≡ received - length buffer =
                      omega arith in
                    let headed' : ltb (length (buffer ++ more)) (length prefix + 4) ≡ false =
                      ground arith in
                    let whole' : ltb (length (buffer ++ more)) n ≡ false = ground arith in
                    inr (
                      rw
                          (
                            headed,
                            whole,
                            headed',
                            get_or-append_lt buffer more (length prefix + 2) 0 at_two,
                            get_or-append_lt buffer more (length prefix + 3) 0 at_three,
                            whole',
                            start,
                            take-append_le n buffer more fits,
                            drop-append_le n buffer more fits,
                            drop-append_le 1 buffer more (omega arith),
                          )
                          (sym (
                            extend-judge crc8_value prefix (length_bytes prefix buffer)
                              (take n buffer) (received - length buffer) (drop 1 buffer)
                              (drop n buffer) more)),
                      rw (headed, whole)
                          (judge-GoesOn crc8_value prefix (length_bytes prefix buffer)
                            (take n buffer) (received - length buffer) (drop 1 buffer)
                            (drop n buffer)),
                    )
              ]
      ]

  -- A round looks only at what the search leaves of the buffer.
  round-seek :
      (received : ℕ) (buffer : Bytes)
      → 1 ≤ length prefix
      → ((round crc8_value prefix received buffer ≡ stop (seek prefix buffer))
          × (length (seek prefix buffer) < length prefix))
        ⊎ ((round crc8_value prefix received buffer
              ≡ examine crc8_value prefix received (seek prefix buffer))
            × (length prefix ≤ length (seek prefix buffer)))
  unfolding round
  round-seek received buffer h = elim (Option-cases (find prefix buffer)) [
    | inl e ↦ let t = trim-seek prefix buffer h e in inl (rw (e, round, t.0), t.1)
    | inr (marker, e) ↦ let f = find-seek prefix buffer marker e in inr (rw (e, round, f.0), f.1)
  ]

  round_cong :
      (received : ℕ) (buffer other : Bytes)
      → 1 ≤ length prefix
      → seek prefix buffer ≡ seek prefix other
      → round crc8_value prefix received buffer ≡ round crc8_value prefix received other
  round_cong received buffer other h e = elim (round-seek received buffer h) [
    | inl (r, short) ↦ elim (round-seek received other h) [
      | inl (r', short') ↦ r ∙ ap stop e ∙ sym r'
      | inr (r', long') ↦ absurd (omega (arith, ap length e))
    ]
    | inr (r, long) ↦ elim (round-seek received other h) [
      | inl (r', short') ↦ absurd (omega (arith, ap length e))
      | inr (r', long') ↦ r ∙ ap (examine crc8_value prefix received) e ∙ sym r'
    ]
  ]

  -- A round on the buffer and more of the stream: the same step, or the search goes on from where
  -- it stopped.
  pub round-append :
      (received : ℕ) (buffer more : Bytes)
      → 1 ≤ length prefix
      → ((left : Bytes) × (round crc8_value prefix received buffer ≡ stop left)
          × (round crc8_value prefix (received + length more) (buffer ++ more)
              ≡ round crc8_value prefix (received + length more) (left ++ more)))
        ⊎ ((round crc8_value prefix (received + length more) (buffer ++ more)
              ≡ extend (round crc8_value prefix received buffer) more)
            × GoesOn (round crc8_value prefix received buffer))
  round-append received buffer more h =
      let later =
        round_cong (received + length more) (buffer ++ more) (seek prefix buffer ++ more) h
          (sym (seek-append prefix buffer more)) in
      elim (round-seek received buffer h) [
        | inl (r, short) ↦ inl (seek prefix buffer, r, later)
        | inr (r, long) ↦ elim (examine-append received (seek prefix buffer) more) [
          | inl e ↦ inl (seek prefix buffer, r ∙ e, later)
          | inr (e, on) ↦
              elim (round-seek (received + length more) (seek prefix buffer ++ more) h) [
                | inl (r', short') ↦ absurd (
                    omega (
                      arith,
                      ap length (seek_found-append prefix buffer more h long),
                      length-append (seek prefix buffer) more,
                    ))
                | inr (r', long') ↦ inr (
                  later
                      ∙ r'
                      ∙ ap (examine crc8_value prefix (received + length more))
                          (seek_found-append prefix buffer more h long)
                      ∙ e
                      ∙ ap (λ t. extend t more) (sym r),
                  rw r on,
                )
              ]
        ]
      ]

  -- A round that goes on leaves a shorter buffer.
  abbrev pub Shrinks : Bytes → Round → Type 0
  Shrinks buffer (stop left) = length left ≤ length buffer
  Shrinks buffer (skip left) = length left < length buffer
  Shrinks buffer (emit packet left) = length left < length buffer

  Shrinks-examine :
      (received : ℕ) (buffer : Bytes) → Shrinks buffer (examine crc8_value prefix received buffer)
  unfolding examine
  Shrinks-examine received buffer = ground (
    arith,
    length-drop 1 buffer,
    length-drop (length prefix + 4 + length_bytes prefix buffer + 2) buffer,
  )

  Shrinks-le :
      (buffer other : Bytes) (r : Round)
      → length buffer ≤ length other
      → Shrinks buffer r
      → Shrinks other r
  Shrinks-le buffer other (stop left) h s = omega arith
  Shrinks-le buffer other (skip left) h s = omega arith
  Shrinks-le buffer other (emit packet left) h s = omega arith

  pub Shrinks-round :
      (received : ℕ) (buffer : Bytes)
      → 1 ≤ length prefix
      → Shrinks buffer (round crc8_value prefix received buffer)
  Shrinks-round received buffer h = elim (round-seek received buffer h) [
    | inl (r, short) ↦ rw r (seek_shorter prefix buffer)
    | inr (r, long) ↦ rw r (
        Shrinks-le (seek prefix buffer) buffer
          (examine crc8_value prefix received (seek prefix buffer)) (seek_shorter prefix buffer)
          (Shrinks-examine received (seek prefix buffer)))
  ]
