-- ===== src/Protocol/Replies/Chunks.antt =====
-- The reply decoder of catlabel/protocol/families/phomemo_replies.py over a stream, whole or in
-- pieces.
use catlabel.Prelude.{
  ℕ, zero, suc, ◌+◌, ◌≤◌, ◌≡◌, refl, ap, sym, ◌∙◌, Bytes, List, [], ◌∷◌, ◌++◌, some, length, take,
  drop, arith, length-append, length-drop, take-append_le, drop-append_le, append_assoc, subst,
}
use catlabel.Protocol.Replies.{
  Dialect, DecodedReply, ReplyDecoder, Reading, incomplete, discard, known, examine_reply,
  decode_loop, feed_with_offsets,
}
use catlabel.Protocol.Replies.Rounds.{
  Fits, Settled, HasFrames, examine_reply-Fits, examine_reply-Settled,
}

abbrev pub reply_at : ℕ → ℕ → ℕ → Bytes → DecodedReply
reply_at offset p size buffer = record { frame = take size (drop p buffer); start_offset = offset }

frame-append :
    (p size : ℕ) (buffer more : Bytes)
    → p + size ≤ length buffer
    → take size (drop p (buffer ++ more)) ≡ take size (drop p buffer)
frame-append p size buffer more h =
    ap (take size) (drop-append_le p buffer more (omega arith))
    ∙ take-append_le size (drop p buffer) more (omega (arith, length-drop p buffer))

module _ (d : Dialect) where
  -- The loop as a relation: from an offset and a buffer, the replies, and the offset and what is
  -- left at the end.
  pub data Decodes : ℕ → Bytes → List DecodedReply → ℕ → Bytes → Type 0 where
    ends : {offset : ℕ} → Decodes offset [] [] offset []
    waits :
        {offset b : ℕ} {rest : Bytes}
        → examine_reply d b rest ≡ incomplete
        → Decodes offset (b ∷ rest) [] offset (b ∷ rest)
    discards :
        {offset b n last : ℕ} {rest left : Bytes} {replies : List DecodedReply}
        → examine_reply d b rest ≡ discard n
        → Decodes (offset + n) (drop n (b ∷ rest)) replies last left
        → Decodes offset (b ∷ rest) replies last left
    takes :
        {offset b p size last : ℕ} {rest left : Bytes} {replies : List DecodedReply}
        → examine_reply d b rest ≡ known p size
        → Decodes (offset + (p + size)) (drop (p + size) (b ∷ rest)) replies last left
        → Decodes offset (b ∷ rest) (reply_at offset p size (b ∷ rest) ∷ replies) last left

  module _ (frames : HasFrames d) where
    fits :
        (b : ℕ) (rest : Bytes) (r : Reading)
        → examine_reply d b rest ≡ r
        → Fits (length (b ∷ rest)) r
    fits b rest r e = rw e at (examine_reply-Fits d b rest frames)

    -- The loop ends as the relation says, with a round for each byte.
    pub decode_loop-Decodes :
        {offset last : ℕ} {buffer left : Bytes} {replies : List DecodedReply} (fuel : ℕ)
        → Decodes offset buffer replies last left
        → length buffer ≤ fuel
        → decode_loop d fuel offset buffer ≡ some (replies, last, left)
    unfolding decode_loop
    decode_loop-Decodes fuel ends h = refl
    decode_loop-Decodes zero (waits e) h = absurd (omega arith)
    decode_loop-Decodes (suc fuel) (waits e) h = rw (e, decode_loop) refl
    decode_loop-Decodes zero (discards e rest) h = absurd (omega arith)
    decode_loop-Decodes (suc fuel) (discards {b = b} {n = n} {rest = bytes} e rest) h =
        rw (e, decode_loop)
          (decode_loop-Decodes fuel rest
            (omega (arith, length-drop n (b ∷ bytes), fits b bytes (discard n) e)))
    decode_loop-Decodes zero (takes e rest) h = absurd (omega arith)
    decode_loop-Decodes (suc fuel) (takes {b = b} {p = p} {size = size} {rest = bytes} e rest) h =
        rw
          (
            e,
            decode_loop-Decodes fuel rest
                (omega (arith, length-drop (p + size) (b ∷ bytes), fits b bytes (known p size) e)),
            decode_loop,
          )
          refl

    pub Decodes-total :
        (fuel offset : ℕ) (buffer : Bytes)
        → length buffer ≤ fuel
        → (replies : List DecodedReply) × (last : ℕ) × (left : Bytes) × Decodes offset buffer
            replies last left
    Decodes-total fuel offset [] h = ([], offset, [], ends)
    Decodes-total zero offset (b ∷ rest) h = absurd (omega arith)
    Decodes-total (suc fuel) offset (b ∷ rest) h =
        by_reading (examine_reply d b rest) refl (Decodes-total fuel)
      where
        by_reading :
            (r : Reading)
            → examine_reply d b rest ≡ r
            → ((o : ℕ) (bytes : Bytes)
                → length bytes ≤ fuel
                → (replies : List DecodedReply) × (last : ℕ) × (left : Bytes) × Decodes o bytes
                    replies last left)
            → (replies : List DecodedReply) × (last : ℕ) × (left : Bytes) × Decodes offset
                (b ∷ rest)
                replies
                last
                left
        by_reading incomplete e later = ([], offset, b ∷ rest, waits e)
        by_reading (discard n) e later =
            let (replies, last, left, run) =
              later (offset + n) (drop n (b ∷ rest))
                (omega (arith, length-drop n (b ∷ rest), fits b rest (discard n) e)) in
            (replies, last, left, discards e run)
        by_reading (known p size) e later =
            let (replies, last, left, run) =
              later (offset + (p + size)) (drop (p + size) (b ∷ rest))
                (omega (arith, length-drop (p + size) (b ∷ rest), fits b rest (known p size) e)) in
            (reply_at offset p size (b ∷ rest) ∷ replies, last, left, takes e run)

    settled :
        (b : ℕ) (rest more : Bytes) (r : Reading)
        → examine_reply d b rest ≡ r
        → Settled r (examine_reply d b (rest ++ more))
    settled b rest more r e = rw e at (examine_reply-Settled d b rest more)

    -- A run over a buffer, and one over what it left and more, are a run over both.
    pub Decodes-append :
        {offset last : ℕ} {buffer left : Bytes} {replies : List DecodedReply} (more : Bytes)
        {others : List DecodedReply} {final : ℕ} {remains : Bytes}
        → Decodes offset buffer replies last left
        → Decodes last (left ++ more) others final remains
        → Decodes offset (buffer ++ more) (replies ++ others) final remains
    Decodes-append more ends later = later
    Decodes-append more (waits e) later = later
    Decodes-append {offset} more {others} {final} {remains}
          (discards {b = b} {n = n} {rest = bytes} {replies = replies} e rest) later =
        discards (settled b bytes more (discard n) e) (
          subst (λ t. Decodes (offset + n) t (replies ++ others) final remains)
            (sym (drop-append_le n (b ∷ bytes) more (fits b bytes (discard n) e).1))
            (Decodes-append more rest later))
    Decodes-append {offset} more {others} {final} {remains}
          (takes {b = b} {p = p} {size = size} {rest = bytes} {replies = replies} e rest) later =
        let within = (fits b bytes (known p size) e).1 in
        let same : reply_at offset p size (b ∷ (bytes ++ more))
            ≡ reply_at offset p size (b ∷ bytes) =
          ap (λ t. record { frame = t; start_offset = offset })
            (frame-append p size (b ∷ bytes) more within) in
        subst (λ r. Decodes offset (b ∷ (bytes ++ more)) (r ∷ (replies ++ others)) final remains)
          same
          (takes (settled b bytes more (known p size) e) (
            subst (λ t. Decodes (offset + (p + size)) t (replies ++ others) final remains)
              (sym (drop-append_le (p + size) (b ∷ bytes) more within))
              (Decodes-append more rest later)))

  -- What is left is waited for.
  pub Decodes-left :
      {offset last : ℕ} {buffer left : Bytes} {replies : List DecodedReply}
      → Decodes offset buffer replies last left
      → Decodes last left [] last left
  Decodes-left ends = ends
  Decodes-left (waits e) = waits e
  Decodes-left (discards e rest) = Decodes-left rest
  Decodes-left (takes e rest) = Decodes-left rest

  abbrev pub fed : ReplyDecoder → Bytes → ℕ → Bytes → ReplyDecoder
  fed decoder payload last left = record {
    pending = left;
    pending_offset = last;
    received_byte_count = decoder.received_byte_count + length payload;
  }

  pub feed_with_offsets-Decodes :
      {last : ℕ} {left : Bytes} {replies : List DecodedReply} (payload : Bytes)
      (decoder : ReplyDecoder)
      → HasFrames d
      → Decodes decoder.pending_offset (decoder.pending ++ payload) replies last left
      → feed_with_offsets d payload decoder ≡ some (replies, fed decoder payload last left)
  unfolding feed_with_offsets
  feed_with_offsets-Decodes payload decoder frames run =
      rw
        (
          decode_loop-Decodes frames (length (decoder.pending ++ payload)) run (omega arith),
          feed_with_offsets,
        )
        refl

  -- If no frame of the dialect is empty, feeding a payload ends, whatever its bytes and the state of
  -- the decoder; and a payload fed in two pieces gives the replies, the offsets and the final state of
  -- the payload fed at once.
  pub feed_with_offsets-append :
      (xs ys : Bytes) (decoder : ReplyDecoder)
      → HasFrames d
      → (replies : List DecodedReply) × (middle : ReplyDecoder) × (others : List DecodedReply)
        × (final : ReplyDecoder) × (feed_with_offsets d xs decoder ≡ some (replies, middle))
        × (feed_with_offsets d ys middle ≡ some (others, final))
        × (feed_with_offsets d (xs ++ ys) decoder ≡ some (replies ++ others, final))
  feed_with_offsets-append xs ys decoder frames =
      let buffer = decoder.pending ++ xs in
      let (replies, last, left, run) =
        Decodes-total frames (length buffer) decoder.pending_offset buffer (omega arith) in
      let (others, end, remains, later) =
        Decodes-total frames (length (left ++ ys)) last (left ++ ys) (omega arith) in
      let middle = fed decoder xs last left in
      let whole : Decodes decoder.pending_offset (decoder.pending ++ (xs ++ ys)) (replies ++ others)
          end remains =
        subst (λ t. Decodes decoder.pending_offset t (replies ++ others) end remains)
          (append_assoc decoder.pending xs ys) (Decodes-append frames ys run later) in
      let counted : decoder.received_byte_count + length (xs ++ ys)
          ≡ (decoder.received_byte_count + length xs) + length ys =
        omega (arith, length-append xs ys) in
      (
        replies,
        middle,
        others,
        fed middle ys end remains,
        feed_with_offsets-Decodes xs decoder frames run,
        feed_with_offsets-Decodes ys middle frames later,
        feed_with_offsets-Decodes (xs ++ ys) decoder frames whole
            ∙ ap
                (λ n. some (
                  replies ++ others,
                  record { pending = remains; pending_offset = end; received_byte_count = n },
                ))
                counted,
      )
