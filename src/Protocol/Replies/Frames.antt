-- ===== src/Protocol/Replies/Frames.antt =====
-- Streams of prefixed frames for the reply decoder of catlabel/protocol/families/phomemo_replies.py.
use catlabel.Prelude.{
  ℕ, suc, ◌+◌, ◌≡◌, ap, sym, ◌∙◌, Bytes, List, [], ◌∷◌, ◌++◌, true, Option, none, some, length,
  drop, arith, length-append, append_assoc, append-nil, subst, concat, map, All, take-append_length,
  drop-append_length,
}
use catlabel.Prelude.Option
use catlabel.Protocol.Replies.{
  Dialect, DecodedReply, ReplyDecoder, known, is_member, examine_reply, feed_with_offsets,
  new_reply_decoder,
}
use catlabel.Protocol.Replies.Rounds.{HasFrames}
use catlabel.Protocol.Replies.Chunks.{
  Decodes, ends, takes, reply_at, fed, decode_loop-Decodes, Decodes-total, Decodes-append,
  Decodes-left, feed_with_offsets-Decodes,
}

-- A frame on the wire: its prefix, its opcode and the rest.
pub record Wire : Type 0 where
  pub prefix : ℕ
  pub opcode : ℕ
  pub body : Bytes

abbrev pub wire_bytes : Wire → Bytes
wire_bytes w = w.prefix ∷ w.opcode ∷ w.body

pub record IsWire (d : Dialect) (w : Wire) : Type 0 where
  pub prefixed : is_member w.prefix d.prefixes ≡ true
  pub sized : d.sizes w.opcode ≡ some (suc (length w.body))

-- The replies of a stream of frames that starts at an offset.
abbrev pub replies_of : ℕ → List Wire → List DecodedReply
replies_of offset [] = []
replies_of offset (w ∷ wires) =
    record { frame = w.opcode ∷ w.body; start_offset = offset }
    ∷ replies_of (offset + (2 + length w.body)) wires

abbrev pub stream_of : List Wire → Bytes
stream_of wires = concat (map wire_bytes wires)

-- The chunks that a connection delivers, fed in their order.
unfoldable pub feed_all :
    Dialect → List Bytes → ReplyDecoder → Option (List DecodedReply × ReplyDecoder)
feed_all d [] decoder = some ([], decoder)
feed_all d (chunk ∷ chunks) decoder = elim (feed_with_offsets d chunk decoder) [
  | none ↦ none
  | some (replies, middle) ↦
      Option.map (λ (others, final). (replies ++ others, final)) (feed_all d chunks middle)
]

module _ (d : Dialect) where
  examine_reply-wire :
      (w : Wire) (more : Bytes)
      → IsWire d w
      → examine_reply d w.prefix (w.opcode ∷ (w.body ++ more)) ≡ known 1 (suc (length w.body))
  unfolding examine_reply
  examine_reply-wire w more valid =
      rw (examine_reply, valid.prefixed, valid.sized) (ground (arith, length-append w.body more))

  Decodes-stream_of :
      (offset : ℕ) (wires : List Wire)
      → All (IsWire d) wires
      → Decodes d offset
          (stream_of wires)
          (replies_of offset wires)
          (offset + length (stream_of wires))
          []
  Decodes-stream_of offset [] valid =
      subst (λ last. Decodes d offset [] [] last []) (omega arith) ends
  Decodes-stream_of offset (w ∷ wires) (v, valid) =
      let n = length w.body in
      let more = stream_of wires in
      let buffer = w.prefix ∷ w.opcode ∷ (w.body ++ more) in
      let others = replies_of (offset + (2 + n)) wires in
      let past : 1 + suc n ≡ suc (suc n) = omega arith in
      let same : reply_at offset 1 (suc n) buffer
          ≡ record { frame = w.opcode ∷ w.body; start_offset = offset } =
        ap (λ t. record { frame = w.opcode ∷ t; start_offset = offset })
          (take-append_length w.body more) in
      let tail : Decodes d (offset + (2 + n)) (drop (1 + suc n) buffer) others
          ((offset + (2 + n)) + length more) [] =
        rw (past, drop-append_length w.body more)
          (Decodes-stream_of (offset + (2 + n)) wires valid) in
      subst
        (λ last.
          Decodes d offset buffer
            (record { frame = w.opcode ∷ w.body; start_offset = offset } ∷ others) last [])
        (omega (arith, length-append w.body more))
        (subst
          (λ reply. Decodes d offset buffer (reply ∷ others) ((offset + (2 + n)) + length more) [])
          same
          (takes (examine_reply-wire w more v) (
            subst
              (λ o.
                Decodes d o (drop (1 + suc n) buffer) others ((offset + (2 + n)) + length more) [])
              (omega arith) tail)))

  abbrev outcome : List DecodedReply → ℕ → Bytes → Option (List DecodedReply × ℕ × Bytes)
  outcome replies last left = some (replies, last, left)

  determined :
      {offset : ℕ} {buffer : Bytes} {replies others : List DecodedReply} {last end : ℕ}
      {left remains : Bytes}
      → HasFrames d
      → Decodes d offset buffer replies last left
      → Decodes d offset buffer others end remains
      → outcome replies last left ≡ outcome others end remains
  determined {buffer = buffer} frames run other =
      sym (decode_loop-Decodes d frames (length buffer) run (omega arith))
      ∙ decode_loop-Decodes d frames (length buffer) other (omega arith)

  -- What a run yields, as the answer of a decoder that was fed.
  abbrev answer_of :
      ReplyDecoder
      → ℕ
      → Option (List DecodedReply × ℕ × Bytes)
      → Option (List DecodedReply × ReplyDecoder)
  answer_of decoder received run =
      Option.map
        (λ (replies, last, left). (
          replies,
          record { pending = left; pending_offset = last; received_byte_count = received },
        ))
        run

  -- A decoder that waits, fed chunk by chunk, does what one run over all the bytes does.
  feed_all-Decodes :
      (chunks : List Bytes) (decoder : ReplyDecoder) {last : ℕ} {left : Bytes}
      {replies : List DecodedReply}
      → HasFrames d
      → Decodes d decoder.pending_offset decoder.pending [] decoder.pending_offset decoder.pending
      → Decodes d decoder.pending_offset (decoder.pending ++ concat chunks) replies last left
      → feed_all d chunks decoder ≡ some (replies, fed d decoder (concat chunks) last left)
  unfolding feed_all
  feed_all-Decodes [] decoder {last} {left} {replies} frames idle run =
      let waits =
        subst (λ t. Decodes d decoder.pending_offset t replies last left)
          (append-nil decoder.pending) run in
      ap (λ n. answer_of decoder n (outcome [] decoder.pending_offset decoder.pending))
        (omega arith)
      ∙ ap (answer_of decoder (decoder.received_byte_count + 0)) (determined frames idle waits)
  feed_all-Decodes (chunk ∷ chunks) decoder {last} {left} {replies} frames idle run =
      let buffer = decoder.pending ++ chunk in
      let rest = concat chunks in
      let (ours, middle, remains, first) =
        Decodes-total d frames (length buffer) decoder.pending_offset buffer (omega arith) in
      let (others, end, final, later) =
        Decodes-total d frames (length (remains ++ rest)) middle (remains ++ rest) (omega arith) in
      let whole : Decodes d decoder.pending_offset (decoder.pending ++ (chunk ++ rest))
          (ours ++ others) end final =
        subst (λ t. Decodes d decoder.pending_offset t (ours ++ others) end final)
          (append_assoc decoder.pending chunk rest) (Decodes-append d frames rest first later) in
      rw
        (
          feed_with_offsets-Decodes d chunk decoder frames first,
          feed_all-Decodes chunks (fed d decoder chunk middle remains) frames (Decodes-left d first)
              later,
          feed_all,
        )
        (ap (λ n. answer_of decoder n (outcome (ours ++ others) end final))
            (omega (arith, length-append chunk rest))
          ∙ ap (answer_of decoder (decoder.received_byte_count + length (chunk ++ rest)))
              (determined frames whole run))

-- A stream of prefixed frames, each of the size that its opcode has in the dialect, is decoded to
-- just these frames with the offsets of their prefixes, however a connection cuts it into chunks, and
-- nothing is left; no frame of the dialect is empty.
pub feed_all-stream_of :
    (d : Dialect) (wires : List Wire) (chunks : List Bytes)
    → HasFrames d
    → All (IsWire d) wires
    → concat chunks ≡ stream_of wires
    → feed_all d chunks new_reply_decoder
      ≡ some (
        replies_of 0 wires,
        record {
          pending = [];
          pending_offset = length (stream_of wires);
          received_byte_count = length (stream_of wires);
        },
      )
feed_all-stream_of d wires chunks frames valid cut =
    feed_all-Decodes d chunks new_reply_decoder frames ends (
      subst (λ t. Decodes d 0 t (replies_of 0 wires) (0 + length (stream_of wires)) []) (sym cut)
        (Decodes-stream_of d 0 wires valid))
    ∙ rw cut (
        ap
          (λ n. some (
            replies_of 0 wires,
            record { pending = []; pending_offset = n; received_byte_count = n },
          ))
          (omega arith))
