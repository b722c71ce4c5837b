-- ===== src/Protocol/Packet/Framing.antt =====
-- `make_packet` of catlabel/protocol/packet.py before the readers of the module.
use catlabel.Prelude.{
  ℕ, zero, suc, ◌+◌, ◌/◌, ◌%◌, ◌≤◌, ◌<◌, ◌≡◌, ap, sym, Bytes, List, [], ◌∷◌, ◌++◌, some, ok, length,
  slice, get_or, bytes_eq_refl, lt→ltb, arith, All, length-append, take-append_length,
  get_or-append_add, drop-append_add, drop-append_length, append_assoc, append-nil, map,
}
use catlabel.Protocol.Packet.Fields.{length_field-bytes}
use catlabel.Protocol.Family.{ProtocolFamily, packet_prefix}
use catlabel.Protocol.Packet.{
  framed, keep_packet, payload_at, make_packet, packet_length_at, prefixed_packet_length,
  split_loop, split_prefixed_packets, prefixed_packet_opcode, prefixed_packet_payload,
}

-- A measurement at an offset is one at the front of what stands there.
pub packet_length_at-append :
    (front stream prefix : Bytes)
    → packet_length_at (front ++ stream) (length front) prefix ≡ packet_length_at stream 0 prefix
packet_length_at-append front stream prefix = ground (
  arith,
  length-append front stream,
  drop-append_length front stream,
  get_or-append_add front stream (0 + length prefix + 2) (length front + length prefix + 2) 0
      (omega arith),
  get_or-append_add front stream (0 + length prefix + 2 + 1) (length front + length prefix + 2 + 1)
      0 (omega arith),
)

module _ (crc8_value : Bytes → ℕ) (prefix : Bytes) (cmd : ℕ) (payload rest : Bytes) where
  abbrev after_header : Bytes
  after_header = payload ++ crc8_value payload ∷ 0xFF ∷ rest

  abbrev laid_out : Bytes
  laid_out =
      prefix
      ++ (cmd % 256) ∷ 0 ∷ (length payload % 256) ∷ (length payload / 256 % 256) ∷ after_header

  pub framed-append : framed crc8_value prefix cmd payload ++ rest ≡ laid_out
  framed-append = simp append_assoc

  length-laid_out : length laid_out ≡ length prefix + 6 + length payload + length rest
  length-laid_out = simp length-append (omega arith)

  low_length : get_or laid_out (0 + length prefix + 2) 0 ≡ length payload % 256
  low_length = get_or-append_add prefix _ 2 _ 0 (omega arith)

  high_length : get_or laid_out (0 + length prefix + 2 + 1) 0 ≡ length payload / 256 % 256
  high_length = get_or-append_add prefix _ 3 _ 0 (omega arith)

  payload_at-laid_out : length payload < 65536 → payload_at laid_out prefix ≡ some payload
  payload_at-laid_out h = ground (
    arith,
    length-laid_out,
    take-append_length prefix
        ((cmd % 256) ∷ 0 ∷ (length payload % 256) ∷ (length payload / 256 % 256) ∷ after_header),
    bytes_eq_refl prefix,
    low_length,
    high_length,
    length_field-bytes (length payload) h,
    drop-append_add prefix
        ((cmd % 256) ∷ 0 ∷ (length payload % 256) ∷ (length payload / 256 % 256) ∷ after_header) 4
        (length prefix + 4) (omega arith),
    take-append_length payload (crc8_value payload ∷ 0xFF ∷ rest),
  )

  packet_length_at-laid_out :
      length payload < 65536
      → packet_length_at laid_out 0 prefix ≡ some (length prefix + 1 + 1 + 2 + length payload + 2)
  packet_length_at-laid_out h = ground (
    arith,
    length-laid_out,
    take-append_length prefix
        ((cmd % 256) ∷ 0 ∷ (length payload % 256) ∷ (length payload / 256 % 256) ∷ after_header),
    bytes_eq_refl prefix,
    low_length,
    high_length,
    length_field-bytes (length payload) h,
  )

-- One round of the loop of `split_prefixed_packets`, and its end.
pub split_loop_more :
    (fuel : ℕ) (stream : Bytes) (offset count : ℕ) (family : ProtocolFamily)
    → offset < length stream
    → prefixed_packet_length stream offset family ≡ some count
    → split_loop (suc fuel) stream offset family
      ≡ keep_packet (slice offset count stream) (split_loop fuel stream (offset + count) family)
unfolding split_loop
split_loop_more fuel stream offset count family more e = rw (lt→ltb offset (length stream) more, e)

pub split_loop_end :
    (fuel : ℕ) (stream : Bytes) (offset : ℕ) (family : ProtocolFamily)
    → length stream ≤ offset
    → split_loop fuel stream offset family ≡ some (some [])
unfolding split_loop
split_loop_end zero stream offset family h = ground arith
split_loop_end (suc fuel) stream offset family h = ground arith

-- A frame as the functions of the module see it, given the family's prefix.
module _ (crc8_value : Bytes → ℕ) (family : ProtocolFamily) (prefix : Bytes)
    (known : packet_prefix family ≡ some prefix) where
  pub make_packet-framed :
      (cmd : ℕ) (payload : Bytes)
      → make_packet crc8_value cmd payload family ≡ ok (framed crc8_value prefix cmd payload)
  unfolding make_packet
  make_packet-framed cmd payload = ground arith

  pub length-framed :
      (cmd : ℕ) (payload : Bytes)
      → length (framed crc8_value prefix cmd payload) ≡ length prefix + 6 + length payload
  length-framed cmd payload = simp length-append (omega arith)

  pub prefixed_packet_length-framed :
      (front : Bytes) (cmd : ℕ) (payload rest : Bytes)
      → length payload < 65536
      → prefixed_packet_length
          (front ++ (framed crc8_value prefix cmd payload ++ rest))
          (length front)
          family
        ≡ some (length (framed crc8_value prefix cmd payload))
  unfolding prefixed_packet_length
  prefixed_packet_length-framed front cmd payload rest h =
      rw
        (
          known,
          framed-append crc8_value prefix cmd payload rest,
          packet_length_at-append front _ prefix,
          packet_length_at-laid_out crc8_value prefix cmd payload rest h,
        )
        (ap some (omega (arith, length-framed cmd payload)))

  -- The stream of a list of commands.
  abbrev pub stream_of : List (ℕ × Bytes) → Bytes
  stream_of [] = []
  stream_of ((cmd, payload) ∷ commands) = framed crc8_value prefix cmd payload ++ stream_of commands

  abbrev pub packets_of : List (ℕ × Bytes) → List Bytes
  packets_of = map (λ (cmd, payload). framed crc8_value prefix cmd payload)

  split_loop-stream_of :
      (fuel : ℕ) (front : Bytes) (commands : List (ℕ × Bytes))
      → All (λ c. length c.1 < 65536) commands
      → length (stream_of commands) ≤ fuel
      → split_loop fuel (front ++ stream_of commands) (length front) family
        ≡ some (some (packets_of commands))
  split_loop-stream_of fuel front [] h enough =
      split_loop_end fuel (front ++ []) (length front) family
        (omega (arith, length-append front []))
  split_loop-stream_of zero front ((cmd, payload) ∷ commands) h enough = absurd (
      omega (
        arith,
        length-append (framed crc8_value prefix cmd payload) (stream_of commands),
        length-framed cmd payload,
      ))
  split_loop-stream_of (suc fuel) front ((cmd, payload) ∷ commands) (fits, h) enough =
      let packet = framed crc8_value prefix cmd payload in
      let rest = stream_of commands in
      rw (
        split_loop_more fuel (front ++ (packet ++ rest)) (length front) (length packet) family
            (omega (
              arith,
              length-append front (packet ++ rest),
              length-append packet rest,
              length-framed cmd payload,
            ))
            (prefixed_packet_length-framed front cmd payload rest fits),
        drop-append_length front (packet ++ rest),
        take-append_length packet rest,
        ← append_assoc front packet rest,
        ← length-append front packet,
        split_loop-stream_of fuel (front ++ packet) commands h
            (omega (arith, length-append packet rest, length-framed cmd payload)),
      )

  -- The source raises nothing on an opcode: it is read back as the byte that was written.
  pub prefixed_packet_opcode-framed :
      (cmd : ℕ) (payload : Bytes)
      → prefixed_packet_opcode (framed crc8_value prefix cmd payload) family ≡ some (cmd % 256)
  unfolding prefixed_packet_opcode
  prefixed_packet_opcode-framed cmd payload =
      rw
        (
          known,
          sym (append-nil (framed crc8_value prefix cmd payload)),
          framed-append crc8_value prefix cmd payload [],
        )
        (ground (
          arith,
          length-laid_out crc8_value prefix cmd payload [],
          take-append_length prefix (
              (cmd % 256)
              ∷ 0
              ∷ (length payload % 256)
              ∷ (length payload / 256 % 256)
              ∷ (payload ++ crc8_value payload ∷ 0xFF ∷ [])),
          bytes_eq_refl prefix,
          get_or-append_add prefix
              ((cmd % 256)
                ∷ 0
                ∷ (length payload % 256)
                ∷ (length payload / 256 % 256)
                ∷ (payload ++ crc8_value payload ∷ 0xFF ∷ []))
              0 (length prefix) 0 (omega arith),
        ))

  pub prefixed_packet_payload-framed :
      (cmd : ℕ) (payload : Bytes)
      → length payload < 65536
      → prefixed_packet_payload (framed crc8_value prefix cmd payload) family ≡ some payload
  unfolding prefixed_packet_payload
  prefixed_packet_payload-framed cmd payload h =
      rw
        (
          known,
          sym (append-nil (framed crc8_value prefix cmd payload)),
          framed-append crc8_value prefix cmd payload [],
        )
        (payload_at-laid_out crc8_value prefix cmd payload [] h)

  -- A stream of command packets splits into just these packets, in order: the loop neither stops
  -- short nor runs out of rounds. Each payload is shorter than 2 ^ 16 bytes.
  pub split_prefixed_packets-stream_of :
      (commands : List (ℕ × Bytes))
      → All (λ c. length c.1 < 65536) commands
      → split_prefixed_packets (stream_of commands) family ≡ some (some (packets_of commands))
  unfolding split_prefixed_packets
  split_prefixed_packets-stream_of commands h =
      split_loop-stream_of (length (stream_of commands)) [] commands h (omega arith)
