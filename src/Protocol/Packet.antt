-- ===== src/Protocol/Packet.antt =====
-- catlabel/protocol/packet.py: the framed command packets, prefix, opcode, flags, length of the
-- payload in two bytes, payload, checksum and 0xFF. The checksum is the first byte of the digest
-- of the package `crc8`, a parameter. An offset is never negative in the model.
mod Fields
pub mod RoundTrip
pub mod Framing
pub mod Splitting
pub mod Stream
use Fields.{length_field}
use catlabel.Prelude.{
  ℕ, zero, suc, ◌+◌, ◌*◌, ◌/◌, ◌%◌, ◌^◌, Bytes, List, [], ◌∷◌, ◌++◌, Option, none, some, Result, ok,
  ◌>>=◌, length, take, drop, slice, get_or, bytes_eq, bit_or, ltb, not, ◌||◌, if◌then◌else◌,
}
use catlabel.Prelude.Option
use catlabel.Protocol.Family.{ProtocolFamily, ProtocolError, packet_prefix, require_packet_prefix}

-- `prefix + bytes([cmd & 0xFF, 0x00, length & 0xFF, (length >> 8) & 0xFF])`
abbrev pub header : Bytes → ℕ → ℕ → Bytes
header prefix cmd count = prefix ++ (cmd % 256) ∷ 0 ∷ (count % 256) ∷ (count / 256 % 256) ∷ []

module _ (crc8_value : Bytes → ℕ) where
  abbrev pub framed : Bytes → ℕ → Bytes → Bytes
  framed prefix cmd payload =
      header prefix cmd (length payload) ++ (payload ++ crc8_value payload ∷ 0xFF ∷ [])

  unfoldable pub make_packet : ℕ → Bytes → ProtocolFamily → Result ProtocolError Bytes
  unfolding require_packet_prefix
  make_packet cmd payload family = do
    prefix ← require_packet_prefix family
    ok (framed prefix cmd payload)

abbrev pub packet_length_at : Bytes → ℕ → Bytes → Option ℕ
packet_length_at stream offset prefix =
    if ltb (length stream) (offset + length prefix + 4)
    then none
    else if not (bytes_eq (slice offset (length prefix) stream) prefix)
    then none
    else let total =
        length prefix + 1 + 1 + 2 + length_field stream (offset + length prefix + 2) + 2 in
      if ltb (length stream) (offset + total) then none else some total

unfoldable pub prefixed_packet_length : Bytes → ℕ → ProtocolFamily → Option ℕ
unfolding packet_prefix Option.bind
prefixed_packet_length stream offset family =
    Option.bind (packet_prefix family) (packet_length_at stream offset)

-- The loop of `split_prefixed_packets`, from an offset on. The outer `none` means that the fuel ran
-- out, the inner one is the source's `None`.
abbrev pub keep_packet : Bytes → Option (Option (List Bytes)) → Option (Option (List Bytes))
keep_packet packet = Option.map (Option.map (λ packets. packet ∷ packets))

unfoldable pub split_loop : ℕ → Bytes → ℕ → ProtocolFamily → Option (Option (List Bytes))
split_loop zero stream offset family = if ltb offset (length stream) then none else some (some [])
split_loop (suc fuel) stream offset family =
    if ltb offset (length stream)
    then elim (prefixed_packet_length stream offset family) [
      | none ↦ some none
      | some count ↦
          keep_packet (slice offset count stream) (split_loop fuel stream (offset + count) family)
    ]
    else some (some [])

-- Every packet has six bytes at least, so a round for each byte is enough.
unfoldable pub split_prefixed_packets : Bytes → ProtocolFamily → Option (Option (List Bytes))
unfolding split_loop prefixed_packet_length
split_prefixed_packets stream family = split_loop (length stream) stream 0 family

abbrev pub opcode_at : Bytes → Bytes → Option ℕ
opcode_at packet prefix =
    if ltb (length packet) (length prefix + 1)
      || not (bytes_eq (take (length prefix) packet) prefix)
    then none
    else some (get_or packet (length prefix) 0)

unfoldable pub prefixed_packet_opcode : Bytes → ProtocolFamily → Option ℕ
unfolding packet_prefix Option.bind
prefixed_packet_opcode packet family = Option.bind (packet_prefix family) (opcode_at packet)

abbrev pub payload_at : Bytes → Bytes → Option Bytes
payload_at packet prefix =
    if ltb (length packet) (length prefix + 4)
      || not (bytes_eq (take (length prefix) packet) prefix)
    then none
    else let count = length_field packet (length prefix + 2) in
      if ltb (length packet) (length prefix + 4 + count)
      then none
      else some (slice (length prefix + 4) count packet)

unfoldable pub prefixed_packet_payload : Bytes → ProtocolFamily → Option Bytes
unfolding packet_prefix Option.bind
prefixed_packet_payload packet family = Option.bind (packet_prefix family) (payload_at packet)
