-- ===== src/Protocol/Packet/Stream.antt =====
-- `PrefixedPacketStreamDecoder` of catlabel/protocol/packet.py: packets out of a byte stream that
-- arrives in pieces, with noise between them. The decoder's attributes are the record `Decoder`.
mod Seek
mod Rounds
pub mod Chunks
use catlabel.Prelude.{
  ℕ, zero, suc, ◌+◌, ◌-◌, ◌*◌, min, Bytes, List, [], ◌∷◌, ◌++◌, Bool, true, false, Option, none,
  some, Result, ok, ◌>>=◌, length, take, drop, slice, get_or, bytes_eq, ltb, ◌==◌, not, ◌||◌,
  if◌then◌else◌,
}
use catlabel.Prelude.Option
use catlabel.Protocol.Family.{ProtocolFamily, ProtocolError, require_packet_prefix}

pub record PrefixedPacket : Type 0 where
  pub raw : Bytes
  pub opcode : ℕ
  pub flags : ℕ
  pub payload : Bytes
  pub start_offset : ℕ

pub record Decoder : Type 0 where
  pub prefix : Bytes
  pub buffer : Bytes
  pub received_byte_count : ℕ

-- `bytearray.find` for a string that is not empty.
unfoldable pub find : Bytes → Bytes → Option ℕ
find prefix [] = none
find prefix (byte ∷ rest) =
    if bytes_eq (take (length prefix) (byte ∷ rest)) prefix
    then some 0
    else Option.map suc (find prefix rest)

-- `buffer[-count:]`, for a count of one at least.
abbrev pub last_bytes : ℕ → Bytes → Bytes
last_bytes count buffer = drop (length buffer - count) buffer

-- The loop of `_partial_prefix_length`, over the lengths from the given one down to 1.
unfoldable pub partial_from : ℕ → Bytes → Bytes → ℕ
partial_from zero prefix buffer = 0
partial_from (suc n) prefix buffer =
    let shorter = partial_from n prefix buffer in
    if bytes_eq (last_bytes (suc n) buffer) (take (suc n) prefix) then suc n else shorter

unfoldable pub partial_prefix_length : Bytes → Bytes → ℕ
unfolding partial_from
partial_prefix_length prefix buffer =
    partial_from (min (length buffer) (length prefix - 1)) prefix buffer

-- What one round of the loop in `feed` does: `break`, `continue` or a packet, with the buffer left.
pub data Round : Type 0 where
  stop skip : Bytes → Round
  emit : PrefixedPacket → Bytes → Round

-- `if keep: del self._buffer[:-keep] else: self._buffer.clear()`
abbrev pub trim : ℕ → Bytes → Bytes
trim keep buffer = if keep == 0 then [] else last_bytes keep buffer

-- `int.from_bytes(buffer[at : at + 2], "little")`, where the two bytes are there.
abbrev pub length_bytes : Bytes → Bytes → ℕ
length_bytes prefix buffer =
    get_or buffer (length prefix + 2) 0 + get_or buffer (length prefix + 3) 0 * 256

module _ (crc8_value : Bytes → ℕ) where
  -- The test of the footer and the checksum of the complete frame `raw`, with what is left of the
  -- buffer if it fails (`one_on`) and if it holds (`rest`).
  abbrev pub judge : Bytes → ℕ → Bytes → ℕ → Bytes → Bytes → Round
  judge prefix payload_length raw start one_on rest =
      let payload = slice (length prefix + 4) payload_length raw in
      let packet_length = length prefix + 4 + payload_length + 2 in
      if not (get_or raw (packet_length - 1) 0 == 0xFF)
        || not (crc8_value payload == get_or raw (packet_length - 2) 0)
      then skip one_on
      else emit
          (record {
            raw = raw;
            opcode = get_or raw (length prefix) 0;
            flags = get_or raw (length prefix + 1) 0;
            payload = payload;
            start_offset = start;
          })
          rest

  -- The rest of a round, where the buffer begins with the prefix.
  unfoldable pub examine : Bytes → ℕ → Bytes → Round
  examine prefix received buffer =
      let payload_length = length_bytes prefix buffer in
      let packet_length = length prefix + 4 + payload_length + 2 in
      if ltb (length buffer) (length prefix + 4)
      then stop buffer
      else if ltb (length buffer) packet_length
      then stop buffer
      else judge prefix payload_length (take packet_length buffer) (received - length buffer)
          (drop 1 buffer) (drop packet_length buffer)

  unfoldable pub round : Bytes → ℕ → Bytes → Round
  unfolding find partial_prefix_length examine
  round prefix received buffer = elim (find prefix buffer) [
    | none ↦ stop (trim (partial_prefix_length prefix buffer) buffer)
    | some marker ↦ examine prefix received (drop marker buffer)
  ]

  -- `while self._buffer`, with fuel; `none` means that the fuel ran out.
  unfoldable pub feed_loop : ℕ → Bytes → ℕ → Bytes → Option (List PrefixedPacket × Bytes)
  feed_loop fuel prefix received [] = some ([], [])
  feed_loop zero prefix received (byte ∷ rest) = none
  feed_loop (suc fuel) prefix received (byte ∷ rest) = elim (round prefix received (byte ∷ rest)) [
    | stop left ↦ some ([], left)
    | skip left ↦ feed_loop fuel prefix received left
    | emit packet left ↦
        Option.map (λ (packets, last). (packet ∷ packets, last))
          (feed_loop fuel prefix received left)
  ]

  -- Every round that does not end the loop takes a byte at least from the buffer.
  unfoldable pub feed : Decoder → Bytes → Option (List PrefixedPacket × Decoder)
  feed d chunk =
      let received = d.received_byte_count + length chunk in
      let buffer = d.buffer ++ chunk in
      Option.map
        (λ (packets, left). (packets, record d { buffer = left; received_byte_count = received }))
        (feed_loop (length buffer) d.prefix received buffer)

unfoldable pub decoder : ProtocolFamily → Result ProtocolError Decoder
unfolding require_packet_prefix
decoder family = do
  prefix ← require_packet_prefix family
  ok (record { prefix = prefix; buffer = []; received_byte_count = 0 })
