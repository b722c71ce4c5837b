-- ===== src/Protocol/Packet/RoundTrip.antt =====
-- `make_packet` of catlabel/protocol/packet.py and the readers of the module together.
use catlabel.Prelude.{ℕ, ◌≡◌, ◌<◌, ◌%◌, Bytes, [], some, ok, subst, length, append-nil}
use catlabel.Protocol.Family.{ProtocolFamily, packet_prefix}
use catlabel.Protocol.Packet.{
  make_packet, framed, prefixed_packet_length, prefixed_packet_opcode, prefixed_packet_payload,
}
use catlabel.Protocol.Packet.Framing.{
  make_packet-framed, prefixed_packet_length-framed, prefixed_packet_opcode-framed,
  prefixed_packet_payload-framed,
}

-- In a family with a prefix, `make_packet` succeeds on every opcode and every payload shorter than
-- 2 ^ 16 bytes, and of the packet it builds the readers find its own length, the opcode's low byte
-- and the payload, whatever the checksum.
pub make_packet-readable :
    (crc8_value : Bytes → ℕ) (family : ProtocolFamily) (prefix : Bytes) (cmd : ℕ) (payload : Bytes)
    → packet_prefix family ≡ some prefix
    → length payload < 65536
    → (packet : Bytes) × (make_packet crc8_value cmd payload family ≡ ok packet)
      × (prefixed_packet_length packet 0 family ≡ some (length packet))
      × (prefixed_packet_opcode packet family ≡ some (cmd % 256))
      × (prefixed_packet_payload packet family ≡ some payload)
make_packet-readable crc8_value family prefix cmd payload known fits = (
  framed crc8_value prefix cmd payload,
  make_packet-framed crc8_value family prefix known cmd payload,
  subst
      (λ stream.
        prefixed_packet_length stream 0 family
        ≡ some (length (framed crc8_value prefix cmd payload)))
      (append-nil (framed crc8_value prefix cmd payload))
      (prefixed_packet_length-framed crc8_value family prefix known [] cmd payload [] fits),
  prefixed_packet_opcode-framed crc8_value family prefix known cmd payload,
  prefixed_packet_payload-framed crc8_value family prefix known cmd payload fits,
)
