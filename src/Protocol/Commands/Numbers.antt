-- ===== src/Protocol/Commands/Numbers.antt =====
-- The two-byte numbers in the commands of catlabel/protocol/commands.py.
use catlabel.Prelude.{
  ℕ, ◌+◌, ◌*◌, ◌/◌, ◌%◌, ◌<◌, ◌≤◌, ◌≡◌, refl, Bytes, [], ◌∷◌, some, ok, arith, lt→ltb, ◌==◌, false,
}
use catlabel.Protocol.Family.{ProtocolFamily, packet_prefix}
use catlabel.Protocol.Packet.{make_packet, prefixed_packet_opcode, prefixed_packet_payload}
use catlabel.Protocol.Packet.RoundTrip.{make_packet-readable}
use catlabel.Protocol.Commands.{two_bytes, energy_cmd, feed_cmd}

-- The number that a payload of two bytes stands for.
abbrev pub little_endian : Bytes → ℕ
little_endian (low ∷ high ∷ []) = low + high * 256
little_endian _ = 0

module _ (crc8_value : Bytes → ℕ) (family : ProtocolFamily) (prefix : Bytes)
    (known : packet_prefix family ≡ some prefix) where
  two_bytes-readable :
      (cmd value : ℕ)
      → value < 65536
      → (packet payload : Bytes) × (two_bytes value ≡ ok payload)
        × (make_packet crc8_value cmd payload family ≡ ok packet)
        × (prefixed_packet_opcode packet family ≡ some (cmd % 256))
        × (prefixed_packet_payload packet family ≡ some payload)
        × (little_endian payload ≡ value)
  two_bytes-readable cmd value h =
      let (packet, made, size, opcode, payload) =
        make_packet-readable crc8_value family prefix cmd ((value % 256) ∷ (value / 256) ∷ []) known
          (omega arith) in
      (
        packet,
        (value % 256) ∷ (value / 256) ∷ [],
        rw (lt→ltb value 65536 h) refl,
        made,
        opcode,
        payload,
        omega arith,
      )

  -- In a family with a prefix, the energy command of every energy from 1 to 65535 and the feed
  -- command of every number of dots in that range are packets with opcodes 0xAF and 0xA1, whose
  -- payloads stand for that number in little endian.
  pub energy_cmd-readable :
      (value : ℕ)
      → 1 ≤ value
      → value < 65536
      → (energy feed energies dots : Bytes) × (energy_cmd crc8_value family value ≡ ok energy)
        × (prefixed_packet_opcode energy family ≡ some 0xAF)
        × (prefixed_packet_payload energy family ≡ some energies)
        × (little_endian energies ≡ value)
        × (feed_cmd crc8_value family value ≡ ok feed)
        × (prefixed_packet_opcode feed family ≡ some 0xA1)
        × (prefixed_packet_payload feed family ≡ some dots)
        × (little_endian dots ≡ value)
  unfolding energy_cmd feed_cmd
  energy_cmd-readable value low h =
      let nonzero : (value == 0) ≡ false = ground arith in
      let (energy, energies, bytes, made, opcode, payload, same) =
        two_bytes-readable 0xAF value h in
      let (feed, dots, bytes', made', opcode', payload', same') = two_bytes-readable 0xA1 value h in
      (
        energy,
        feed,
        energies,
        dots,
        rw (energy_cmd, nonzero, bytes) made,
        opcode,
        payload,
        same,
        rw (feed_cmd, nonzero, bytes') made',
        opcode',
        payload',
        same',
      )
