-- ===== src/Tests/Printers.antt =====
-- Runs of the packets of catlabel/protocol/packet.py, of the lines of catlabel/protocol/encoding.py
-- and of the rasters of catlabel/raster.py, at concrete inputs.
use catlabel.Prelude.{
  ℕ, ◌≡◌, ◌+◌, ◌%◌, refl, Bytes, List, [], ◌∷◌, ◌++◌, Option, some, ok, false, arith, length, All,
  concat,
}
use catlabel.Protocol.Family.{legacy, v5x, packet_prefix}
use catlabel.Protocol.Packet.{
  make_packet, split_prefixed_packets, prefixed_packet_length, prefixed_packet_opcode,
  prefixed_packet_payload,
}
use catlabel.Protocol.Packet.Framing.{stream_of, packets_of, split_prefixed_packets-stream_of}
use catlabel.Protocol.Packet.RoundTrip.{make_packet-readable}
use catlabel.Protocol.Packet.Splitting.{IsPacket, split_prefixed_packets_sound}
use catlabel.Protocol.Packet.Stream.{PrefixedPacket, Decoder, feed}
use catlabel.Protocol.Packet.Stream.Chunks.{feed-append}
use catlabel.Protocol.Encoding.{encode_run, rle_encode_line, pack_line}
use catlabel.Protocol.Encoding.Runs.{expand, expand-rle_encode_line}
use catlabel.Protocol.Commands.{energy_cmd, feed_cmd}
use catlabel.Protocol.Commands.Numbers.{little_endian, energy_cmd-readable}
use catlabel.Raster.{validate, packed_bytes, gray4}
use catlabel.Raster.Packing.{nibbles, packed_bytes-gray4}

-- A checksum for the runs; the model takes any.
abbrev sum : Bytes → ℕ
sum [] = 0
sum (b ∷ bs) = (b + sum bs) % 256

abbrev legacy_prefix : Bytes
legacy_prefix = 0x51 ∷ 0x78 ∷ []

abbrev commands : List (ℕ × Bytes)
commands = (0xA2, 1 ∷ 2 ∷ []) ∷ (0xBD, 7 ∷ []) ∷ []

abbrev front_half : Bytes
front_half = 0 ∷ 0x51 ∷ 0x78 ∷ 0xA2 ∷ []

abbrev back_half : Bytes
back_half = 0 ∷ 2 ∷ 0 ∷ 1 ∷ 2 ∷ 3 ∷ 0xFF ∷ 0x51 ∷ []

abbrev idle : Decoder
idle = record { prefix = legacy_prefix; buffer = []; received_byte_count = 0 }

legacy_known : packet_prefix legacy ≡ some legacy_prefix
unfolding packet_prefix
legacy_known = refl

encodes_run : encode_run 1 130 ≡ 255 ∷ 131 ∷ []
unfolding encode_run
encodes_run = refl

encodes_line : rle_encode_line (1 ∷ 1 ∷ 0 ∷ 0 ∷ 0 ∷ 1 ∷ []) ≡ 130 ∷ 3 ∷ 129 ∷ []
unfolding rle_encode_line
encodes_line = refl

packs_line : pack_line (1 ∷ 0 ∷ 0 ∷ 0 ∷ 0 ∷ 0 ∷ 0 ∷ 0 ∷ 1 ∷ []) false ≡ 128 ∷ 128 ∷ []
unfolding pack_line
packs_line = refl

make_packet-readable_example :
    (packet : Bytes) × (make_packet sum 0x1A2 (5 ∷ 6 ∷ []) legacy ≡ ok packet)
    × (prefixed_packet_length packet 0 legacy ≡ some (length packet))
    × (prefixed_packet_opcode packet legacy ≡ some (0x1A2 % 256))
    × (prefixed_packet_payload packet legacy ≡ some (5 ∷ 6 ∷ []))
make_packet-readable_example =
    make_packet-readable sum legacy legacy_prefix 0x1A2 (5 ∷ 6 ∷ []) legacy_known (omega arith)

split_prefixed_packets-stream_of_example :
    split_prefixed_packets (stream_of sum legacy legacy_prefix legacy_known commands) legacy
    ≡ some (some (packets_of sum legacy legacy_prefix legacy_known commands))
split_prefixed_packets-stream_of_example =
    split_prefixed_packets-stream_of sum legacy legacy_prefix legacy_known commands
      (omega arith, (omega arith, tt))

split_prefixed_packets_sound_example :
    (found : Option (List Bytes)) × (split_prefixed_packets back_half v5x ≡ some found)
    × ((packets : List Bytes)
        → found ≡ some packets
        → (concat packets ≡ back_half) × All (IsPacket v5x) packets)
split_prefixed_packets_sound_example = split_prefixed_packets_sound back_half v5x

feed-append_example :
    (packets others : List PrefixedPacket) × (middle last : Decoder) × (feed sum idle front_half
      ≡ some (packets, middle))
    × (feed sum middle back_half ≡ some (others, last))
    × (feed sum idle (front_half ++ back_half) ≡ some (packets ++ others, last))
feed-append_example = feed-append sum idle front_half back_half (omega arith)

packed_bytes-gray4_example :
    (bytes : Bytes) × (packed_bytes
        (record { pixels = 15 ∷ 1 ∷ 0 ∷ 9 ∷ []; width = 2; pixel_format = gray4 })
      ≡ ok bytes)
    × (nibbles bytes ≡ 15 ∷ 1 ∷ 0 ∷ 9 ∷ [])
unfolding validate
packed_bytes-gray4_example = packed_bytes-gray4 (15 ∷ 1 ∷ 0 ∷ 9 ∷ []) 2 refl refl

expand-rle_encode_line_example : expand (rle_encode_line (1 ∷ 1 ∷ 0 ∷ 1 ∷ [])) ≡ 1 ∷ 1 ∷ 0 ∷ 1 ∷ []
expand-rle_encode_line_example = expand-rle_encode_line (1 ∷ 1 ∷ 0 ∷ 1 ∷ [])

energy_cmd-readable_example :
    (energy feed energies dots : Bytes) × (energy_cmd sum legacy 12000 ≡ ok energy)
    × (prefixed_packet_opcode energy legacy ≡ some 0xAF)
    × (prefixed_packet_payload energy legacy ≡ some energies)
    × (little_endian energies ≡ 12000)
    × (feed_cmd sum legacy 12000 ≡ ok feed)
    × (prefixed_packet_opcode feed legacy ≡ some 0xA1)
    × (prefixed_packet_payload feed legacy ≡ some dots)
    × (little_endian dots ≡ 12000)
energy_cmd-readable_example =
    energy_cmd-readable sum legacy legacy_prefix legacy_known 12000 (omega arith) (omega arith)
