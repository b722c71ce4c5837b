-- ===== src/Protocol/Encoding.antt =====
-- catlabel/protocol/encoding.py: run lengths, packed lines and the packets of a legacy raster.
pub mod Runs
use catlabel.Prelude.{
  ℕ, zero, suc, ◌+◌, ◌-◌, ◌*◌, ◌/◌, ◌%◌, ◌^◌, Bytes, List, [], ◌∷◌, ◌++◌, Bool, true, false, Result,
  ok, err, ◌>>=◌, ◌>>◌, raise_if, length, take, drop, slice, replicate, bit_or, ltb, leb, ◌==◌,
  ◌&&◌, ◌||◌, not, if◌then◌else◌,
}
use catlabel.Protocol.Family.{
  ProtocolFamily, ProtocolError, width_not_byte_aligned, unsupported_encoding, byte_out_of_range,
  division_by_zero,
}
use catlabel.Protocol.Packet.{make_packet}

-- The loop of `encode_run`, with a round for each pixel at most.
unfoldable pub run_loop : ℕ → ℕ → ℕ → Bytes
run_loop zero color count = []
run_loop (suc fuel) color count =
    let rest = run_loop fuel color (count - 127) in
    if ltb 127 count
    then bit_or (color * 2 ^ 7) 127 ∷ rest
    else if ltb 0 count
    then bit_or (color * 2 ^ 7) count ∷ []
    else []

unfoldable pub encode_run : ℕ → ℕ → Bytes
unfolding run_loop
encode_run color count = run_loop count color count

-- `if not runs: runs.extend(run)`
abbrev pub last_runs : Bytes → Bytes → Bytes
last_runs [] run = run
last_runs (b ∷ bs) run = b ∷ bs

-- The loop of `rle_encode_line` over the pixels behind the first.
unfoldable pub rle_loop : List ℕ → ℕ → ℕ → Bool → Bytes → Bytes
unfolding encode_run
rle_loop [] prev count has_black runs =
    last_runs (if has_black then runs ++ encode_run prev count else runs) (encode_run prev count)
rle_loop (pix ∷ line) prev count has_black runs =
    let black = if not (pix == 0) then true else has_black in
    let longer = rle_loop line prev (count + 1) black runs in
    let turned = rle_loop line pix 1 black (runs ++ encode_run prev count) in
    if pix == prev then longer else turned

unfoldable pub rle_encode_line : List ℕ → Bytes
unfolding rle_loop
rle_encode_line [] = []
rle_encode_line (first ∷ line) = rle_loop line first 1 (not (first == 0)) []

-- `value |= 1 << bit` for the pixels of a chunk that are set, from a bit on.
unfoldable pub lsb_bits : ℕ → ℕ → List ℕ → ℕ
lsb_bits bit value [] = value
lsb_bits bit value (pix ∷ chunk) =
    lsb_bits (bit + 1) (if not (pix == 0) then bit_or value (2 ^ bit) else value) chunk

unfoldable pub msb_bits : ℕ → ℕ → List ℕ → ℕ
msb_bits bit value [] = value
msb_bits bit value (pix ∷ chunk) =
    msb_bits (bit + 1) (if not (pix == 0) then bit_or value (2 ^ (7 - bit)) else value) chunk

-- `chunk.extend([0] * (8 - len(chunk)))`
abbrev pub padded : List ℕ → List ℕ
padded chunk = chunk ++ replicate (8 - length chunk) 0

unfoldable pub pack_chunk : Bool → List ℕ → ℕ
unfolding lsb_bits msb_bits
pack_chunk lsb_first chunk =
    if lsb_first then lsb_bits 0 0 (padded chunk) else msb_bits 0 0 (padded chunk)

-- The chunks of `range(0, len(line), 8)`, with a round for each pixel at most.
unfoldable pub pack_loop : ℕ → List ℕ → Bool → Bytes
unfolding pack_chunk
pack_loop fuel [] lsb_first = []
pack_loop zero (p ∷ line) lsb_first = []
pack_loop (suc fuel) (p ∷ line) lsb_first =
    pack_chunk lsb_first (take 8 (p ∷ line)) ∷ pack_loop fuel (drop 8 (p ∷ line)) lsb_first

unfoldable pub pack_line : List ℕ → Bool → Bytes
unfolding pack_loop
pack_line line lsb_first = pack_loop (length line) line lsb_first

-- The encodings that `build_line_packets` knows, and the others.
pub data ImageEncoding : Type 0 where
  legacy_rle legacy_raw other_encoding : ImageEncoding

-- `bytes(rle)` raises on a value above 255, of a pixel above 1.
abbrev exceeds : ℕ → List ℕ → Bool
exceeds bound [] = false
exceeds bound (x ∷ xs) = ltb bound x || exceeds bound xs

module _ (crc8_value : Bytes → ℕ) (family : ProtocolFamily) where
  -- The packet of one line.
  unfoldable pub line_packet : List ℕ → ℕ → ImageEncoding → Bool → Result ProtocolError Bytes
  unfolding rle_encode_line pack_line make_packet
  line_packet line width_bytes legacy_rle lsb_first =
      let rle = rle_encode_line line in
      if leb (length rle) width_bytes
      then raise_if (exceeds 255 rle) byte_out_of_range >> make_packet crc8_value 0xBF rle family
      else make_packet crc8_value 0xA2 (pack_line line lsb_first) family
  line_packet line width_bytes legacy_raw lsb_first =
      make_packet crc8_value 0xA2 (pack_line line lsb_first) family
  line_packet line width_bytes other_encoding lsb_first = err unsupported_encoding

  -- `if line_feed_every and (row + 1) % line_feed_every == 0`
  unfoldable pub feed_packet : ℕ → ℕ → ℕ → Result ProtocolError Bytes
  unfolding make_packet
  feed_packet row speed line_feed_every =
      if not (line_feed_every == 0) && (row + 1) % line_feed_every == 0
      then make_packet crc8_value 0xBD ((speed % 256) ∷ []) family
      else ok []

  -- The rows from a row on, `count` of them.
  unfoldable pub rows_loop :
      ℕ → ℕ → List ℕ → ℕ → ℕ → ImageEncoding → Bool → ℕ → Result ProtocolError Bytes
  unfolding line_packet feed_packet
  rows_loop zero row pixels width speed image_encoding lsb_first line_feed_every = ok []
  rows_loop (suc count) row pixels width speed image_encoding lsb_first line_feed_every = do
    packet ← line_packet (slice (row * width) width pixels) (width / 8) image_encoding lsb_first
    fed ← feed_packet row speed line_feed_every
    rest ← rows_loop count (row + 1) pixels width speed image_encoding lsb_first line_feed_every
    ok (packet ++ (fed ++ rest))

  unfoldable pub build_line_packets :
      List ℕ → ℕ → ℕ → ImageEncoding → Bool → ℕ → Result ProtocolError Bytes
  unfolding rows_loop
  build_line_packets pixels width speed image_encoding lsb_first line_feed_every = do
    raise_if (not (width % 8 == 0)) width_not_byte_aligned
    raise_if (width == 0) division_by_zero
    rows_loop (length pixels / width) 0 pixels width speed image_encoding lsb_first line_feed_every
