-- ===== src/Tests/Niimbot.antt =====
-- Runs of catlabel/protocol/families/niimbot_core.py at concrete inputs.
use catlabel.Prelude.{
  ℕ, ◌≡◌, refl, List, [], ◌∷◌, ◌++◌, some, ok, err, replicate, length, map, arith,
}
use catlabel.Prelude.Int.{negsuc}
use catlabel.Raster.{RasterBuffer, bw1}
use catlabel.Protocol.Niimbot.{
  frame, model_id, pack_row_msb, index_pixels, is_black, count_pixels, counts_bytes, count_not_byte,
  encode_d_rows,
}
use catlabel.Protocol.Niimbot.Rows.{
  bits_of, paint, positions_of, index_of, no_octets, octet_more, packed_rows_readable,
}

connects : frame 0xC1 (1 ∷ []) ≡ ok (0x03 ∷ 0x55 ∷ 0x55 ∷ 0xC1 ∷ 1 ∷ 1 ∷ 0xC1 ∷ 0xAA ∷ 0xAA ∷ [])
unfolding frame
connects = refl

negative_model : model_id (0xFF ∷ 0xFE ∷ []) ≡ some (negsuc 1)
unfolding model_id
negative_model = refl

-- A black row of 768 pixels has three counts of 256, which are no bytes.
wide_row_is_refused : counts_bytes (count_pixels (replicate 96 255) 768) ≡ err count_not_byte
unfolding count_pixels
wide_row_is_refused = refl

abbrev line : List ℕ
line = 0 ∷ 0 ∷ 1 ∷ 0 ∷ 0 ∷ 0 ∷ 0 ∷ 1 ∷ []

packed_rows_readable_example :
    (bits_of (pack_row_msb line) ≡ map is_black line)
    × (index_pixels 0 (pack_row_msb line) ≡ index_of 0 (map is_black line))
    × (paint 0 (length line) (positions_of (index_pixels 0 (pack_row_msb line)))
        ≡ map is_black line)
packed_rows_readable_example = packed_rows_readable line (octet_more no_octets) (omega arith)

-- A blank row, two rows alike, and a black one.
abbrev bitmap : RasterBuffer
bitmap = record {
  pixels = replicate 8 0 ++ (line ++ (line ++ replicate 8 1));
  width = 8;
  pixel_format = bw1;
}

three_frames :
    encode_d_rows bitmap
    ≡ ok (
        (0x55 ∷ 0x55 ∷ 0x84 ∷ 3 ∷ 0 ∷ 0 ∷ 1 ∷ 0x86 ∷ 0xAA ∷ 0xAA ∷ [])
        ∷ (0x55 ∷ 0x55 ∷ 0x83 ∷ 10 ∷ 0 ∷ 1 ∷ 0 ∷ 2 ∷ 0 ∷ 2 ∷ 0 ∷ 2 ∷ 0 ∷ 7 ∷ 0x8D ∷ 0xAA ∷ 0xAA
            ∷ [])
        ∷ (0x55 ∷ 0x55 ∷ 0x85 ∷ 7 ∷ 0 ∷ 3 ∷ 0 ∷ 8 ∷ 0 ∷ 1 ∷ 0xFF ∷ 0x77 ∷ 0xAA ∷ 0xAA ∷ [])
        ∷ [])
unfolding encode_d_rows
three_frames = refl
