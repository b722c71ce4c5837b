-- ===== src/Protocol/Niimbot.antt =====
-- catlabel/protocol/families/niimbot_core.py: NIIMBOT frames, and the rows of a raster as frames, with
-- `validate_image_budget` of catlabel/core/resource_limits.py. A row's bits are set once each, so
-- their union is a sum.
pub mod Rows
pub mod Counts
pub mod Recounts
pub mod Frames
use catlabel.Prelude.{
  ℕ, zero, suc, ◌+◌, ◌-◌, ◌*◌, ◌/◌, ◌%◌, ◌^◌, min, bit_xor, Bytes, List, [], ◌∷◌, ◌++◌, Bool, true,
  false, Option, none, some, Result, ok, err, ◌>>=◌, ◌>>◌, raise_if, length, take, drop, slice,
  get_or, bytes_eq, ltb, leb, ◌==◌, ◌&&◌, ◌||◌, not, if◌then◌else◌,
}
use catlabel.Prelude.Int.{ℤ, pos, negsuc}
use catlabel.Raster.{RasterBuffer, RasterError, PixelFormat, bw1, format_eq, validate}

pub data NiimbotError : Type 0 where
  command_not_byte data_too_long not_bw1 width_not_positive width_too_large : NiimbotError
  width_not_octets ragged_rows bad_height image_too_large count_not_byte : NiimbotError
  invalid_raster : RasterError → NiimbotError

abbrev pub Fallible : Type 0 → Type 0
Fallible A = Result NiimbotError A

-- `checksum ^= value` for each byte
abbrev pub folded : ℕ → Bytes → ℕ
folded checksum [] = checksum
folded checksum (value ∷ content) = folded (bit_xor checksum value) content

unfoldable pub frame : ℕ → Bytes → Fallible Bytes
frame command content =
    let packet =
      0x55
      ∷ 0x55
      ∷ command
      ∷ length content
      ∷ (content ++ (folded (bit_xor command (length content)) content % 256) ∷ 0xAA ∷ 0xAA ∷ []) in
    raise_if (ltb 255 command) command_not_byte
    >> raise_if (ltb 255 (length content)) data_too_long
    >> ok (if command == 0xC1 then 0x03 ∷ packet else packet)

unfoldable pub connect_result : Bytes → Option ℕ
connect_result [] = none
connect_result (first ∷ payload) =
    if first == 1 || first == 2 || first == 3 then some first else none

-- One byte is the high byte of the identifier; two are a signed number.
unfoldable pub model_id : Bytes → Option ℤ
model_id (a ∷ []) = some (pos (a * 256))
model_id (a ∷ b ∷ []) =
    let value = a * 256 + b in some (if ltb value 32768 then pos value else negsuc (65535 - value))
model_id _ = none

unfoldable pub protocol_version : Bytes → ℕ
protocol_version payload =
    let encoded = get_or payload 11 0 * 100 + get_or payload 12 0 in
    if leb (length payload) 12
    then 0
    else if leb 204 encoded && ltb encoded 300
    then 3
    else if encoded == 300 || encoded == 301
    then 4
    else if leb 302 encoded
    then 5
    else 0

-- `value.to_bytes(2, byteorder="big")`, for a value below 2 ^ 16.
abbrev pub u16be : ℕ → Bytes
u16be value = (value / 256) ∷ (value % 256) ∷ []

abbrev pub is_black : ℕ → Bool
is_black pixel = not (pixel == 0)

abbrev pub weight : ℕ → ℕ → ℕ
weight bit pixel = if is_black pixel then bit else 0

-- `_pack_row_msb`, eight pixels at a time; a width is a multiple of 8.
unfoldable pub pack_row_msb : List ℕ → Bytes
pack_row_msb (a ∷ b ∷ c ∷ d ∷ e ∷ f ∷ g ∷ h ∷ pixels) =
    (weight 128 a
      + weight 64 b
      + weight 32 c
      + weight 16 d
      + weight 8 e
      + weight 4 f
      + weight 2 g
      + weight 1 h)
    ∷ pack_row_msb pixels
pack_row_msb _ = []

-- `value & (1 << (7 - bit_index))`, by the weight of the bit.
abbrev pub has_bit : ℕ → ℕ → Bool
has_bit value bit = value / bit % 2 == 1

-- `_BLACK_BIT_COUNTS[value]`
abbrev pub bit_count : ℕ → ℕ
bit_count value =
    value / 128 % 2
    + value / 64 % 2
    + value / 32 % 2
    + value / 16 % 2
    + value / 8 % 2
    + value / 4 % 2
    + value / 2 % 2
    + value % 2

abbrev pub index_at : ℕ → Bool → Bytes → Bytes
index_at position set rest = if set then u16be position ++ rest else rest

-- `_index_pixels`, from a position on.
unfoldable pub index_pixels : ℕ → Bytes → Bytes
index_pixels position [] = []
index_pixels position (value ∷ row_data) = index_at position (has_bit value 128) (
    index_at (position + 1) (has_bit value 64) (
      index_at (position + 2) (has_bit value 32) (
        index_at (position + 3) (has_bit value 16) (
          index_at (position + 4) (has_bit value 8) (
            index_at (position + 5) (has_bit value 4) (
              index_at (position + 6) (has_bit value 2) (
                index_at (position + 7) (has_bit value 1)
                  (index_pixels (position + 8) row_data))))))))

abbrev pub total_count : Bytes → ℕ
total_count [] = 0
total_count (value ∷ row_data) = bit_count value + total_count row_data

-- `parts[chunk]`, from a byte's index on.
abbrev pub part_count : ℕ → ℕ → ℕ → Bytes → ℕ
part_count chunk_width chunk index [] = 0
part_count chunk_width chunk index (value ∷ row_data) =
    let rest = part_count chunk_width chunk (index + 1) row_data in
    if index / chunk_width == chunk then bit_count value + rest else rest

unfoldable pub count_pixels : Bytes → ℕ → ℕ × ℕ × ℕ
count_pixels row_data width =
    let chunk_width = width / 8 / 3 in
    let total = total_count row_data in
    if ltb 0 chunk_width && leb (length row_data) (chunk_width * 3)
    then (
      part_count chunk_width 0 0 row_data,
      part_count chunk_width 1 0 row_data,
      part_count chunk_width 2 0 row_data,
    )
    else (0, total % 256, total / 256 % 256)

-- `bytes(counts)`
abbrev pub counts_bytes : ℕ × ℕ × ℕ → Fallible Bytes
counts_bytes (a, b, c) =
    raise_if (ltb 255 a || ltb 255 b || ltb 255 c) count_not_byte >> ok (a ∷ b ∷ c ∷ [])

-- A round of `_encode_row_run`.
unfoldable pub encode_rows : ℕ → ℕ → ℕ → Option Bytes → ℕ → Fallible Bytes
unfolding frame count_pixels index_pixels
encode_rows current_row chunk_repeat black_count none width =
    frame 0x84 (u16be current_row ++ chunk_repeat ∷ [])
encode_rows current_row chunk_repeat black_count (some row_data) width = do
  counts ← counts_bytes (count_pixels row_data width)
  let header = u16be current_row ++ (counts ++ chunk_repeat ∷ [])
  if leb black_count 6
      then frame 0x83 (header ++ index_pixels 0 row_data)
      else frame 0x85 (header ++ row_data)

-- `_encode_row_run`, with what is left of the repetitions; a round for each of them is enough.
unfoldable pub encode_row_run : ℕ → ℕ → ℕ → ℕ → Option Bytes → ℕ → Fallible (List Bytes)
unfolding encode_rows
encode_row_run fuel row_number zero black_count row_data width = ok []
encode_row_run zero row_number (suc left) black_count row_data width = ok []
encode_row_run (suc fuel) row_number (suc left) black_count row_data width =
    let chunk_repeat = min 255 (suc left) in
    do
      first ← encode_rows row_number chunk_repeat black_count row_data width
      rest ←
          encode_row_run fuel (row_number + chunk_repeat) (suc left - chunk_repeat) black_count
            row_data width
      ok (first ∷ rest)

-- A run of rows that have the same bits.
pub record RowRun : Type 0 where
  pub run_start : ℕ
  pub run_repeat : ℕ
  pub run_black_count : ℕ
  pub run_data : Option Bytes

abbrev pub same_row : Option Bytes → Option Bytes → Bool
same_row none none = true
same_row (some a) (some b) = bytes_eq a b
same_row _ _ = false

abbrev pub count_black : List ℕ → ℕ
count_black [] = 0
count_black (pixel ∷ pixels) =
    let rest = count_black pixels in if is_black pixel then suc rest else rest

abbrev pub row_data_of : List ℕ → Option Bytes
row_data_of line = if count_black line == 0 then none else some (pack_row_msb line)

unfoldable pub flush : ℕ → RowRun → Fallible (List Bytes)
unfolding encode_row_run
flush width run =
    if run.run_repeat == 0
    then ok []
    else encode_row_run run.run_repeat run.run_start run.run_repeat run.run_black_count run.run_data
        width

-- The loop over the rows and the last run.
unfoldable pub encode_lines : ℕ → ℕ → RowRun → List (List ℕ) → Fallible (List Bytes)
unfolding flush pack_row_msb
encode_lines width row_number run [] = flush width run
encode_lines width row_number run (line ∷ lines) =
    let row_data = row_data_of line in
    let longer =
      encode_lines width (row_number + 1) (record run { run_repeat = run.run_repeat + 1 }) lines in
    let others =
      encode_lines width (row_number + 1)
        (record {
          run_start = row_number;
          run_repeat = 1;
          run_black_count = count_black line;
          run_data = row_data;
        })
        lines in
    if ltb 0 run.run_repeat && same_row row_data run.run_data
    then longer
    else do frames ← flush width run; rest ← others; ok (frames ++ rest)

-- `raster.pixels[start : start + width]` for each row.
unfoldable pub lines_of : ℕ → ℕ → List ℕ → List (List ℕ)
lines_of width zero pixels = []
lines_of width (suc rows) pixels = take width pixels ∷ lines_of width rows (drop width pixels)

-- `MAX_DIMENSION` and `MAX_RENDER_PIXELS` of catlabel/data/resource_limits.json
unfoldable pub validate_image_budget : ℕ → ℕ → ℕ → Fallible ℕ
validate_image_budget width height pixels_so_far =
    let total_pixels = pixels_so_far + width * height in
    raise_if (width == 0 || ltb 20000 width) image_too_large
    >> raise_if (height == 0 || ltb 20000 height) image_too_large
    >> raise_if (ltb 50000000 total_pixels) image_too_large
    >> ok total_pixels

abbrev pub checked_raster : Result RasterError (Unit {0}) → Fallible (Unit {0})
checked_raster (ok u) = ok u
checked_raster (err e) = err (invalid_raster e)

unfoldable pub encode_d_rows : RasterBuffer → Fallible (List Bytes)
unfolding validate_image_budget validate encode_lines lines_of
encode_d_rows raster =
    let width = raster.width in
    let pixel_count = length raster.pixels in
    let height = pixel_count / width in
    do
      raise_if (not (format_eq raster.pixel_format bw1)) not_bw1
      raise_if (width == 0) width_not_positive
      raise_if (ltb 0xFFFF width) width_too_large
      raise_if (not (width % 8 == 0)) width_not_octets
      raise_if (not (pixel_count % width == 0)) ragged_rows
      raise_if (not (leb 1 height && leb height 0xFFFF)) bad_height
      budget ← validate_image_budget width height 0
      checked_raster (validate raster)
      encode_lines width 0
          (record { run_start = 0; run_repeat = 0; run_black_count = 0; run_data = none })
          (lines_of width height raster.pixels)
