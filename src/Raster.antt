-- ===== src/Raster.antt =====
-- catlabel/raster.py: `RasterBuffer` and `RasterSet`. Pixel values, widths and row numbers are never
-- negative in the model.
pub mod Packing
use catlabel.Prelude.{
  ℕ, zero, suc, ◌+◌, ◌*◌, ◌/◌, ◌%◌, ◌^◌, Bytes, List, [], ◌∷◌, Bool, true, false, Option, none,
  some, Result, ok, err, ◌>>=◌, ◌>>◌, raise_if, length, slice, bit_or, ltb, ◌==◌, ◌&&◌, ◌||◌, not,
  if◌then◌else◌,
}

pub data PixelFormat : Type 0 where
  bw1 gray4 gray8 : PixelFormat

pub record RasterBuffer : Type 0 where
  pub pixels : List ℕ
  pub width : ℕ
  pub pixel_format : PixelFormat

-- The `ValueError`s of the module.
pub data RasterError : Type 0 where
  width_not_positive ragged_rows value_out_of_range : RasterError
  odd_gray4_length not_grayscale : RasterError
  empty_set key_mismatch size_mismatch missing_raster : RasterError

abbrev pub format_eq : PixelFormat → PixelFormat → Bool
format_eq bw1 bw1 = true
format_eq gray4 gray4 = true
format_eq gray8 gray8 = true
format_eq _ _ = false

abbrev pub upper_bound : PixelFormat → ℕ
upper_bound bw1 = 1
upper_bound gray4 = 15
upper_bound gray8 = 255

-- `next((value for value in pixels if value > bound), None) is not None`
abbrev pub any_above : ℕ → List ℕ → Bool
any_above bound [] = false
any_above bound (x ∷ xs) = ltb bound x || any_above bound xs

unfoldable pub validate : RasterBuffer → Result RasterError (Unit {0})
validate r = do
  raise_if (r.width == 0) width_not_positive
  raise_if (not (length r.pixels % r.width == 0)) ragged_rows
  raise_if (any_above (upper_bound r.pixel_format) r.pixels) value_out_of_range

unfoldable pub height : RasterBuffer → Result RasterError ℕ
unfolding validate
height r = do validate r; ok (length r.pixels / r.width)

unfoldable pub slice_rows : RasterBuffer → ℕ → ℕ → RasterBuffer
slice_rows r start_row row_count = record r {
  pixels = slice (start_row * r.width) (row_count * r.width) r.pixels;
}

-- `(pixels[idx] << 4) | pixels[idx + 1]` for each pair.
unfoldable pub pack_nibbles : List ℕ → Bytes
pack_nibbles [] = []
pack_nibbles (p ∷ []) = []
pack_nibbles (p ∷ q ∷ pixels) = bit_or (p * 2 ^ 4) q ∷ pack_nibbles pixels

abbrev pack_format : PixelFormat → List ℕ → Result RasterError Bytes
pack_format bw1 pixels = err not_grayscale
pack_format gray4 pixels =
    raise_if (not (length pixels % 2 == 0)) odd_gray4_length >> ok (pack_nibbles pixels)
pack_format gray8 pixels = ok pixels

unfoldable pub packed_bytes : RasterBuffer → Result RasterError Bytes
unfolding validate pack_nibbles
packed_bytes r = do validate r; pack_format r.pixel_format r.pixels

-- The mapping of a `RasterSet`, in its order.
abbrev pub RasterSet : Type 0
RasterSet = List (PixelFormat × RasterBuffer)

abbrev validate_rest : ℕ → ℕ → RasterSet → Result RasterError (Unit {0})
validate_rest width rows [] = ok tt
validate_rest width rows ((key, r) ∷ rest) = do
  validate r
  raise_if (not (format_eq key r.pixel_format)) key_mismatch
  h ← height r
  raise_if (not (r.width == width) || not (h == rows)) size_mismatch
  validate_rest width rows rest

unfoldable pub validate_set : RasterSet → Result RasterError (Unit {0})
unfolding validate height
validate_set [] = err empty_set
validate_set ((key, r) ∷ rest) = do
  validate r
  raise_if (not (format_eq key r.pixel_format)) key_mismatch
  h ← height r
  validate_rest r.width h rest

abbrev first_width : RasterSet → Result RasterError ℕ
first_width [] = err empty_set
first_width ((key, r) ∷ rest) = ok r.width

abbrev first_height : RasterSet → Result RasterError ℕ
first_height [] = err empty_set
first_height ((key, r) ∷ rest) = height r

unfoldable pub set_width : RasterSet → Result RasterError ℕ
unfolding validate_set
set_width rasters = do validate_set rasters; first_width rasters

unfoldable pub set_height : RasterSet → Result RasterError ℕ
unfolding validate_set
set_height rasters = do validate_set rasters; first_height rasters

-- `RasterSet.get`
unfoldable pub get_raster : RasterSet → PixelFormat → Option RasterBuffer
get_raster [] pixel_format = none
get_raster ((key, r) ∷ rest) pixel_format =
    if format_eq key pixel_format then some r else get_raster rest pixel_format

-- `RasterSet.require`
unfoldable pub require_raster : RasterSet → PixelFormat → Result RasterError RasterBuffer
unfolding get_raster
require_raster rasters pixel_format = elim (get_raster rasters pixel_format) [
  | none ↦ err missing_raster
  | some r ↦ ok r
]

unfoldable pub from_single : RasterBuffer → Result RasterError RasterSet
unfolding validate
from_single r = do validate r; ok ((r.pixel_format, r) ∷ [])
