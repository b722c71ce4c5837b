-- ===== src/Raster/Packing.antt =====
-- The checks of `RasterBuffer` in catlabel/raster.py, and its packed pixels read back.
use catlabel.Prelude.{
  ℕ, ◌/◌, ◌%◌, ◌≤◌, ◌≡◌, refl, Bytes, List, [], ◌∷◌, false, ok, length, arith, All, Bool-cases, inl,
  inr,
}
use catlabel.Prelude.Bits.{bit_or_high_low}
use catlabel.Raster.{
  RasterBuffer, gray4, upper_bound, any_above, validate, pack_nibbles, packed_bytes,
}

-- A printer's view of packed GRAY4 bytes: the high nibble first.
abbrev pub nibbles : Bytes → List ℕ
nibbles [] = []
nibbles (b ∷ bs) = b / 16 ∷ b % 16 ∷ nibbles bs

pub any_above→All : (bound : ℕ) (xs : List ℕ) → any_above bound xs ≡ false → All (λ x. x ≤ bound) xs
any_above→All bound [] h = tt
any_above→All bound (x ∷ xs) h = (ground arith, any_above→All bound xs (ground arith))

nibbles-pack_nibbles :
    (pixels : List ℕ)
    → All (λ x. x ≤ 15) pixels
    → length pixels % 2 ≡ 0
    → nibbles (pack_nibbles pixels) ≡ pixels
unfolding pack_nibbles
nibbles-pack_nibbles [] h e = refl
nibbles-pack_nibbles (p ∷ []) h e = absurd (omega arith)
nibbles-pack_nibbles (p ∷ q ∷ pixels) (hp, (hq, h)) e =
    ground (arith, bit_or_high_low 4 p q (omega arith), nibbles-pack_nibbles pixels h (omega arith))

-- A valid raster's pixels stay below its format's bound.
validate-bounded :
    (r : RasterBuffer) → validate r ≡ ok tt → All (λ x. x ≤ upper_bound r.pixel_format) r.pixels
unfolding validate
validate-bounded r e = elim (Bool-cases (any_above (upper_bound r.pixel_format) r.pixels)) [
  | inl h ↦ absurd (ground arith)
  | inr h ↦ any_above→All (upper_bound r.pixel_format) r.pixels h
]

-- A valid GRAY4 raster with an even number of pixels is packed, and the nibbles of the bytes, the
-- high one first, are its pixels.
pub packed_bytes-gray4 :
    (pixels : List ℕ) (width : ℕ)
    → validate (record { pixels = pixels; width = width; pixel_format = gray4 }) ≡ ok tt
    → length pixels % 2 ≡ 0
    → (bytes : Bytes) × (packed_bytes
          (record { pixels = pixels; width = width; pixel_format = gray4 })
        ≡ ok bytes)
      × (nibbles bytes ≡ pixels)
unfolding packed_bytes
packed_bytes-gray4 pixels width e even = (
  pack_nibbles pixels,
  rw (e, even) refl,
  nibbles-pack_nibbles pixels
      (validate-bounded (record { pixels = pixels; width = width; pixel_format = gray4 }) e) even,
)
