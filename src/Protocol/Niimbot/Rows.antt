-- ===== src/Protocol/Niimbot/Rows.antt =====
-- The rows of catlabel/protocol/families/niimbot_core.py, packed and indexed, read back as pixels.
use catlabel.Prelude.{
  ℕ, zero, suc, ◌+◌, ◌*◌, ◌/◌, ◌%◌, ◌≤◌, ◌≡◌, refl, ap, sym, ◌∙◌, Bytes, List, [], ◌∷◌, Bool, true,
  false, length, map, arith, ◌==◌, if◌then◌else◌,
}
use catlabel.Protocol.Niimbot.{pack_row_msb, index_pixels, weight, is_black, has_bit}

-- The bits of a packed row, the highest of each byte first.
unfoldable pub bits_of : Bytes → List Bool
bits_of [] = []
bits_of (value ∷ row_data) =
    has_bit value 128
    ∷ has_bit value 64
    ∷ has_bit value 32
    ∷ has_bit value 16
    ∷ has_bit value 8
    ∷ has_bit value 4
    ∷ has_bit value 2
    ∷ has_bit value 1
    ∷ bits_of row_data

abbrev digit : ℕ → ℕ
digit pixel = if is_black pixel then 1 else 0

weight-digit : (bit pixel : ℕ) → weight bit pixel ≡ bit * digit pixel
weight-digit bit pixel = ground arith

digit_le : (pixel : ℕ) → digit pixel ≤ 1
digit_le pixel = ground arith

is_black-digit : (pixel value : ℕ) → value ≡ digit pixel → (value == 1) ≡ is_black pixel
is_black-digit pixel value h = ground arith

module _ (a b c d e f g h : ℕ) (a1 : a ≤ 1) (b1 : b ≤ 1) (c1 : c ≤ 1) (d1 : d ≤ 1) (e1 : e ≤ 1)
    (f1 : f ≤ 1) (g1 : g ≤ 1) (h1 : h ≤ 1) where
  abbrev octet : ℕ
  octet = 128 * a + 64 * b + 32 * c + 16 * d + 8 * e + 4 * f + 2 * g + 1 * h

  octet-digits :
      (octet / 128 % 2 ≡ a)
      × (octet / 64 % 2 ≡ b)
      × (octet / 32 % 2 ≡ c)
      × (octet / 16 % 2 ≡ d)
      × (octet / 8 % 2 ≡ e)
      × (octet / 4 % 2 ≡ f)
      × (octet / 2 % 2 ≡ g)
      × (octet / 1 % 2 ≡ h)
  octet-digits = (
    omega arith,
    omega arith,
    omega arith,
    omega arith,
    omega arith,
    omega arith,
    omega arith,
    omega arith,
  )

packed :
    (a b c d e f g h : ℕ)
    → weight 128 a
        + weight 64 b
        + weight 32 c
        + weight 16 d
        + weight 8 e
        + weight 4 f
        + weight 2 g
        + weight 1 h
      ≡ 128 * digit a
        + 64 * digit b
        + 32 * digit c
        + 16 * digit d
        + 8 * digit e
        + 4 * digit f
        + 2 * digit g
        + 1 * digit h
packed a b c d e f g h = omega (
  arith,
  weight-digit 128 a,
  weight-digit 64 b,
  weight-digit 32 c,
  weight-digit 16 d,
  weight-digit 8 e,
  weight-digit 4 f,
  weight-digit 2 g,
  weight-digit 1 h,
)

-- Pixels in whole octets.
pub data IsOctets : List ℕ → Type 0 where
  no_octets : IsOctets []
  octet_more :
      {a b c d e f g h : ℕ} {pixels : List ℕ}
      → IsOctets pixels
      → IsOctets (a ∷ b ∷ c ∷ d ∷ e ∷ f ∷ g ∷ h ∷ pixels)

pub bits_of-pack_row_msb :
    {line : List ℕ} → IsOctets line → bits_of (pack_row_msb line) ≡ map is_black line
unfolding bits_of pack_row_msb
bits_of-pack_row_msb no_octets = refl
bits_of-pack_row_msb (octet_more {a} {b} {c} {d} {e} {f} {g} {h} rest) =
    let (p, q, r, s, t, u, v, w) =
      octet-digits (digit a) (digit b) (digit c) (digit d) (digit e) (digit f) (digit g) (digit h)
        (digit_le a) (digit_le b) (digit_le c) (digit_le d) (digit_le e) (digit_le f) (digit_le g)
        (digit_le h) in
    rw
      (
        packed a b c d e f g h,
        is_black-digit a _ p,
        is_black-digit b _ q,
        is_black-digit c _ r,
        is_black-digit d _ s,
        is_black-digit e _ t,
        is_black-digit f _ u,
        is_black-digit g _ v,
        is_black-digit h _ w,
        bits_of-pack_row_msb rest,
      )
      refl

-- The positions that an index lists, two bytes each.
unfoldable pub positions_of : Bytes → List ℕ
positions_of (high ∷ low ∷ index) = (high * 256 + low) ∷ positions_of index
positions_of _ = []

-- A row of so many pixels from a position on, black at the listed positions.
unfoldable pub paint : ℕ → ℕ → List ℕ → List Bool
paint position zero listed = []
paint position (suc count) [] = false ∷ paint (position + 1) count []
paint position (suc count) (i ∷ listed) =
    let here = paint (position + 1) count listed in
    let later = paint (position + 1) count (i ∷ listed) in
    if i == position then true ∷ here else false ∷ later

-- The positions of the black pixels of a row, from a position on: in ascending order, two bytes each,
-- the high one first.
unfoldable pub index_of : ℕ → List Bool → Bytes
index_of position [] = []
index_of position (bit ∷ bits) =
    let later = index_of (position + 1) bits in
    if bit then (position / 256) ∷ (position % 256) ∷ later else later

pub index_pixels-bits_of :
    (position : ℕ) (row_data : Bytes)
    → index_pixels position row_data ≡ index_of position (bits_of row_data)
unfolding index_pixels bits_of index_of
index_pixels-bits_of position [] = refl
index_pixels-bits_of position (value ∷ row_data) =
    let e2 : position + 1 + 1 ≡ position + 2 = omega arith in
    let e3 : position + 2 + 1 ≡ position + 3 = omega arith in
    let e4 : position + 3 + 1 ≡ position + 4 = omega arith in
    let e5 : position + 4 + 1 ≡ position + 5 = omega arith in
    let e6 : position + 5 + 1 ≡ position + 6 = omega arith in
    let e7 : position + 6 + 1 ≡ position + 7 = omega arith in
    let e8 : position + 7 + 1 ≡ position + 8 = omega arith in
    rw (e2, e3, e4, e5, e6, e7, e8, index_pixels-bits_of (position + 8) row_data) refl

-- The next position that is listed is not before this one.
abbrev StartsAt : ℕ → List ℕ → Type 0
StartsAt position [] = Unit
StartsAt position (i ∷ listed) = position ≤ i

StartsAt-weaken :
    (position : ℕ) (listed : List ℕ) → StartsAt (position + 1) listed → StartsAt position listed
StartsAt-weaken position [] h = tt
StartsAt-weaken position (i ∷ listed) h = omega arith

paint-later :
    (position count : ℕ) (listed : List ℕ)
    → StartsAt (position + 1) listed
    → paint position (suc count) listed ≡ false ∷ paint (position + 1) count listed
unfolding paint
paint-later position count [] h = refl
paint-later position count (i ∷ listed) h =
    let other : (i == position) ≡ false = ground arith in rw other refl

paint-here :
    (position i count : ℕ) (listed : List ℕ)
    → i ≡ position
    → paint position (suc count) (i ∷ listed) ≡ true ∷ paint (position + 1) count listed
unfolding paint
paint-here position i count listed e =
    let here : (i == position) ≡ true = ground arith in rw here refl

positions_of-index_of :
    (position : ℕ) (bits : List Bool)
    → position + length bits ≤ 65536
    → StartsAt position (positions_of (index_of position bits))
      × (paint position (length bits) (positions_of (index_of position bits)) ≡ bits)
unfolding positions_of paint index_of
positions_of-index_of position [] h = (tt, refl)
positions_of-index_of position (true ∷ bits) h =
    let (starts, painted) = positions_of-index_of (position + 1) bits (omega arith) in
    (
      omega arith,
      paint-here position (position / 256 * 256 + position % 256) (length bits)
            (positions_of (index_of (position + 1) bits)) (omega arith)
          ∙ ap (λ t. true ∷ t) painted,
    )
positions_of-index_of position (false ∷ bits) h =
    let (starts, painted) = positions_of-index_of (position + 1) bits (omega arith) in
    (
      StartsAt-weaken position (positions_of (index_of (position + 1) bits)) starts,
      paint-later position (length bits) (positions_of (index_of (position + 1) bits)) starts
          ∙ ap (λ t. false ∷ t) painted,
    )

pub length-map_black : (line : List ℕ) → length (map is_black line) ≡ length line
length-map_black [] = refl
length-map_black (x ∷ line) = omega (arith, length-map_black line)

-- A row of whole octets of pixels, at most 65535 of them, is the bits of its packed bytes, and the
-- index that is sent for a sparse row is just the positions of its black pixels, in ascending order
-- with two bytes each, from which the row is painted again.
pub packed_rows_readable :
    (line : List ℕ)
    → IsOctets line
    → length line ≤ 65535
    → (bits_of (pack_row_msb line) ≡ map is_black line)
      × (index_pixels 0 (pack_row_msb line) ≡ index_of 0 (map is_black line))
      × (paint 0 (length line) (positions_of (index_pixels 0 (pack_row_msb line)))
          ≡ map is_black line)
packed_rows_readable line eights short =
    let bits = bits_of-pack_row_msb eights in
    let index : index_pixels 0 (pack_row_msb line) ≡ index_of 0 (map is_black line) =
      index_pixels-bits_of 0 (pack_row_msb line) ∙ ap (index_of 0) bits in
    (
      bits,
      index,
      ap (λ t. paint 0 (length line) (positions_of t)) index
          ∙ ap (λ n. paint 0 n (positions_of (index_of 0 (map is_black line))))
              (sym (length-map_black line))
          ∙ (positions_of-index_of 0 (map is_black line) (omega (arith, length-map_black line))).1,
    )
