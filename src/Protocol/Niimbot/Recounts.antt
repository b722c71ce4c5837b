-- ===== src/Protocol/Niimbot/Recounts.antt =====
-- The counts of a row in catlabel/protocol/families/niimbot_core.py, against its pixels.
use catlabel.Prelude.{
  ℕ, suc, ◌+◌, ◌*◌, ◌/◌, ◌%◌, ◌≡◌, refl, sym, ◌∙◌, Bytes, List, [], ◌∷◌, Bool, length, arith, ◌==◌,
  ltb, leb, ◌&&◌, if◌then◌else◌, Bool-cases, inl, inr, ok, ok-injective, ◌||◌,
}
use catlabel.Protocol.Niimbot.{part_count, total_count, count_pixels, counts_bytes, has_bit}
use catlabel.Protocol.Niimbot.Rows.{bits_of}

-- The black pixels of a row, from a position on, that stand in a part of so many bytes.
unfoldable pub black_in : ℕ → ℕ → ℕ → List Bool → ℕ
black_in chunk_width chunk position [] = 0
black_in chunk_width chunk position (bit ∷ bits) =
    let rest = black_in chunk_width chunk (position + 1) bits in
    if position / 8 / chunk_width == chunk && bit then suc rest else rest

abbrev pub black_total : List Bool → ℕ
black_total [] = 0
black_total (bit ∷ bits) = let rest = black_total bits in if bit then suc rest else rest

-- The three counts of a row: of its thirds, where these hold the row, or none and the two bytes of the
-- whole count, the low one first.
unfoldable pub counts_of : ℕ → List Bool → Bytes
unfolding black_in
counts_of width bits =
    let third = width / 8 / 3 in
    let total = black_total bits in
    if ltb 0 third && leb (length bits) (24 * third)
    then black_in third 0 0 bits ∷ black_in third 1 0 bits ∷ black_in third 2 0 bits ∷ []
    else 0 ∷ (total % 256) ∷ (total / 256 % 256) ∷ []

length-bits_of : (row_data : Bytes) → length (bits_of row_data) ≡ 8 * length row_data
unfolding bits_of
length-bits_of [] = omega arith
length-bits_of (value ∷ row_data) = omega (arith, length-bits_of row_data)

counted :
    (value bit rest : ℕ) → (if has_bit value bit then suc rest else rest) ≡ value / bit % 2 + rest
counted value bit rest = ground arith

black_total-bits_of : (row_data : Bytes) → black_total (bits_of row_data) ≡ total_count row_data
unfolding bits_of
black_total-bits_of [] = refl
black_total-bits_of (value ∷ row_data) =
    rw
      (
        counted value 128,
        counted value 64,
        counted value 32,
        counted value 16,
        counted value 8,
        counted value 4,
        counted value 2,
        counted value 1,
      )
      (omega (arith, black_total-bits_of row_data))

within_byte :
    (index : ℕ)
    → (8 * index / 8 ≡ index)
      × ((8 * index + 1) / 8 ≡ index)
      × ((8 * index + 1 + 1) / 8 ≡ index)
      × ((8 * index + 1 + 1 + 1) / 8 ≡ index)
      × ((8 * index + 1 + 1 + 1 + 1) / 8 ≡ index)
      × ((8 * index + 1 + 1 + 1 + 1 + 1) / 8 ≡ index)
      × ((8 * index + 1 + 1 + 1 + 1 + 1 + 1) / 8 ≡ index)
      × ((8 * index + 1 + 1 + 1 + 1 + 1 + 1 + 1) / 8 ≡ index)
within_byte index = (
  omega arith,
  omega arith,
  omega arith,
  omega arith,
  omega arith,
  omega arith,
  omega arith,
  omega arith,
)

black_in-bits_of :
    (cw chunk index : ℕ) (row_data : Bytes)
    → black_in cw chunk (8 * index) (bits_of row_data) ≡ part_count cw chunk index row_data
unfolding black_in bits_of
black_in-bits_of cw chunk index [] = refl
black_in-bits_of cw chunk index (value ∷ row_data) =
    let (a, b, c, d, e, f, g, h) = within_byte index in
    let next : 8 * index + 1 + 1 + 1 + 1 + 1 + 1 + 1 + 1 ≡ 8 * (index + 1) = omega arith in
    let rest = black_in-bits_of cw chunk (index + 1) row_data in
    elim (Bool-cases (index / cw == chunk)) [
      | inl t ↦
          rw (a, b, c, d, e, f, g, h, next, t)
            (rw
              (
                counted value 128,
                counted value 64,
                counted value 32,
                counted value 16,
                counted value 8,
                counted value 4,
                counted value 2,
                counted value 1,
              )
              (omega (arith, rest)))
      | inr t ↦ rw (a, b, c, d, e, f, g, h, next, t) rest
    ]

abbrev pub listed : ℕ × ℕ × ℕ → Bytes
listed (a, b, c) = a ∷ b ∷ c ∷ []

pub listed-count_pixels :
    (row_data : Bytes) (width : ℕ)
    → listed (count_pixels row_data width) ≡ counts_of width (bits_of row_data)
unfolding count_pixels counts_of
listed-count_pixels row_data width =
    let third = width / 8 / 3 in
    let same : leb (length (bits_of row_data)) (24 * third) ≡ leb (length row_data) (third * 3) =
      ground (arith, length-bits_of row_data) in
    let part : (k : ℕ) → black_in third k 0 (bits_of row_data) ≡ part_count third k 0 row_data =
      λ k. black_in-bits_of third k 0 row_data in
    let total = black_total-bits_of row_data in
    elim (Bool-cases (ltb 0 third && leb (length row_data) (third * 3))) [
      | inl e ↦ rw (same, e, count_pixels, counts_of) (rw (part 0, part 1, part 2) refl)
      | inr e ↦ rw (same, e, count_pixels, counts_of) (rw total refl)
    ]

-- The counts that are sent are those of the row's pixels.
pub counts_bytes-counts_of :
    (row_data counts : Bytes) (width : ℕ)
    → counts_bytes (count_pixels row_data width) ≡ ok counts
    → counts ≡ counts_of width (bits_of row_data)
counts_bytes-counts_of row_data counts width h =
    sent (count_pixels row_data width) h ∙ listed-count_pixels row_data width
  where
    sent : (three : ℕ × ℕ × ℕ) → counts_bytes three ≡ ok counts → counts ≡ listed three
    sent (a, b, c) e = elim (Bool-cases (ltb 255 a || ltb 255 b || ltb 255 c)) [
      | inl f ↦ cc (rw f at e)
      | inr f ↦ sym (ok-injective (rw f at e))
    ]
