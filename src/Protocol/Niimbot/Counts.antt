-- ===== src/Protocol/Niimbot/Counts.antt =====
-- The sizes and counts of a row in catlabel/protocol/families/niimbot_core.py.
use native.Mathlib.Nat.{mul-div-le, lt-div-mul-add}
use catlabel.Prelude.{
  ℕ, ◌+◌, ◌-◌, ◌*◌, ◌/◌, ◌%◌, ◌≤◌, ◌<◌, max, ◌≡◌, refl, ap, ◌∙◌, Bytes, List, [], ◌∷◌, Bool, true,
  false, length, map, arith, ◌==◌, ==_iff, ltb, leb, ◌&&◌, ◌||◌, if◌then◌else◌, Bool-cases, inl,
  inr, ok, subst,
}
use catlabel.Protocol.Niimbot.{
  pack_row_msb, index_pixels, is_black, bit_count, part_count, total_count, count_pixels,
  counts_bytes, count_black,
}
use catlabel.Protocol.Niimbot.Rows.{
  IsOctets, no_octets, octet_more, index_of, index_pixels-bits_of, bits_of-pack_row_msb,
}

bit_count_le : (value : ℕ) → bit_count value ≤ 8
bit_count_le value = omega arith

-- A byte counts in a part only if it stands within its range.
within :
    (cw chunk index : ℕ)
    → 1 ≤ cw
    → index / cw ≡ chunk
    → (chunk * cw ≤ index) × (index < chunk * cw + cw)
within cw chunk index h e =
    let below : cw * (index / cw) ≤ index = mul-div-le index cw in
    let above : index < index / cw * cw + cw = lt-div-mul-add h in
    (subst (λ c. c * cw ≤ index) e (omega (arith, below)), subst (λ c. index < c * cw + cw) e above)

part_count_le :
    (cw chunk index : ℕ) (row_data : Bytes)
    → 1 ≤ cw
    → part_count cw chunk index row_data ≤ 8 * (chunk * cw + cw - max index (chunk * cw))
part_count_le cw chunk index [] h = omega arith
part_count_le cw chunk index (value ∷ row_data) h =
    let rest = part_count_le cw chunk (index + 1) row_data h in
    let eight = bit_count_le value in
    elim (Bool-cases (index / cw == chunk)) [
      | inl e ↦
          let (low, high) = within cw chunk index h ((==_iff (index / cw) chunk).0 e) in
          rw e (omega (arith, rest, eight, low, high))
      | inr e ↦ rw e (omega (arith, rest))
    ]

total-mod : (n : ℕ) → (n % 256 ≤ 255) × (n / 256 % 256 ≤ 255)
total-mod n = (omega arith, omega arith)

-- The three counts of a row narrower than 768 pixels are bytes.
pub counts_bytes-ok :
    (row_data : Bytes) (width : ℕ)
    → width < 768
    → (a : ℕ) × (b : ℕ) × (c : ℕ) × (counts_bytes (count_pixels row_data width)
        ≡ ok (a ∷ b ∷ c ∷ []))
unfolding count_pixels
counts_bytes-ok row_data width h =
    by_test (ltb 0 (width / 8 / 3) && leb (length row_data) (width / 8 / 3 * 3)) (λ e. ground arith)
  where
    fits : (a b c : ℕ) → a ≤ 255 → b ≤ 255 → c ≤ 255 → counts_bytes (a, b, c) ≡ ok (a ∷ b ∷ c ∷ [])
    fits a b c x y z =
        let none_above : (ltb 255 a || ltb 255 b || ltb 255 c) ≡ false = ground arith in
        rw none_above refl

    by_test :
        (parted : Bool)
        → (parted ≡ true → 1 ≤ width / 8 / 3)
        → (a : ℕ) × (b : ℕ) × (c : ℕ) × (counts_bytes (
              if◌then◌else◌ {A = ℕ × ℕ × ℕ} parted
                (
                  part_count (width / 8 / 3) 0 0 row_data,
                  part_count (width / 8 / 3) 1 0 row_data,
                  part_count (width / 8 / 3) 2 0 row_data,
                )
                (0, total_count row_data % 256, total_count row_data / 256 % 256))
            ≡ ok (a ∷ b ∷ c ∷ []))
    by_test false some_width =
        let (x, y) = total-mod (total_count row_data) in
        (
          0,
          total_count row_data % 256,
          total_count row_data / 256 % 256,
          fits _ _ _ (omega arith) x y,
        )
    by_test true some_width =
        let cw = width / 8 / 3 in
        let positive = some_width refl in
        (
          part_count cw 0 0 row_data,
          part_count cw 1 0 row_data,
          part_count cw 2 0 row_data,
          fits _ _ _ (omega (arith, part_count_le cw 0 0 row_data positive))
              (omega (arith, part_count_le cw 1 0 row_data positive))
              (omega (arith, part_count_le cw 2 0 row_data positive)),
        )

length-index_of :
    (position : ℕ) (line : List ℕ)
    → length (index_of position (map is_black line)) ≡ 2 * count_black line
unfolding index_of
length-index_of position [] = omega arith
length-index_of position (pixel ∷ line) = ground (arith, length-index_of (position + 1) line)

-- The index has two bytes for each black pixel.
pub length-index_pixels :
    {line : List ℕ}
    → IsOctets line
    → length (index_pixels 0 (pack_row_msb line)) ≡ 2 * count_black line
length-index_pixels {line} eights =
    ap length
      (index_pixels-bits_of 0 (pack_row_msb line) ∙ ap (index_of 0) (bits_of-pack_row_msb eights))
    ∙ length-index_of 0 line

pub length-pack_row_msb :
    {line : List ℕ} → IsOctets line → 8 * length (pack_row_msb line) ≡ length line
unfolding pack_row_msb
length-pack_row_msb no_octets = omega arith
length-pack_row_msb (octet_more rest) = omega (arith, length-pack_row_msb rest)
