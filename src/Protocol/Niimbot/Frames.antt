-- ===== src/Protocol/Niimbot/Frames.antt =====
-- The frames of catlabel/protocol/families/niimbot_core.py, read as rows of pixels.
pub mod Coverage
use catlabel.Prelude.{
  ℕ, zero, suc, ◌+◌, ◌-◌, ◌*◌, ◌/◌, ◌%◌, ◌≤◌, ◌<◌, min, bit_xor, ◌≡◌, refl, ap, sym, ◌∙◌, Bytes,
  List, [], ◌∷◌, ◌++◌, Bool, true, false, Option, none, some, length, map, concat, take, drop,
  get_or, replicate, arith, ◌==◌, ltb, leb, ◌&&◌, ◌||◌, if◌then◌else◌, not, Bool-cases, inl, inr,
  Result, ok, subst, append_assoc, append-nil, take-append_length, length-append, bytes_eq,
  bytes_eq_refl,
}
use catlabel.Protocol.Niimbot.{
  Fallible, frame, folded, u16be, index_pixels, count_pixels, counts_bytes, encode_rows,
  encode_row_run,
}
use catlabel.Protocol.Niimbot.Rows.{bits_of, paint, positions_of, index_of, index_pixels-bits_of}
use catlabel.Protocol.Niimbot.Recounts.{counts_of, counts_bytes-counts_of}

-- The content of a frame.
abbrev pub body_of : Bytes → Bytes
body_of packet = take (get_or packet 3 0) (drop 4 packet)

-- A row repeated from a row number on.
unfoldable pub numbered : ℕ → ℕ → List Bool → List (ℕ × List Bool)
numbered row zero bits = []
numbered row (suc count) bits = (row, bits) ∷ numbered (row + 1) count bits

-- The XOR of some bytes.
abbrev parity : ℕ → Bytes → ℕ
parity sum [] = sum
parity sum (value ∷ content) = parity (bit_xor sum value) content

-- A frame: its marks, its command, its length, its content and the checksum of these.
abbrev whole_frame : ℕ → Bytes → Bytes
whole_frame command content =
    0x55
    ∷ 0x55
    ∷ command
    ∷ length content
    ∷ (content ++ (parity command (length content ∷ content) % 256) ∷ 0xAA ∷ 0xAA ∷ [])

abbrev pub is_frame : Bytes → Bool
is_frame packet = bytes_eq packet (whole_frame (get_or packet 2 0) (body_of packet))

-- The counts of a content are those of a row.
abbrev pub has_counts : ℕ → Bytes → List Bool → Bool
has_counts width content bits = bytes_eq (take 3 (drop 2 content)) (counts_of width bits)

-- What a printer shows for a content: rows with their numbers, or nothing where the content has other
-- counts, an index that lists anything but the black pixels of the row, or a blank row's excess.
abbrev pub rows_in : ℕ → ℕ → Bytes → List (ℕ × List Bool)
rows_in width command content =
    let row = get_or content 0 0 * 256 + get_or content 1 0 in
    let index = drop 6 content in
    let sparse = paint 0 width (positions_of index) in
    let dense = bits_of index in
    if command == 0x84
    then if length content == 3
      then numbered row (get_or content 2 0) (replicate width false)
      else []
    else if command == 0x83
    then if has_counts width content sparse && bytes_eq index (index_of 0 sparse)
      then numbered row (get_or content 5 0) sparse
      else []
    else if has_counts width content dense
    then numbered row (get_or content 5 0) dense
    else []

abbrev pub rows_shown : ℕ → Bytes → List (ℕ × List Bool)
rows_shown width packet =
    if is_frame packet then rows_in width (get_or packet 2 0) (body_of packet) else []

folded-parity : (sum : ℕ) (content : Bytes) → folded sum content ≡ parity sum content
folded-parity sum [] = refl
folded-parity sum (value ∷ content) = folded-parity (bit_xor sum value) content

row_number : (row : ℕ) → row / 256 * 256 + row % 256 ≡ row
row_number row = omega arith

-- A frame that is not CONNECT has its command and its content where they are looked for.
frame-shown :
    (width command : ℕ) (content : Bytes)
    → command ≤ 255
    → (command == 0xC1) ≡ false
    → length content ≤ 255
    → (packet : Bytes) × (frame command content ≡ ok packet)
      × (rows_shown width packet ≡ rows_in width command content)
unfolding frame
frame-shown width command content small other short =
    let end : Bytes = folded (bit_xor command (length content)) content % 256 ∷ 0xAA ∷ 0xAA ∷ [] in
    let packet : Bytes = 0x55 ∷ 0x55 ∷ command ∷ length content ∷ (content ++ end) in
    let one_byte : ltb 255 command ≡ false = ground arith in
    let fits : ltb 255 (length content) ≡ false = ground arith in
    let body : body_of packet ≡ content = take-append_length content end in
    let whole : packet ≡ whole_frame command content =
      ap
        (λ sum.
          0x55 ∷ 0x55 ∷ command ∷ length content ∷ (content ++ (sum % 256) ∷ 0xAA ∷ 0xAA ∷ []))
        (folded-parity (bit_xor command (length content)) content) in
    let valid : bytes_eq packet (whole_frame command (body_of packet)) ≡ true =
      ap (λ c. bytes_eq packet (whole_frame command c)) body
      ∙ ap (bytes_eq packet) (sym whole)
      ∙ bytes_eq_refl packet in
    (
      packet,
      rw (one_byte, fits, other, frame) refl,
      ap (λ t. if t then rows_in width command (body_of packet) else []) valid
          ∙ ap (rows_in width command) body,
    )

-- The contents of a sparse and of a dense row are read as the row.
module _ (width row count a b c : ℕ) (bits : List Bool)
    (counts : a ∷ b ∷ c ∷ [] ≡ counts_of width bits) where
  recounted : bytes_eq (a ∷ b ∷ c ∷ []) (counts_of width bits) ≡ true
  recounted = ap (bytes_eq (a ∷ b ∷ c ∷ [])) (sym counts) ∙ bytes_eq_refl (a ∷ b ∷ c ∷ [])

  sparse-shown :
      (index : Bytes)
      → index ≡ index_of 0 bits
      → paint 0 width (positions_of index) ≡ bits
      → rows_in width 0x83 (row / 256 ∷ row % 256 ∷ a ∷ b ∷ c ∷ count ∷ index)
        ≡ numbered row count bits
  sparse-shown index exact painted =
      let listed : bytes_eq index (index_of 0 bits) ≡ true =
        ap (bytes_eq index) (sym exact) ∙ bytes_eq_refl index in
      ap
        (λ s.
          if bytes_eq (a ∷ b ∷ c ∷ []) (counts_of width s) && bytes_eq index (index_of 0 s)
          then numbered (row / 256 * 256 + row % 256) count s
          else [])
        painted
      ∙ ap
          (λ t.
            if t && bytes_eq index (index_of 0 bits)
            then numbered (row / 256 * 256 + row % 256) count bits
            else [])
          recounted
      ∙ ap (λ t. if t then numbered (row / 256 * 256 + row % 256) count bits else []) listed
      ∙ ap (λ r. numbered r count bits) (row_number row)

  dense-shown :
      (row_data : Bytes)
      → bits_of row_data ≡ bits
      → rows_in width 0x85 (row / 256 ∷ row % 256 ∷ a ∷ b ∷ c ∷ count ∷ row_data)
        ≡ numbered row count bits
  dense-shown row_data read =
      ap
        (λ s.
          if bytes_eq (a ∷ b ∷ c ∷ []) (counts_of width s)
          then numbered (row / 256 * 256 + row % 256) count s
          else [])
        read
      ∙ ap (λ t. if t then numbered (row / 256 * 256 + row % 256) count bits else []) recounted
      ∙ ap (λ r. numbered r count bits) (row_number row)

-- A row of pixels as the run keeps it: nothing for a blank row, or the packed bytes.
pub data Sendable (width black_count : ℕ) : Option Bytes → List Bool → Type 0 where
  blank : Sendable width black_count none (replicate width false)
  inked :
      (row_data : Bytes) (a b c : ℕ)
      → counts_bytes (count_pixels row_data width) ≡ ok (a ∷ b ∷ c ∷ [])
      → length row_data ≤ 249
      → (leb black_count 6 ≡ true → length (index_pixels 0 row_data) ≤ 249)
      → paint 0 width (positions_of (index_pixels 0 row_data)) ≡ bits_of row_data
      → Sendable width black_count (some row_data) (bits_of row_data)

encode_rows-shown :
    (width row count black_count : ℕ) (row_data : Option Bytes) (bits : List Bool)
    → Sendable width black_count row_data bits
    → (packet : Bytes) × (encode_rows row count black_count row_data width ≡ ok packet)
      × (rows_shown width packet ≡ numbered row count bits)
unfolding encode_rows
encode_rows-shown width row count black_count _ _ blank =
    let (packet, sent, shown) =
      frame-shown width 0x84 (u16be row ++ count ∷ []) (omega arith) refl (omega arith) in
    (packet, sent, shown ∙ ap (λ r. numbered r count (replicate width false)) (row_number row))
encode_rows-shown width row count black_count _ _
      (inked row_data a b c counted short sparse painted) =
    let counts = counts_bytes-counts_of row_data (a ∷ b ∷ c ∷ []) width counted in
    elim (Bool-cases (leb black_count 6)) [
      | inl e ↦
          let content : Bytes =
            row / 256 ∷ row % 256 ∷ a ∷ b ∷ c ∷ count ∷ index_pixels 0 row_data in
          let (packet, sent, shown) =
            frame-shown width 0x83 content (omega arith) refl (omega (arith, sparse e)) in
          (
            packet,
            rw (counted, e, encode_rows) sent,
            shown
                ∙ sparse-shown width row count a b c (bits_of row_data) counts
                    (index_pixels 0 row_data) (index_pixels-bits_of 0 row_data) painted,
          )
      | inr e ↦
          let content : Bytes = row / 256 ∷ row % 256 ∷ a ∷ b ∷ c ∷ count ∷ row_data in
          let (packet, sent, shown) =
            frame-shown width 0x85 content (omega arith) refl (omega arith) in
          (
            packet,
            rw (counted, e, encode_rows) sent,
            shown ∙ dense-shown width row count a b c (bits_of row_data) counts row_data refl,
          )
    ]

pub numbered-append :
    (row first more : ℕ) (bits : List Bool)
    → numbered row (first + more) bits ≡ numbered row first bits ++ numbered (row + first) more bits
unfolding numbered
numbered-append row zero more bits =
    let e : 0 + more ≡ more = omega arith in let f : row + 0 ≡ row = omega arith in rw (e, f) refl
numbered-append row (suc first) more bits =
    let e : suc first + more ≡ suc (first + more) = omega arith in
    let f : row + suc first ≡ row + 1 + first = omega arith in
    rw (e, f) (ap (λ t. (row, bits) ∷ t) (numbered-append (row + 1) first more bits))

pub encode_row_run-shown :
    (width fuel row left black_count : ℕ) (row_data : Option Bytes) (bits : List Bool)
    → left ≤ fuel
    → Sendable width black_count row_data bits
    → (frames : List Bytes) × (encode_row_run fuel row left black_count row_data width ≡ ok frames)
      × (concat (map (rows_shown width) frames) ≡ numbered row left bits)
unfolding encode_row_run numbered
encode_row_run-shown width fuel row zero black_count row_data bits h sendable =
    ([], empty fuel, refl)
  where
    empty : (rounds : ℕ) → encode_row_run rounds row 0 black_count row_data width ≡ ok []
    empty zero = refl
    empty (suc rounds) = refl
encode_row_run-shown width zero row (suc left) black_count row_data bits h sendable =
    absurd (omega arith)
encode_row_run-shown width (suc fuel) row (suc left) black_count row_data bits h sendable =
    let count = min 255 (suc left) in
    let (packet, sent, shown) =
      encode_rows-shown width row count black_count row_data bits sendable in
    let (frames, others, rest) =
      encode_row_run-shown width fuel (row + count) (suc left - count) black_count row_data bits
        (omega arith) sendable in
    let parts : count + (suc left - count) ≡ suc left = omega arith in
    (
      packet ∷ frames,
      rw (sent, others, encode_row_run) refl,
      rw (shown, rest)
          (sym (numbered-append row count (suc left - count) bits)
            ∙ ap (λ n. numbered row n bits) parts),
    )
