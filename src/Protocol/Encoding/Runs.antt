-- ===== src/Protocol/Encoding/Runs.antt =====
-- The run lengths of catlabel/protocol/encoding.py, `encode_run` and `rle_encode_line`, expanded.
use catlabel.Prelude.{
  ℕ, zero, suc, ◌+◌, ◌-◌, ◌*◌, ◌/◌, ◌%◌, ◌^◌, ◌≤◌, ◌<◌, ◌≡◌, refl, ap, sym, ◌∙◌, Bytes, List, [],
  ◌∷◌, ◌++◌, Bool, true, false, replicate, arith, Bool-cases, inl, inr, append_assoc, append-nil,
  ltb, ◌==◌, not, bit_or, if◌then◌else◌,
}
use catlabel.Prelude.Bits.{bit_or_high_low}
use catlabel.Protocol.Encoding.{run_loop, encode_run, last_runs, rle_loop, rle_encode_line}

-- A printer's view of the runs: the colour in the high bit, the count below it.
abbrev pub expand : Bytes → List ℕ
expand [] = []
expand (b ∷ runs) = replicate (b % 128) (b / 128) ++ expand runs

expand-append : (xs ys : Bytes) → expand (xs ++ ys) ≡ expand xs ++ expand ys
expand-append [] ys = refl
expand-append (x ∷ xs) ys =
    rw (expand-append xs ys)
      (sym (append_assoc (replicate (x % 128) (x / 128)) (expand xs) (expand ys)))

replicate_add : (m n color : ℕ) → replicate m color ++ replicate n color ≡ replicate (m + n) color
replicate_add zero n color = ap (λ k. replicate k color) (omega arith)
replicate_add (suc m) n color =
    let total : suc (m + n) ≡ suc m + n = omega arith in
    ap (λ line. color ∷ line) (replicate_add m n color) ∙ ap (λ k. replicate k color) total

expand-run :
    (color count : ℕ) (rest : Bytes)
    → count < 128
    → expand (bit_or (color * 2 ^ 7) count ∷ rest) ≡ replicate count color ++ expand rest
expand-run color count rest h =
    let joined = bit_or_high_low 7 color count h in
    let low : bit_or (color * 2 ^ 7) count % 128 ≡ count = omega (arith, joined) in
    let high : bit_or (color * 2 ^ 7) count / 128 ≡ color = omega (arith, joined) in
    ap (λ n. replicate n (bit_or (color * 2 ^ 7) count / 128) ++ expand rest) low
    ∙ ap (λ c. replicate count c ++ expand rest) high

expand-run_loop :
    (fuel color count : ℕ)
    → count ≤ fuel
    → expand (run_loop fuel color count) ≡ replicate count color
unfolding run_loop
expand-run_loop zero color zero h = refl
expand-run_loop zero color (suc count) h = absurd (omega arith)
expand-run_loop (suc fuel) color count h = elim (Bool-cases (ltb 127 count)) [
  | inl long ↦
      let left : 127 + (count - 127) ≡ count = ground arith in
      rw long (
        expand-run color 127 (run_loop fuel color (count - 127)) (omega arith)
        ∙ ap (λ line. replicate 127 color ++ line)
            (expand-run_loop fuel color (count - 127) (omega arith))
        ∙ replicate_add 127 (count - 127) color
        ∙ ap (λ n. replicate n color) left)
  | inr short ↦ elim (Bool-cases (ltb 0 count)) [
    | inl some_left ↦
        rw (short, some_left)
          (expand-run color count [] (ground arith) ∙ append-nil (replicate count color))
    | inr none_left ↦
        let nothing : 0 ≡ count = ground arith in
        rw (short, none_left) (ap (λ n. replicate n color) nothing)
  ]
]

expand-encode_run : (color count : ℕ) → expand (encode_run color count) ≡ replicate count color
unfolding encode_run
expand-encode_run color count = expand-run_loop count color count (omega arith)

-- The loop's state: as long as all pixels were white, no run is written.
abbrev IsReady : Bool → ℕ → Bytes → Type 0
IsReady has_black prev runs = has_black ≡ false → (prev ≡ 0) × (runs ≡ [])

expand-last_runs :
    (closed run : Bytes) (line : List ℕ)
    → expand closed ≡ line ++ expand run
    → expand (last_runs closed run) ≡ line ++ expand run
expand-last_runs [] run [] h = refl
expand-last_runs [] run (x ∷ line) h = cc
expand-last_runs (b ∷ bs) run line h = h

rle_loop_end :
    (prev count : ℕ) (has_black : Bool) (runs : Bytes)
    → IsReady has_black prev runs
    → expand (rle_loop [] prev count has_black runs) ≡ expand runs ++ replicate count prev
unfolding rle_loop
rle_loop_end prev count true runs h =
    let run = encode_run prev count in
    expand-last_runs (runs ++ run) run (expand runs) (expand-append runs run)
    ∙ ap (λ line. expand runs ++ line) (expand-encode_run prev count)
rle_loop_end prev count false runs h = rw (h refl).1 (expand-encode_run prev count)

-- Whether a black pixel was met, behind one more pixel.
abbrev with_pixel : ℕ → Bool → Bool
with_pixel pix has_black = if not (pix == 0) then true else has_black

still_white : (pix : ℕ) (has_black : Bool) → with_pixel pix has_black ≡ false → has_black ≡ false
still_white pix has_black h = ground arith

-- A pixel that is not the colour of a run of white pixels is black.
IsReady-turned :
    (pix prev : ℕ) (has_black : Bool) (runs next : Bytes)
    → IsReady has_black prev runs
    → (pix == prev) ≡ false
    → IsReady (with_pixel pix has_black) pix next
IsReady-turned pix prev has_black runs next h e white =
    let (prev_white, nothing) = h (still_white pix has_black white) in absurd (ground arith)

replicate-cons :
    (count prev : ℕ) (line : List ℕ)
    → replicate (count + 1) prev ++ line ≡ replicate count prev ++ prev ∷ line
replicate-cons count prev line =
    ap (λ run. run ++ line) (sym (replicate_add count 1 prev))
    ∙ append_assoc (replicate count prev) (prev ∷ []) line

expand-rle_loop :
    (line : List ℕ) (prev count : ℕ) (has_black : Bool) (runs : Bytes)
    → IsReady has_black prev runs
    → expand (rle_loop line prev count has_black runs)
      ≡ expand runs ++ (replicate count prev ++ line)
unfolding rle_loop
expand-rle_loop [] prev count has_black runs h =
    rle_loop_end prev count has_black runs h
    ∙ ap (λ line. expand runs ++ line) (sym (append-nil (replicate count prev)))
expand-rle_loop (pix ∷ line) prev count has_black runs h = elim (Bool-cases (pix == prev)) [
  | inl same ↦
      let equal : prev ≡ pix = ground arith in
      rw same (
        expand-rle_loop line prev (count + 1) (with_pixel pix has_black) runs
          (λ white. h (still_white pix has_black white))
        ∙ ap (λ rest. expand runs ++ rest)
            (replicate-cons count prev line ∙ ap (λ p. replicate count prev ++ p ∷ line) equal))
  | inr turned ↦
      let run = encode_run prev count in
      rw turned (
        expand-rle_loop line pix 1 (with_pixel pix has_black) (runs ++ run)
          (IsReady-turned pix prev has_black runs (runs ++ run) h turned)
        ∙ ap (λ front. front ++ pix ∷ line)
            (expand-append runs run
              ∙ ap (λ rest. expand runs ++ rest) (expand-encode_run prev count))
        ∙ append_assoc (expand runs) (replicate count prev) (pix ∷ line))
]

first-IsReady : (first : ℕ) → IsReady (not (first == 0)) first []
first-IsReady first white = (ground arith, refl)

-- The runs that `rle_encode_line` writes, expanded by their counts, are the line, whatever its
-- pixels: neither a run longer than 127 nor a line without black pixels is lost.
pub expand-rle_encode_line : (line : List ℕ) → expand (rle_encode_line line) ≡ line
unfolding rle_encode_line
expand-rle_encode_line [] = refl
expand-rle_encode_line (first ∷ line) =
    expand-rle_loop line first 1 (not (first == 0)) [] (first-IsReady first)
