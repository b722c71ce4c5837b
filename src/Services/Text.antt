-- ===== src/Services/Text.antt =====
-- Python strings as the services use them: lengths and slices count characters.
use Prim.Native.Char.{code}
use Prim.Native.String.{String}
use catlabel.Prelude.{
  ℕ, zero, suc, Bool, true, List, [], ◌∷◌, ◌&&◌, ◌||◌, leb, ◌==◌, length, ◌≤◌, arith,
}

-- The code points of a text.
abbrev pub codes : String → List ℕ
codes String.[] = []
codes (String.◌∷◌ c s) = code c ∷ codes s

abbrev pub char_count : String → ℕ
char_count s = length (codes s)

-- `text[:count]`
unfoldable pub clip : ℕ → String → String
clip zero s = ""
clip (suc n) String.[] = ""
clip (suc n) (String.◌∷◌ c s) = String.◌∷◌ c (clip n s)

abbrev is_hex_digit : ℕ → Bool
is_hex_digit c = leb b'0' c && leb c b'9' || leb b'a' c && leb c b'f'

abbrev all_hex : List ℕ → Bool
all_hex [] = true
all_hex (c ∷ cs) = is_hex_digit c && all_hex cs

-- `re.compile(r"[0-9a-f]{64}\Z").fullmatch(value)`
unfoldable pub is_hash : String → Bool
is_hash s = char_count s == 64 && all_hex (codes s)

pub clip_length : (n : ℕ) (s : String) → char_count (clip n s) ≤ n
unfolding clip
clip_length zero s = omega arith
clip_length (suc n) String.[] = omega arith
clip_length (suc n) (String.◌∷◌ c s) = omega (arith, clip_length n s)
