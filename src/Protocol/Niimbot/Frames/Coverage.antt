-- ===== src/Protocol/Niimbot/Frames/Coverage.antt =====
-- `encode_d_rows` of catlabel/protocol/families/niimbot_core.py over a whole raster.
use catlabel.Prelude.{
  ℕ, suc, ◌+◌, ◌≡◌, Bytes, List, [], ◌∷◌, Bool, false, Option, none, some, length, replicate,
}
use catlabel.Protocol.Niimbot.{RowRun}
use catlabel.Protocol.Niimbot.Rows.{IsOctets, bits_of}
use catlabel.Protocol.Niimbot.Frames.{numbered, Sendable}

-- The pixels that a row's data stand for.
abbrev bits_from : ℕ → Option Bytes → List Bool
bits_from width none = replicate width false
bits_from width (some row_data) = bits_of row_data

-- The rows of a raster, numbered.
unfoldable pub all_numbered : ℕ → List (List Bool) → List (ℕ × List Bool)
all_numbered row [] = []
all_numbered row (bits ∷ rows) = (row, bits) ∷ all_numbered (row + 1) rows

-- What a run will show before a row: nothing yet, or the rows since its start.
data RunShows (width row : ℕ) : RowRun → List (ℕ × List Bool) → Type 0 where
  starting :
      (start black_count : ℕ) (row_data : Option Bytes)
      → RunShows width row
          (record {
            run_start = start;
            run_repeat = 0;
            run_black_count = black_count;
            run_data = row_data;
          })
          []
  going :
      (start repeat black_count : ℕ) (row_data : Option Bytes) (bits : List Bool)
      → start + suc repeat ≡ row
      → Sendable width black_count row_data bits
      → RunShows width row
          (record {
            run_start = start;
            run_repeat = suc repeat;
            run_black_count = black_count;
            run_data = row_data;
          })
          (numbered start (suc repeat) bits)

-- A line that can be sent.
abbrev IsLine : ℕ → List ℕ → Type 0
IsLine width line = IsOctets line × (length line ≡ width)
