-- ===== src/Protocol/Packet/Fields.antt =====
-- The two length bytes of catlabel/protocol/packet.py, read and written.
use catlabel.Prelude.{ℕ, ◌+◌, ◌*◌, ◌/◌, ◌%◌, ◌^◌, ◌<◌, ◌≡◌, ◌∙◌, Bytes, get_or, bit_or, arith}
use catlabel.Prelude.Bits.{bit_or_low_high}

-- `data[at] | (data[at + 1] << 8)`
abbrev pub length_field : Bytes → ℕ → ℕ
length_field stream at = bit_or (get_or stream at 0) (get_or stream (at + 1) 0 * 2 ^ 8)

pub length_field-bytes : (n : ℕ) → n < 65536 → bit_or (n % 256) (n / 256 % 256 * 2 ^ 8) ≡ n
length_field-bytes n h = bit_or_low_high 8 (n / 256 % 256) (n % 256) (omega arith) ∙ omega arith
