-- ===== src/Protocol/Family.antt =====
-- catlabel/protocol/family.py: the printer families and their packet prefixes. `from_value` is the
-- identity on a member of the enumeration, and the model passes members only.
use catlabel.Prelude.{Bytes, length, ◌≤◌, ◌≡◌, arith, Result, ok, err, Option, none, some, [], ◌∷◌}

pub data ProtocolFamily : Type 0 where
  legacy legacy_prefixed luck_normal luck_normal_a4 v5g v5x v5c dck : ProtocolFamily
  eleph_hprt_esc eleph_tspl toprint_hprt_esc toprint_tspl : ProtocolFamily
  yk_astra_p1 instaprint_core funny_lx phomemo_esc : ProtocolFamily

-- The `ValueError`s of the protocol modules.
pub data ProtocolError : Type 0 where
  number_too_large no_packet_prefix width_not_byte_aligned unsupported_encoding byte_out_of_range
        division_by_zero :
      ProtocolError

unfoldable pub packet_prefix : ProtocolFamily → Option Bytes
packet_prefix legacy = some (0x51 ∷ 0x78 ∷ [])
packet_prefix legacy_prefixed = some (0x12 ∷ 0x51 ∷ 0x78 ∷ [])
packet_prefix v5g = some (0x51 ∷ 0x78 ∷ [])
packet_prefix v5x = some (0x22 ∷ 0x21 ∷ [])
packet_prefix v5c = some (0x56 ∷ 0x88 ∷ [])
packet_prefix dck = some (0x55 ∷ 0xAA ∷ [])
packet_prefix _ = none

unfoldable pub require_packet_prefix : ProtocolFamily → Result ProtocolError Bytes
unfolding packet_prefix
require_packet_prefix family = elim (packet_prefix family) [
  | none ↦ err no_packet_prefix
  | some prefix ↦ ok prefix
]

-- Every prefix in the table has two or three bytes.
pub packet_prefix-length :
    (family : ProtocolFamily) (prefix : Bytes)
    → packet_prefix family ≡ some prefix
    → (2 ≤ length prefix) × (length prefix ≤ 3)
unfolding packet_prefix
packet_prefix-length legacy prefix h = ground arith
packet_prefix-length family prefix h = ground arith
