-- ===== src/Protocol/Commands.antt =====
-- catlabel/protocol/commands.py: the commands that are one packet. Levels, energies, speeds and
-- dots are never negative in the model.
pub mod Numbers
use Prim.Native.Nat.{max, min}
use catlabel.Prelude.{
  ℕ, ◌+◌, ◌/◌, ◌%◌, Bytes, [], ◌∷◌, Bool, true, false, Result, ok, err, ◌>>=◌, ltb, ◌==◌,
  if◌then◌else◌,
}
use catlabel.Protocol.Family.{ProtocolFamily, ProtocolError, number_too_large}
use catlabel.Protocol.Packet.{make_packet}

-- `value.to_bytes(2, "little", signed=False)`, which raises on 65536 and more.
abbrev pub two_bytes : ℕ → Result ProtocolError Bytes
two_bytes value =
    if ltb value 65536 then ok ((value % 256) ∷ (value / 256) ∷ []) else err number_too_large

unfoldable pub paper_payload : ℕ → Bytes
paper_payload dpi = if dpi == 300 then 0x48 ∷ 0x00 ∷ [] else 0x30 ∷ 0x00 ∷ []

module _ (crc8_value : Bytes → ℕ) (family : ProtocolFamily) where
  unfoldable pub blackening_cmd : ℕ → Result ProtocolError Bytes
  unfolding make_packet
  blackening_cmd level = make_packet crc8_value 0xA4 ((0x30 + max 1 (min 5 level)) ∷ []) family

  unfoldable pub energy_cmd : ℕ → Result ProtocolError Bytes
  energy_cmd energy =
      if energy == 0
      then ok []
      else do payload ← two_bytes energy; make_packet crc8_value 0xAF payload family

  unfoldable pub print_mode_cmd : Bool → Result ProtocolError Bytes
  unfolding make_packet
  print_mode_cmd is_text = make_packet crc8_value 0xBE ((if is_text then 1 else 0) ∷ []) family

  unfoldable pub motor_speed_cmd : ℕ → Result ProtocolError Bytes
  unfolding make_packet
  motor_speed_cmd speed = make_packet crc8_value 0xBD ((speed % 256) ∷ []) family

  unfoldable pub feed_cmd : ℕ → Result ProtocolError Bytes
  feed_cmd dots =
      if dots == 0
      then ok []
      else do payload ← two_bytes dots; make_packet crc8_value 0xA1 payload family

  unfoldable pub feed_paper_cmd : ℕ → Result ProtocolError Bytes
  unfolding motor_speed_cmd
  feed_paper_cmd speed = motor_speed_cmd speed

  unfoldable pub paper_cmd : ℕ → Result ProtocolError Bytes
  unfolding make_packet paper_payload
  paper_cmd dpi = make_packet crc8_value 0xA1 (paper_payload dpi) family

  unfoldable pub dev_state_cmd : Result ProtocolError Bytes
  unfolding make_packet
  dev_state_cmd = make_packet crc8_value 0xA3 (0x00 ∷ []) family
