-- ===== src/Protocol/Packet/Splitting.antt =====
-- `split_prefixed_packets` of catlabel/protocol/packet.py on any stream, well formed or not.
use catlabel.Prelude.{
  ℕ, zero, suc, ◌+◌, ◌≤◌, ◌<◌, ◌≡◌, refl, ap, sym, ◌∙◌, Bytes, List, [], ◌∷◌, Option, none, some,
  length, drop, slice, ltb, arith, All, concat, length-take, length-drop, drop-drop, take-take_le,
  get_or-take, get_or-drop, take-append-drop, Option-cases, subst, Bool-cases, inl, inr, ltb→lt,
  lt→ltb, drop-length,
}
use catlabel.Prelude.Option
use catlabel.Protocol.Family.{ProtocolFamily, packet_prefix}
use catlabel.Protocol.Packet.{
  packet_length_at, prefixed_packet_length, split_loop, split_prefixed_packets, keep_packet,
}
use catlabel.Protocol.Packet.Framing.{split_loop_more, split_loop_end}

-- A measured packet lies within the stream and has six bytes at least.
packet_length_at_bounds :
    (stream : Bytes) (offset : ℕ) (prefix : Bytes) (count : ℕ)
    → packet_length_at stream offset prefix ≡ some count
    → (6 ≤ count) × (length prefix + 6 ≤ count) × (offset + count ≤ length stream)
packet_length_at_bounds stream offset prefix count h = ground arith

-- A measured packet, cut out of the stream, measures the same.
packet_length_at-slice :
    (stream : Bytes) (offset : ℕ) (prefix : Bytes) (count : ℕ)
    → packet_length_at stream offset prefix ≡ some count
    → packet_length_at (slice offset count stream) 0 prefix ≡ some count
packet_length_at-slice stream offset prefix count h =
    let bounds = packet_length_at_bounds stream offset prefix count h in
    let tail = drop offset stream in
    ground (
      arith,
      length-take count tail,
      length-drop offset stream,
      take-take_le (length prefix) count tail (omega arith),
      get_or-take count (0 + length prefix + 2) tail 0 (omega arith),
      get_or-take count (0 + length prefix + 2 + 1) tail 0 (omega arith),
      get_or-drop offset (0 + length prefix + 2) stream 0,
      get_or-drop offset (0 + length prefix + 2 + 1) stream 0,
    )

keep_packet-eq_some :
    (packet : Bytes) (found : Option (Option (List Bytes))) (packets : List Bytes)
    → keep_packet packet found ≡ some (some packets)
    → (others : List Bytes) × (found ≡ some (some others)) × (packet ∷ others ≡ packets)
keep_packet-eq_some packet none packets e = cc
keep_packet-eq_some packet (some none) packets e = cc
keep_packet-eq_some packet (some (some others)) packets e = (others, refl, cc)

-- One complete packet of the family, and nothing else.
abbrev pub IsPacket : ProtocolFamily → Bytes → Type 0
IsPacket family packet = prefixed_packet_length packet 0 family ≡ some (length packet)

module _ (stream : Bytes) (family : ProtocolFamily) where
  measured :
      (offset count : ℕ)
      → prefixed_packet_length stream offset family ≡ some count
      → (6 ≤ count) × (offset + count ≤ length stream) × IsPacket family (slice offset count stream)
  unfolding prefixed_packet_length
  measured offset count h = elim (Option-cases (packet_prefix family)) [
    | inl e ↦ cc (rw e at h)
    | inr (prefix, e) ↦
        let found = rw e at h in
        let bounds = packet_length_at_bounds stream offset prefix count found in
        (
          bounds.0,
          bounds.2,
          rw e (
              packet_length_at-slice stream offset prefix count found
              ∙ ap some (length-slice bounds.2)),
        )
  ]
    where
      length-slice : offset + count ≤ length stream → count ≡ length (slice offset count stream)
      length-slice h =
          omega (arith, length-take count (drop offset stream), length-drop offset stream)

  split_loop_starved :
      (offset : ℕ) → offset < length stream → split_loop 0 stream offset family ≡ none
  unfolding split_loop
  split_loop_starved offset more = ground arith

  split_loop_stuck :
      (fuel offset : ℕ)
      → offset < length stream
      → prefixed_packet_length stream offset family ≡ none
      → split_loop (suc fuel) stream offset family ≡ some none
  unfolding split_loop
  split_loop_stuck fuel offset more bad = rw (lt→ltb offset (length stream) more, bad)

  -- `packets` splits what stands in the stream from an offset on.
  Splits : ℕ → List Bytes → Type 0
  Splits offset packets = (concat packets ≡ drop offset stream) × All (IsPacket family) packets

  Splits-cons :
      (offset count : ℕ) (packets : List Bytes)
      → prefixed_packet_length stream offset family ≡ some count
      → Splits (offset + count) packets
      → Splits offset (slice offset count stream ∷ packets)
  unfolding Splits
  Splits-cons offset count packets e h = (
    rw (h.0, ← drop-drop offset count stream) (take-append-drop count (drop offset stream)),
    ((measured offset count e).2, h.1),
  )

  Splits-end : (offset : ℕ) → length stream ≤ offset → Splits offset []
  unfolding Splits
  Splits-end offset h = (sym (drop-length offset stream h), tt)

  Splits-last :
      (offset : ℕ) (packets : List Bytes)
      → length stream ≤ offset
      → some (some []) ≡ some (some packets)
      → Splits offset packets
  Splits-last offset packets h e = let last : [] ≡ packets = cc in rw last at (Splits-end offset h)

  split_loop_sound :
      (fuel offset : ℕ) (packets : List Bytes)
      → split_loop fuel stream offset family ≡ some (some packets)
      → Splits offset packets
  split_loop_sound zero offset packets e = elim (Bool-cases (ltb offset (length stream))) [
    | inl more ↦ cc (split_loop_starved offset (ltb→lt _ _ more))
    | inr done ↦
        Splits-last offset packets (ground arith)
          (sym (split_loop_end 0 stream offset family (ground arith)) ∙ e)
  ]
  split_loop_sound (suc fuel) offset packets e = elim (Bool-cases (ltb offset (length stream))) [
    | inl more ↦ elim (Option-cases (prefixed_packet_length stream offset family)) [
      | inl bad ↦ cc (split_loop_stuck fuel offset (ltb→lt _ _ more) bad)
      | inr (count, good) ↦
          let step = split_loop_more fuel stream offset count family (ltb→lt _ _ more) good in
          let (others, found, whole) =
            keep_packet-eq_some (slice offset count stream)
              (split_loop fuel stream (offset + count) family) packets (sym step ∙ e) in
          subst (Splits offset) whole (
            Splits-cons offset count others good
              (split_loop_sound fuel (offset + count) others found))
    ]
    | inr done ↦
        Splits-last offset packets (ground arith)
          (sym (split_loop_end (suc fuel) stream offset family (ground arith)) ∙ e)
  ]

  split_loop_total :
      (fuel offset : ℕ)
      → length stream ≤ offset + fuel
      → (found : Option (List Bytes)) × (split_loop fuel stream offset family ≡ some found)
  split_loop_total zero offset h = (some [], split_loop_end 0 stream offset family (omega arith))
  split_loop_total (suc fuel) offset h = elim (Bool-cases (ltb offset (length stream))) [
    | inl more ↦ elim (Option-cases (prefixed_packet_length stream offset family)) [
      | inl bad ↦ (none, split_loop_stuck fuel offset (ltb→lt _ _ more) bad)
      | inr (count, good) ↦
          let (found, e) =
            split_loop_total fuel (offset + count)
              (omega (arith, (measured offset count good).0)) in
          (
            Option.map (λ packets. slice offset count stream ∷ packets) found,
            split_loop_more fuel stream offset count family (ltb→lt _ _ more) good
                ∙ ap (keep_packet (slice offset count stream)) e,
          )
    ]
    | inr done ↦ (some [], split_loop_end (suc fuel) stream offset family (ground arith))
  ]

-- `split_prefixed_packets` ends on every stream, and its answer is exact: it returns a list only
-- if the stream is the concatenation of that list, and then each member is one complete packet.
pub split_prefixed_packets_sound :
    (stream : Bytes) (family : ProtocolFamily)
    → (found : Option (List Bytes)) × (split_prefixed_packets stream family ≡ some found)
      × ((packets : List Bytes)
          → found ≡ some packets
          → (concat packets ≡ stream) × All (IsPacket family) packets)
unfolding split_prefixed_packets Splits
split_prefixed_packets_sound stream family =
    let (found, e) = split_loop_total stream family (length stream) 0 (omega arith) in
    (
      found,
      e,
      λ packets h. split_loop_sound stream family (length stream) 0 packets (e ∙ ap some h),
    )
