-- ===== src/Protocol/Replies.antt =====
-- catlabel/protocol/families/phomemo_replies.py: the decoder of replies and its two dialects. The
-- loop is over what the buffer holds from the cursor on.
pub mod Rounds
pub mod Chunks
pub mod Frames
use catlabel.Prelude.{
  ℕ, zero, suc, ◌+◌, ◌==◌, ltb, Bytes, List, [], ◌∷◌, ◌++◌, Bool, true, false, ◌||◌, not, Option,
  none, some, length, take, drop, map, if◌then◌else◌,
}
use catlabel.Prelude.Option

pub record DecodedReply : Type 0 where
  pub frame : Bytes
  pub start_offset : ℕ

-- The class variables that a dialect sets.
pub record Dialect : Type 0 where
  pub sizes : ℕ → Option ℕ
  pub prefixes : List ℕ
  pub allow_bare : Bool

-- `_ReplyDecoder`
pub record ReplyDecoder : Type 0 where
  pub pending : Bytes
  pub pending_offset : ℕ
  pub received_byte_count : ℕ

abbrev pub new_reply_decoder : ReplyDecoder
new_reply_decoder = record { pending = []; pending_offset = 0; received_byte_count = 0 }

unfoldable pub has_pending_frame : ReplyDecoder → Bool
has_pending_frame decoder = not (length decoder.pending == 0)

abbrev pub is_member : ℕ → List ℕ → Bool
is_member b [] = false
is_member b (p ∷ prefixes) = b == p || is_member b prefixes

-- What a round does: it breaks, discards that many bytes, or takes a frame of a size behind a
-- prefix.
pub data Reading : Type 0 where
  incomplete : Reading
  discard : ℕ → Reading
  known : ℕ → ℕ → Reading

abbrev pub by_size : ℕ → ℕ → Option ℕ → Reading
by_size prefix_length available none = discard (prefix_length + 1)
by_size prefix_length available (some frame_size) =
    if ltb available (prefix_length + frame_size)
    then incomplete
    else known prefix_length frame_size

-- What follows a prefix.
abbrev pub behind_prefix : Dialect → Bytes → Reading
behind_prefix d [] = incomplete
behind_prefix d (opcode ∷ more) = by_size 1 (suc (length (opcode ∷ more))) (d.sizes opcode)

-- A round at a byte with what follows it.
unfoldable pub examine_reply : Dialect → ℕ → Bytes → Reading
examine_reply d first rest =
    if is_member first d.prefixes
    then behind_prefix d rest
    else if d.allow_bare
    then by_size 0 (length (first ∷ rest)) (d.sizes first)
    else discard 1

-- The loop, from an absolute offset on, to the replies, the offset where it ends and what is left.
unfoldable pub decode_loop : Dialect → ℕ → ℕ → Bytes → Option (List DecodedReply × ℕ × Bytes)
unfolding examine_reply
decode_loop d fuel offset [] = some ([], offset, [])
decode_loop d zero offset (b ∷ rest) = none
decode_loop d (suc fuel) offset (b ∷ rest) = elim (examine_reply d b rest) [
  | incomplete ↦ some ([], offset, b ∷ rest)
  | discard n ↦ decode_loop d fuel (offset + n) (drop n (b ∷ rest))
  | known prefix_length frame_size ↦
      Option.map
        (λ (replies, last, left). (
          record { frame = take frame_size (drop prefix_length (b ∷ rest)); start_offset = offset }
              ∷ replies,
          last,
          left,
        ))
        (decode_loop d fuel (offset + (prefix_length + frame_size))
          (drop (prefix_length + frame_size) (b ∷ rest)))
]

unfoldable pub feed_with_offsets :
    Dialect → Bytes → ReplyDecoder → Option (List DecodedReply × ReplyDecoder)
unfolding decode_loop
feed_with_offsets d payload decoder =
    let buffer = decoder.pending ++ payload in
    Option.map
      (λ (replies, last, left). (
        replies,
        record {
          pending = left;
          pending_offset = last;
          received_byte_count = decoder.received_byte_count + length payload;
        },
      ))
      (decode_loop d (length buffer) decoder.pending_offset buffer)

unfoldable pub feed_replies : Dialect → Bytes → ReplyDecoder → Option (List Bytes × ReplyDecoder)
unfolding feed_with_offsets
feed_replies d payload decoder =
    Option.map (λ (replies, after). (map (λ reply. reply.frame) replies, after))
      (feed_with_offsets d payload decoder)

-- `d.get(key)` of a literal dictionary.
abbrev pub lookup : ℕ → List (ℕ × ℕ) → Option ℕ
lookup key [] = none
lookup key ((k, value) ∷ entries) =
    let rest = lookup key entries in if key == k then some value else rest

abbrev pub phomemo_sizes : List (ℕ × ℕ)
phomemo_sizes =
    (0x03, 2)
    ∷ (0x04, 2)
    ∷ (0x05, 2)
    ∷ (0x06, 2)
    ∷ (0x07, 4)
    ∷ (0x08, 16)
    ∷ (0x09, 2)
    ∷ (0x0B, 2)
    ∷ (0x0E, 2)
    ∷ (0x0F, 2)
    ∷ (0x16, 2)
    ∷ (0x17, 2)
    ∷ (0x1D, 2)
    ∷ (0x20, 2)
    ∷ (0x35, 2)
    ∷ (0x3B, 6)
    ∷ []

-- `PhomemoReplyDecoder`
abbrev pub phomemo : Dialect
phomemo = record {
  sizes = λ opcode. lookup opcode phomemo_sizes;
  prefixes = 0x1A ∷ [];
  allow_bare = false;
}

abbrev pub print_master_sizes : List (ℕ × ℕ)
print_master_sizes =
    (0x03, 2)
    ∷ (0x04, 2)
    ∷ (0x05, 2)
    ∷ (0x06, 2)
    ∷ (0x07, 4)
    ∷ (0x08, 16)
    ∷ (0x0B, 2)
    ∷ (0x0C, 2)
    ∷ (0x0F, 2)
    ∷ (0x15, 4)
    ∷ (0x17, 2)
    ∷ (0x31, 4)
    ∷ (0x3B, 4)
    ∷ (0x3E, 2)
    ∷ (0x3F, 2)
    ∷ (0x40, 15)
    ∷ []

-- `PrintMasterReplyDecoder`
abbrev pub print_master : Dialect
print_master = record {
  sizes = λ opcode. lookup opcode print_master_sizes;
  prefixes = 0x1A ∷ 0x1B ∷ [];
  allow_bare = true;
}
