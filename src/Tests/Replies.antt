-- ===== src/Tests/Replies.antt =====
-- Runs of the reply decoder of catlabel/protocol/families/phomemo_replies.py at concrete inputs.
use catlabel.Prelude.{◌≡◌, refl, List, [], ◌∷◌, ◌++◌, some}
use catlabel.Protocol.Replies.{
  DecodedReply, ReplyDecoder, phomemo, print_master, new_reply_decoder, feed_with_offsets,
  feed_replies,
}
use catlabel.Protocol.Replies.Rounds.{phomemo-HasFrames, print_master-HasFrames}
use catlabel.Protocol.Replies.Chunks.{feed_with_offsets-append}
use catlabel.Protocol.Replies.Frames.{Wire, feed_all, replies_of, feed_all-stream_of}

abbrev waiting : ReplyDecoder
waiting = record { pending = 0x1A ∷ []; pending_offset = 7; received_byte_count = 8 }

feed_with_offsets-append_example :
    (replies : List DecodedReply) × (middle : ReplyDecoder) × (others : List DecodedReply)
    × (final : ReplyDecoder) × (feed_with_offsets print_master (0x03 ∷ 1 ∷ 0x40 ∷ []) waiting
        ≡ some (replies, middle))
    × (feed_with_offsets print_master (2 ∷ 3 ∷ []) middle ≡ some (others, final))
    × (feed_with_offsets print_master ((0x03 ∷ 1 ∷ 0x40 ∷ []) ++ (2 ∷ 3 ∷ [])) waiting
        ≡ some (replies ++ others, final))
feed_with_offsets-append_example =
    feed_with_offsets-append print_master (0x03 ∷ 1 ∷ 0x40 ∷ []) (2 ∷ 3 ∷ []) waiting
      print_master-HasFrames

-- Noise before a prefix is discarded.
skips_noise :
    feed_replies phomemo (9 ∷ 0x1A ∷ 0x04 ∷ 5 ∷ []) new_reply_decoder
    ≡ some
        ((0x04 ∷ 5 ∷ []) ∷ [], record { pending = []; pending_offset = 4; received_byte_count = 4 })
unfolding feed_replies
skips_noise = refl

abbrev battery : Wire
battery = record { prefix = 0x1A; opcode = 0x04; body = 60 ∷ [] }

abbrev version : Wire
version = record { prefix = 0x1A; opcode = 0x07; body = 1 ∷ 2 ∷ 3 ∷ [] }

feed_all-stream_of_example :
    feed_all phomemo
      ((0x1A ∷ []) ∷ (0x04 ∷ 60 ∷ 0x1A ∷ 0x07 ∷ []) ∷ [] ∷ (1 ∷ 2 ∷ 3 ∷ []) ∷ [])
      new_reply_decoder
    ≡ some (
      replies_of 0 (battery ∷ version ∷ []),
      record { pending = []; pending_offset = 8; received_byte_count = 8 },
    )
feed_all-stream_of_example =
    feed_all-stream_of phomemo (battery ∷ version ∷ [])
      ((0x1A ∷ []) ∷ (0x04 ∷ 60 ∷ 0x1A ∷ 0x07 ∷ []) ∷ [] ∷ (1 ∷ 2 ∷ 3 ∷ []) ∷ []) phomemo-HasFrames
      (record { prefixed = refl; sized = refl }, (record { prefixed = refl; sized = refl }, tt))
      refl
