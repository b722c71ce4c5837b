-- ===== src/Protocol/Packet/Stream/Chunks.antt =====
-- The decoder of catlabel/protocol/packet.py over a whole stream, in one piece or in two.
use catlabel.Prelude.{
  ℕ, zero, suc, ◌+◌, ◌≤◌, ◌<◌, ◌≡◌, refl, ap, sym, ◌∙◌, Bytes, List, [], ◌∷◌, ◌++◌, some, length,
  arith, inl, inr, length-append, append_assoc,
}
use catlabel.Prelude.Option
use catlabel.Protocol.Packet.Stream.{
  PrefixedPacket, Decoder, Round, stop, skip, emit, round, feed_loop, feed,
}
use catlabel.Protocol.Packet.Stream.Rounds.{extend, GoesOn, round-append, Shrinks, Shrinks-round}

length_zero : (xs : Bytes) → length xs ≤ 0 → xs ≡ []
length_zero [] h = refl
length_zero (x ∷ xs) h = absurd (omega arith)

module _ (crc8_value : Bytes → ℕ) (prefix : Bytes) where
  -- The loop as a relation: from a buffer, the packets and what is left at the end.
  data Runs (received : ℕ) : Bytes → List PrefixedPacket → Bytes → Type 0 where
    stops :
        {buffer left : Bytes}
        → round crc8_value prefix received buffer ≡ stop left
        → Runs received buffer [] left
    skips :
        {buffer next left : Bytes} {packets : List PrefixedPacket}
        → round crc8_value prefix received buffer ≡ skip next
        → Runs received next packets left
        → Runs received buffer packets left
    emits :
        {buffer next left : Bytes} {packet : PrefixedPacket} {packets : List PrefixedPacket}
        → round crc8_value prefix received buffer ≡ emit packet next
        → Runs received next packets left
        → Runs received buffer (packet ∷ packets) left

  -- What a round does is all that the runs from a buffer depend on.
  Runs-cong :
      {received : ℕ} {buffer other : Bytes} {packets : List PrefixedPacket} {left : Bytes}
      → round crc8_value prefix received other ≡ round crc8_value prefix received buffer
      → Runs received buffer packets left
      → Runs received other packets left
  Runs-cong e (stops r) = stops (e ∙ r)
  Runs-cong e (skips r rest) = skips (e ∙ r) rest
  Runs-cong e (emits r rest) = emits (e ∙ r) rest

  module _ (known : 1 ≤ length prefix) where
    same_step :
        (received : ℕ) (buffer more : Bytes) (r : Round)
        → GoesOn r
        → round crc8_value prefix received buffer ≡ r
        → round crc8_value prefix (received + length more) (buffer ++ more) ≡ extend r more
    same_step received buffer more r on e =
        elim (round-append crc8_value prefix received buffer more known) [
          | inl (left, stopped, later) ↦ absurd (rw (sym e ∙ stopped) at on)
          | inr (later, on') ↦ later ∙ ap (λ t. extend t more) e
        ]

    searched_on :
        (received : ℕ) (buffer : Bytes) {left : Bytes} (more : Bytes)
        → round crc8_value prefix received buffer ≡ stop left
        → round crc8_value prefix (received + length more) (buffer ++ more)
          ≡ round crc8_value prefix (received + length more) (left ++ more)
    searched_on received buffer {left} more e =
        elim (round-append crc8_value prefix received buffer more known) [
          | inl (left', stopped, later) ↦
              let same : left' ≡ left = ground arith in
              later ∙ ap (λ l. round crc8_value prefix (received + length more) (l ++ more)) same
          | inr (later, on) ↦ absurd (rw e at on)
        ]

    -- The runs of the pieces put together are a run of the whole.
    Runs-append :
        {received : ℕ} {buffer : Bytes} {packets : List PrefixedPacket} {left : Bytes}
        (more : Bytes) {others : List PrefixedPacket} {last : Bytes}
        → Runs received buffer packets left
        → Runs (received + length more) (left ++ more) others last
        → Runs (received + length more) (buffer ++ more) (packets ++ others) last
    Runs-append {received} {buffer} more (stops r) later =
        Runs-cong (searched_on received buffer more r) later
    Runs-append {received} {buffer} more (skips {next = next} r rest) later =
        skips (same_step received buffer more (skip next) tt r) (Runs-append more rest later)
    Runs-append {received} {buffer} more (emits {next = next} {packet = packet} r rest) later =
        emits (same_step received buffer more (emit packet next) tt r) (Runs-append more rest later)

    shrinks :
        (received : ℕ) (buffer : Bytes) (r : Round)
        → round crc8_value prefix received buffer ≡ r
        → Shrinks crc8_value prefix buffer r
    shrinks received buffer r e = rw e at (Shrinks-round crc8_value prefix received buffer known)

    feed_loop-stop :
        (fuel received : ℕ) (buffer left : Bytes)
        → length buffer ≤ fuel
        → round crc8_value prefix received buffer ≡ stop left
        → feed_loop crc8_value fuel prefix received buffer ≡ some ([], left)
    unfolding feed_loop
    feed_loop-stop fuel received [] left h e =
        let empty : left ≡ [] = length_zero left (shrinks received [] (stop left) e) in rw empty
    feed_loop-stop zero received (x ∷ buffer) left h e = absurd (omega arith)
    feed_loop-stop (suc fuel) received (x ∷ buffer) left h e = rw (e, feed_loop)

    feed_loop-skip :
        (fuel received : ℕ) (buffer next : Bytes)
        → round crc8_value prefix received buffer ≡ skip next
        → feed_loop crc8_value (suc fuel) prefix received buffer
          ≡ feed_loop crc8_value fuel prefix received next
    unfolding feed_loop
    feed_loop-skip fuel received [] next e =
        absurd (omega (arith, shrinks received [] (skip next) e))
    feed_loop-skip fuel received (x ∷ buffer) next e = rw (e, feed_loop)

    feed_loop-emit :
        (fuel received : ℕ) (buffer : Bytes) (packet : PrefixedPacket) (next : Bytes)
        → round crc8_value prefix received buffer ≡ emit packet next
        → feed_loop crc8_value (suc fuel) prefix received buffer
          ≡ Option.map
              (λ (packets, last). (packet ∷ packets, last))
              (feed_loop crc8_value fuel prefix received next)
    unfolding feed_loop
    feed_loop-emit fuel received [] packet next e =
        absurd (omega (arith, shrinks received [] (emit packet next) e))
    feed_loop-emit fuel received (x ∷ buffer) packet next e = rw (e, feed_loop)

    -- With enough fuel the loop computes the run.
    feed_loop-Runs :
        {received : ℕ} (fuel : ℕ) {buffer : Bytes} {packets : List PrefixedPacket} {left : Bytes}
        → Runs received buffer packets left
        → length buffer ≤ fuel
        → feed_loop crc8_value fuel prefix received buffer ≡ some (packets, left)
    feed_loop-Runs {received} fuel {buffer} {packets} {left} (stops r) h =
        feed_loop-stop fuel received buffer left h r
    feed_loop-Runs {received} zero {buffer} (skips {next = next} r rest) h =
        absurd (omega (arith, shrinks received buffer (skip next) r))
    feed_loop-Runs {received} zero {buffer} (emits {next = next} {packet = packet} r rest) h =
        absurd (omega (arith, shrinks received buffer (emit packet next) r))
    feed_loop-Runs {received} (suc fuel) {buffer} (skips {next = next} r rest) h =
        feed_loop-skip fuel received buffer next r
        ∙ feed_loop-Runs fuel rest (omega (arith, shrinks received buffer (skip next) r))
    feed_loop-Runs {received} (suc fuel) {buffer} (emits {next = next} {packet = packet} r rest) h =
        feed_loop-emit fuel received buffer packet next r
        ∙ ap (Option.map (λ (packets, last). (packet ∷ packets, last)))
            (feed_loop-Runs fuel rest (omega (arith, shrinks received buffer (emit packet next) r)))

    Run : ℕ → Bytes → Type 0
    Run received buffer =
        (packets : List PrefixedPacket) × (left : Bytes) × Runs received buffer packets left

    first_round :
        (received : ℕ) (buffer : Bytes) (r : Round)
        → round crc8_value prefix received buffer ≡ r
        → ((next : Bytes) → length next < length buffer → Run received next)
        → Run received buffer
    unfolding Run
    first_round received buffer (stop left) e onward = ([], left, stops e)
    first_round received buffer (skip next) e onward =
        let (packets, left, rest) = onward next (shrinks received buffer (skip next) e) in
        (packets, left, skips e rest)
    first_round received buffer (emit packet next) e onward =
        let (packets, left, rest) = onward next (shrinks received buffer (emit packet next) e) in
        (packet ∷ packets, left, emits e rest)

    Runs_total : (fuel received : ℕ) (buffer : Bytes) → length buffer ≤ fuel → Run received buffer
    Runs_total zero received buffer h =
        first_round received buffer _ refl (λ next shorter. absurd (omega arith))
    Runs_total (suc fuel) received buffer h =
        first_round received buffer _ refl
          (λ next shorter. Runs_total fuel received next (omega arith))

-- Feeding the stream in two pieces gives the packets that feeding it at once gives, with the same
-- offsets, and leaves the decoder in the same state; no call runs out of rounds. The decoder's
-- prefix is not empty; its buffer and its count are any.
pub feed-append :
    (crc8_value : Bytes → ℕ) (d : Decoder) (a b : Bytes)
    → 1 ≤ length d.prefix
    → (packets others : List PrefixedPacket) × (middle last : Decoder) × (feed crc8_value d a
        ≡ some (packets, middle))
      × (feed crc8_value middle b ≡ some (others, last))
      × (feed crc8_value d (a ++ b) ≡ some (packets ++ others, last))
unfolding feed Run
feed-append crc8_value d a b h =
    let received = d.received_byte_count + length a in
    let front = d.buffer ++ a in
    let (packets, left, runs) =
      Runs_total crc8_value d.prefix h (length front) received front (omega arith) in
    let buffer = left ++ b in
    let (others, last, later) =
      Runs_total crc8_value d.prefix h (length buffer) (received + length b) buffer (omega arith) in
    let whole = Runs-append crc8_value d.prefix h b runs later in
    let total : d.received_byte_count + length (a ++ b) ≡ received + length b =
      omega (arith, length-append a b) in
    let middle_state = record d { buffer = left; received_byte_count = received } in
    let last_state = record d { buffer = last; received_byte_count = received + length b } in
    (
      packets,
      others,
      middle_state,
      last_state,
      rw (feed_loop-Runs crc8_value d.prefix h (length front) runs (omega arith)),
      rw (feed_loop-Runs crc8_value d.prefix h (length buffer) later (omega arith)),
      rw (
        total,
        ← append_assoc d.buffer a b,
        feed_loop-Runs crc8_value d.prefix h (length (front ++ b)) whole (omega arith),
      ),
    )
