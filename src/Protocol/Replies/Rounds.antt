-- ===== src/Protocol/Replies/Rounds.antt =====
-- One round of the reply decoder of catlabel/protocol/families/phomemo_replies.py.
use catlabel.Prelude.{
  ℕ, suc, ◌+◌, ◌≤◌, ◌≡◌, refl, Bytes, List, [], ◌∷◌, ◌++◌, Bool, true, false, Option, none, some,
  length, ◌&&◌, arith, ltb, if◌then◌else◌, length-append,
}
use catlabel.Protocol.Replies.{
  Dialect, Reading, incomplete, discard, known, by_size, examine_reply, behind_prefix, is_member,
  lookup, phomemo, phomemo_sizes, print_master, print_master_sizes,
}

-- The bytes that a round takes, one at least, are there.
abbrev pub Fits : ℕ → Reading → Type 0
Fits available incomplete = Unit
Fits available (discard n) = (1 ≤ n) × (n ≤ available)
Fits available (known prefix_length size) = (1 ≤ size) × (prefix_length + size ≤ available)

-- More bytes change a round only if it waits for them.
abbrev pub Settled : Reading → Reading → Type 0
Settled incomplete later = Unit
Settled (discard n) later = later ≡ discard n
Settled (known p size) later = later ≡ known p size

-- No frame is empty.
abbrev pub HasFrames : Dialect → Type 0
HasFrames d = (opcode size : ℕ) → d.sizes opcode ≡ some size → 1 ≤ size

by_size-Fits :
    (p available : ℕ) (found : Option ℕ)
    → p + 1 ≤ available
    → ((size : ℕ) → found ≡ some size → 1 ≤ size)
    → Fits available (by_size p available found)
by_size-Fits p available none h frames = (omega arith, h)
by_size-Fits p available (some size) h frames =
    by_test (ltb available (p + size)) (λ e. ground arith)
  where
    by_test :
        (short : Bool)
        → (short ≡ false → p + size ≤ available)
        → Fits available (if short then incomplete else known p size)
    by_test true fits = tt
    by_test false fits = (frames size refl, fits refl)

by_size-Settled :
    (p available more : ℕ) (found : Option ℕ)
    → available ≤ more
    → Settled (by_size p available found) (by_size p more found)
by_size-Settled p available more none h = refl
by_size-Settled p available more (some size) h =
    by_test (ltb available (p + size)) (ltb more (p + size)) (λ e. ground arith)
  where
    by_test :
        (short later : Bool)
        → (short ≡ false → later ≡ false)
        → Settled
            (if short then incomplete else known p size)
            (if later then incomplete else known p size)
    by_test true later k = tt
    by_test false true k = cc (k refl)
    by_test false false k = refl

behind_prefix-Fits :
    (d : Dialect) (b : ℕ) (rest : Bytes)
    → HasFrames d
    → Fits (length (b ∷ rest)) (behind_prefix d rest)
behind_prefix-Fits d b [] frames = tt
behind_prefix-Fits d b (opcode ∷ more) frames =
    by_size-Fits 1 (length (b ∷ opcode ∷ more)) (d.sizes opcode) (omega arith) (frames opcode)

behind_prefix-Settled :
    (d : Dialect) (rest more : Bytes)
    → Settled (behind_prefix d rest) (behind_prefix d (rest ++ more))
behind_prefix-Settled d [] more = tt
behind_prefix-Settled d (opcode ∷ rest) more =
    by_size-Settled 1 (suc (suc (length rest))) (suc (suc (length (rest ++ more)))) (d.sizes opcode)
      (omega (arith, length-append rest more))

pub examine_reply-Fits :
    (d : Dialect) (b : ℕ) (rest : Bytes)
    → HasFrames d
    → Fits (length (b ∷ rest)) (examine_reply d b rest)
unfolding examine_reply
examine_reply-Fits d b rest frames = by_tests (is_member b d.prefixes) d.allow_bare
  where
    by_tests :
        (prefixed bare : Bool)
        → Fits (length (b ∷ rest)) (
            if prefixed
            then behind_prefix d rest
            else if bare
            then by_size 0 (length (b ∷ rest)) (d.sizes b)
            else discard 1)
    by_tests true bare = behind_prefix-Fits d b rest frames
    by_tests false true = by_size-Fits 0 (length (b ∷ rest)) (d.sizes b) (omega arith) (frames b)
    by_tests false false = (omega arith, omega arith)

pub examine_reply-Settled :
    (d : Dialect) (b : ℕ) (rest more : Bytes)
    → Settled (examine_reply d b rest) (examine_reply d b (rest ++ more))
unfolding examine_reply
examine_reply-Settled d b rest more = by_tests (is_member b d.prefixes) d.allow_bare
  where
    by_tests :
        (prefixed bare : Bool)
        → Settled
            (if prefixed
              then behind_prefix d rest
              else if bare
              then by_size 0 (suc (length rest)) (d.sizes b)
              else discard 1)
            (if prefixed
              then behind_prefix d (rest ++ more)
              else if bare
              then by_size 0 (suc (length (rest ++ more))) (d.sizes b)
              else discard 1)
    by_tests true bare = behind_prefix-Settled d rest more
    by_tests false true =
        by_size-Settled 0 (suc (length rest)) (suc (length (rest ++ more))) (d.sizes b)
          (omega (arith, length-append rest more))
    by_tests false false = refl

abbrev are_positive : List (ℕ × ℕ) → Bool
are_positive [] = true
are_positive ((k, value) ∷ entries) = ltb 0 value && are_positive entries

lookup-positive :
    (entries : List (ℕ × ℕ)) (key value : ℕ)
    → are_positive entries ≡ true
    → lookup key entries ≡ some value
    → 1 ≤ value
lookup-positive [] key value h e = cc
lookup-positive ((k, v) ∷ entries) key value h e = ground (arith, lookup-positive entries key value)

pub phomemo-HasFrames : HasFrames phomemo
phomemo-HasFrames opcode size e = lookup-positive phomemo_sizes opcode size refl e

pub print_master-HasFrames : HasFrames print_master
print_master-HasFrames opcode size e = lookup-positive print_master_sizes opcode size refl e
