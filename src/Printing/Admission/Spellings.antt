-- ===== src/Printing/Admission/Spellings.antt =====
-- The spellings of a MAC address in catlabel/printing/admission.py.
use catlabel.Prelude.{
  ℕ, suc, ◌==◌, ◌≡◌, sym, ◌<◌, ◌⊎◌, inl, inr, refl, List, [], ◌∷◌, Bool, true, false, ◌||◌, ok, All,
  ==_iff, arith, length,
}
use catlabel.Printing.Admission.{
  Unicode, Address, is_hex, is_marked_mac, without, normalized, compacted, canonical_device_address,
}

-- Pairs of digits, joined by a mark or not at all.
unfoldable pub marked : ℕ → ℕ × ℕ → List (ℕ × ℕ) → Address
marked mark (a, b) [] = a ∷ b ∷ []
marked mark (a, b) (pair ∷ pairs) = a ∷ b ∷ mark ∷ marked mark pair pairs

unfoldable pub unmarked : ℕ × ℕ → List (ℕ × ℕ) → Address
unmarked (a, b) [] = a ∷ b ∷ []
unmarked (a, b) (pair ∷ pairs) = a ∷ b ∷ unmarked pair pairs

abbrev pub IsHexPair : ℕ × ℕ → Type 0
IsHexPair pair = (is_hex pair.0 ≡ true) × (is_hex pair.1 ≡ true)

marked-is_mac :
    (mark : ℕ) (pair : ℕ × ℕ) (pairs : List (ℕ × ℕ))
    → IsHexPair pair
    → All IsHexPair pairs
    → is_marked_mac mark (length pairs) (marked mark pair pairs) ≡ true
unfolding marked is_marked_mac
marked-is_mac mark (a, b) [] (x, y) hex = rw (x, y) refl
marked-is_mac mark (a, b) ((c, d) ∷ pairs) (x, y) (h, hex) =
    ground (arith, x, y, marked-is_mac mark (c, d) pairs h hex)

abbrev IsMark : ℕ → Type 0
IsMark mark = (mark < 48) ⊎ (mark ≡ 58)

-- A digit is no mark.
digit-is_no_mark : (c mark : ℕ) → is_hex c ≡ true → IsMark mark → (c == mark) ≡ false
digit-is_no_mark c mark hex small = ground arith

without-unmarked :
    (mark : ℕ) (pair : ℕ × ℕ) (pairs : List (ℕ × ℕ))
    → IsMark mark
    → IsHexPair pair
    → All IsHexPair pairs
    → without mark (unmarked pair pairs) ≡ unmarked pair pairs
unfolding without unmarked
without-unmarked mark (a, b) [] small (x, y) hex =
    rw (digit-is_no_mark a mark x small, digit-is_no_mark b mark y small) refl
without-unmarked mark (a, b) (pair ∷ pairs) small (x, y) (h, hex) =
    rw
      (
        digit-is_no_mark a mark x small,
        digit-is_no_mark b mark y small,
        without-unmarked mark pair pairs small h hex,
      )
      refl

-- Without its own mark, the text has pairs only; no other mark is in it.
without-marked :
    (mark : ℕ) (pair : ℕ × ℕ) (pairs : List (ℕ × ℕ))
    → IsMark mark
    → IsHexPair pair
    → All IsHexPair pairs
    → without mark (marked mark pair pairs) ≡ unmarked pair pairs
unfolding without unmarked marked
without-marked mark (a, b) [] small (x, y) hex =
    rw (digit-is_no_mark a mark x small, digit-is_no_mark b mark y small) refl
without-marked mark (a, b) (pair ∷ pairs) small (x, y) (h, hex) =
    rw
      (
        digit-is_no_mark a mark x small,
        digit-is_no_mark b mark y small,
        (==_iff mark mark).1 refl,
        without-marked mark pair pairs small h hex,
      )
      refl

without-other_mark :
    (mark other : ℕ) (pair : ℕ × ℕ) (pairs : List (ℕ × ℕ))
    → (other == mark) ≡ false
    → IsMark mark
    → IsHexPair pair
    → All IsHexPair pairs
    → without mark (marked other pair pairs) ≡ marked other pair pairs
unfolding without marked
without-other_mark mark other (a, b) [] differs small (x, y) hex =
    rw (digit-is_no_mark a mark x small, digit-is_no_mark b mark y small) refl
without-other_mark mark other (a, b) (pair ∷ pairs) differs small (x, y) (h, hex) =
    rw
      (
        digit-is_no_mark a mark x small,
        digit-is_no_mark b mark y small,
        differs,
        without-other_mark mark other pair pairs differs small h hex,
      )
      refl

-- A text of pairs is not a marked one: where the mark would be, it has a digit.
unmarked-is_unmarked :
    (mark : ℕ) (pair next : ℕ × ℕ) (pairs : List (ℕ × ℕ)) (count : ℕ)
    → IsMark mark
    → IsHexPair next
    → is_marked_mac mark (suc count) (unmarked pair (next ∷ pairs)) ≡ false
unfolding unmarked is_marked_mac
unmarked-is_unmarked mark (a, b) (c, d) [] count small (x, y) =
    ground (arith, digit-is_no_mark c mark x small)
unmarked-is_unmarked mark (a, b) (c, d) (pair ∷ pairs) count small (x, y) =
    ground (arith, digit-is_no_mark c mark x small)

colon-IsMark : IsMark b':'
colon-IsMark = inr refl

hyphen-IsMark : IsMark b'-'
hyphen-IsMark = inl (omega arith)

or_true : (test : Bool) → (test || true) ≡ true
or_true test = ground arith

compacted-colons :
    (pair : ℕ × ℕ) (pairs : List (ℕ × ℕ))
    → length pairs ≡ 5
    → IsHexPair pair
    → All IsHexPair pairs
    → compacted (marked b':' pair pairs) ≡ unmarked pair pairs
compacted-colons pair pairs five h hex =
    rw
      (
        sym five,
        marked-is_mac b':' pair pairs h hex,
        without-marked b':' pair pairs colon-IsMark h hex,
        without-unmarked b'-' pair pairs hyphen-IsMark h hex,
      )
      refl

compacted-hyphens :
    (pair : ℕ × ℕ) (pairs : List (ℕ × ℕ))
    → length pairs ≡ 5
    → IsHexPair pair
    → All IsHexPair pairs
    → compacted (marked b'-' pair pairs) ≡ unmarked pair pairs
compacted-hyphens pair pairs five h hex =
    rw
      (
        sym five,
        marked-is_mac b'-' pair pairs h hex,
        or_true (is_marked_mac b':' (length pairs) (marked b'-' pair pairs)),
        without-other_mark b':' b'-' pair pairs refl colon-IsMark h hex,
        without-marked b'-' pair pairs hyphen-IsMark h hex,
      )
      refl

compacted-unmarked :
    (pair next : ℕ × ℕ) (pairs : List (ℕ × ℕ))
    → IsHexPair pair
    → IsHexPair next
    → compacted (unmarked pair (next ∷ pairs)) ≡ unmarked pair (next ∷ pairs)
compacted-unmarked pair next pairs h g =
    rw
      (
        unmarked-is_unmarked b':' pair next pairs 4 colon-IsMark g,
        unmarked-is_unmarked b'-' pair next pairs 4 hyphen-IsMark g,
      )
      refl

-- A MAC address of six pairs of hexadecimal digits has one canonical form, the digits alone in lower
-- case: spelled with colons, with hyphens or compactly, in any case and with any space around it,
-- as long as `strip` and `casefold` make one of these three texts of it.
pub canonical_device_address-spellings :
    (unicode : Unicode) (address : Address) (a b c d e f : ℕ × ℕ)
    → All IsHexPair (a ∷ b ∷ c ∷ d ∷ e ∷ f ∷ [])
    → (normalized unicode address ≡ marked b':' a (b ∷ c ∷ d ∷ e ∷ f ∷ []))
      ⊎ ((normalized unicode address ≡ marked b'-' a (b ∷ c ∷ d ∷ e ∷ f ∷ []))
          ⊎ (normalized unicode address ≡ unmarked a (b ∷ c ∷ d ∷ e ∷ f ∷ [])))
    → canonical_device_address unicode address ≡ ok (unmarked a (b ∷ c ∷ d ∷ e ∷ f ∷ []))
unfolding canonical_device_address marked unmarked
canonical_device_address-spellings unicode address a b c d e f (h, hex) spelled =
    let rest = b ∷ c ∷ d ∷ e ∷ f ∷ [] in
    elim spelled [
      | inl h1 ↦ rw (h1, canonical_device_address, compacted-colons a rest refl h hex) refl
      | inr (inl h1) ↦ rw (h1, canonical_device_address, compacted-hyphens a rest refl h hex) refl
      | inr (inr h2) ↦
          rw (h2, canonical_device_address, compacted-unmarked a b (c ∷ d ∷ e ∷ f ∷ []) h hex.0)
            refl
    ]
