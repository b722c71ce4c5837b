-- ===== src/Prelude/Bits.antt =====
-- `|` of disjoint bit fields as a sum. The library defines `bit_or` by its binary digits.
use Prim.Native.Nat.{
  ℕ, zero, suc, ◌+◌, ◌*◌, ◌/◌, ◌%◌, ◌^◌, ◌≤◌, ◌<◌, max, bit_or, digits, bit_or-bitwise,
}
use mathlib.Core.Path.{◌≡◌, refl, ap, ◌∙◌}
use native.Mathlib.Omega.{arith}
use native.Mathlib.Nat.{pow-suc}

-- The recursion that stands behind `bit_or`, with the number of its rounds in front.
abbrev union : ℕ → ℕ → ℕ → ℕ
union rounds x y = digits (λ rest. rest) max rounds x y

-- Rounds beyond the size of the first number change nothing.
union_rounds : (rounds more x y : ℕ) → x ≤ more → x ≤ rounds → union more x y ≡ union rounds x y
union_rounds (suc rounds) (suc more) (suc x) y in_more in_rounds =
    omega (arith, union_rounds rounds more (suc x / 2) (y / 2) (omega arith) (omega arith))
union_rounds (suc rounds) (suc more) zero y in_more in_rounds = refl
union_rounds (suc rounds) zero zero y in_more in_rounds = refl
union_rounds (suc rounds) zero (suc x) y in_more in_rounds = absurd (omega arith)
union_rounds zero zero zero y in_more in_rounds = refl
union_rounds zero zero (suc x) y in_more in_rounds = absurd (omega arith)
union_rounds zero (suc more) zero y in_more in_rounds = refl
union_rounds zero (suc more) (suc x) y in_more in_rounds = absurd (omega arith)

pub zero-bit_or : (y : ℕ) → bit_or 0 y ≡ y
zero-bit_or = bit_or-bitwise 0

-- A union splits into its lowest binary digit and the union of the others.
pub bit_or_step : (x y : ℕ) → bit_or x y ≡ bit_or (x / 2) (y / 2) * 2 + max (x % 2) (y % 2)
bit_or_step (suc x) y =
    let halves = bit_or-bitwise (suc x / 2) (y / 2) in
    let enough = union_rounds (suc x / 2) x (suc x / 2) (y / 2) (omega arith) (omega arith) in
    omega (arith, halves, enough, bit_or-bitwise (suc x) y)
bit_or_step zero y = omega (zero-bit_or (y / 2), zero-bit_or y, arith)

up_to-bit_or-zero : (limit x : ℕ) → x ≤ limit → bit_or x 0 ≡ x
up_to-bit_or-zero (suc limit) (suc x) fits =
    omega (up_to-bit_or-zero limit (suc x / 2) (omega arith), bit_or_step (suc x) 0, arith)
up_to-bit_or-zero zero (suc x) fits = absurd (omega arith)
up_to-bit_or-zero limit zero fits = refl

pub bit_or-zero : (x : ℕ) → bit_or x 0 ≡ x
bit_or-zero x = up_to-bit_or-zero x x (omega arith)

twice_field : (q k : ℕ) → q * 2 ^ suc k ≡ 2 * (q * 2 ^ k)
twice_field q k = omega (arith, ap (λ (t : ℕ). q * t) (pow-suc 2 k))

-- `r | (q << k)` is a sum when `r` fits `k` bits.
pub bit_or_low_high : (k q r : ℕ) → r < 2 ^ k → bit_or r (q * 2 ^ k) ≡ r + q * 2 ^ k
bit_or_low_high zero q zero h = omega (arith, zero-bit_or (q * 2 ^ 0))
bit_or_low_high zero q (suc r) h = absurd (omega arith)
bit_or_low_high (suc k) q r h = ground (
  arith,
  bit_or_step r (q * 2 ^ suc k),
  twice_field q k,
  pow-suc 2 k,
  bit_or_low_high k q (r / 2) (omega (arith, pow-suc 2 k)),
)

-- `(q << k) | r` is the same sum.
pub bit_or_high_low : (k q r : ℕ) → r < 2 ^ k → bit_or (q * 2 ^ k) r ≡ q * 2 ^ k + r
bit_or_high_low zero q zero h = bit_or-zero (q * 2 ^ 0) ∙ omega arith
bit_or_high_low zero q (suc r) h = absurd (omega arith)
bit_or_high_low (suc k) q r h = ground (
  arith,
  bit_or_step (q * 2 ^ suc k) r,
  twice_field q k,
  pow-suc 2 k,
  bit_or_high_low k q (r / 2) (omega (arith, pow-suc 2 k)),
)
