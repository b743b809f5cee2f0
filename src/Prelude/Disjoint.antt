-- ===== src/Prelude/Disjoint.antt =====
-- `|` of a word with bits above it is a sum.
use Prim.Native.Nat.{
  ℕ, zero, suc, ◌+◌, ◌*◌, ◌/◌, ◌%◌, ◌^◌, ◌≤◌, ◌<◌, max, digits, bit_or, bit_or-bitwise,
}
use mathlib.Core.Path.{◌≡◌, refl, ap, ◌∙◌}
use native.Mathlib.Omega.{arith}
use native.Mathlib.Nat.{pow-suc}

-- Fuel beyond the first argument does not change the binary digits of `|`.
or_digits_enough :
    (a n m b : ℕ) → a ≤ n → a ≤ m → digits (λ y. y) max n a b ≡ digits (λ y. y) max m a b
or_digits_enough zero zero zero b p q = refl
or_digits_enough zero zero (suc m) b p q = refl
or_digits_enough zero (suc n) zero b p q = refl
or_digits_enough zero (suc n) (suc m) b p q = refl
or_digits_enough (suc a) zero m b p q = absurd (omega arith)
or_digits_enough (suc a) (suc n) zero b p q = absurd (omega arith)
or_digits_enough (suc a) (suc n) (suc m) b p q =
    let half = or_digits_enough (suc a / 2) n m (b / 2) (omega arith) (omega arith) in rw half

or_halves : (a b : ℕ) → bit_or a b ≡ bit_or (a / 2) (b / 2) * 2 + max (a % 2) (b % 2)
or_halves zero b = omega (arith, bit_or-bitwise 0 b, bit_or-bitwise 0 (b / 2))
or_halves (suc a) b =
    let h = suc a / 2 in
    omega (
      arith,
      bit_or-bitwise (suc a) b,
      bit_or-bitwise h (b / 2),
      or_digits_enough h a h (b / 2) (omega arith) (omega arith),
    )

zero-or : (b : ℕ) → bit_or 0 b ≡ b
zero-or b = bit_or-bitwise 0 b

or-zero_upto : (n a : ℕ) → a ≤ n → bit_or a 0 ≡ a
or-zero_upto n zero h = refl
or-zero_upto zero (suc a) h = absurd (omega arith)
or-zero_upto (suc n) (suc a) h =
    omega (arith, or_halves (suc a) 0, or-zero_upto n (suc a / 2) (omega arith))

twice_pow : (q k : ℕ) → q * 2 ^ suc k ≡ q * 2 ^ k * 2
twice_pow q k = omega (arith, ap (λ t. q * t) (pow-suc 2 k))

-- `r | (q << k)` for `r` of at most `k` bits
pub or_above : (k r q : ℕ) → r < 2 ^ k → bit_or r (q * 2 ^ k) ≡ r + q * 2 ^ k
or_above zero r q h = let none_below : r ≡ 0 = omega arith in rw (none_below, zero-or) (omega arith)
or_above (suc k) r q h =
    let ih = or_above k (r / 2) q (omega (arith, pow-suc 2 k)) in
    let half : q * 2 ^ k * 2 / 2 ≡ q * 2 ^ k = omega arith in
    let step = rw half at (or_halves r (q * 2 ^ k * 2)) in
    rw (twice_pow q k) (omega (arith, step, ih))

-- `(q << k) | r` for `r` of at most `k` bits
pub or_below : (k r q : ℕ) → r < 2 ^ k → bit_or (q * 2 ^ k) r ≡ q * 2 ^ k + r
or_below zero r q h =
    let none_below : r ≡ 0 = omega arith in
    rw none_below (or-zero_upto (q * 2 ^ 0) (q * 2 ^ 0) (omega arith) ∙ omega arith)
or_below (suc k) r q h =
    let ih = or_below k (r / 2) q (omega (arith, pow-suc 2 k)) in
    let half : q * 2 ^ k * 2 / 2 ≡ q * 2 ^ k = omega arith in
    let step = rw half at (or_halves (q * 2 ^ k * 2) r) in
    rw (twice_pow q k) (omega (arith, step, ih))
