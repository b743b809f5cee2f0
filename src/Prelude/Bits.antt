-- ===== src/Prelude/Bits.antt =====
-- Masks on one byte as arithmetic; each is a table of at most 256 entries, checked by evaluation.
use Prim.Native.Nat.{ℕ, zero, suc, ◌+◌, ◌*◌, ◌/◌, ◌%◌, ◌<◌, bit_and, bit_or}
use mathlib.Core.Path.{◌≡◌, refl}
use mathlib.Core.Bool.{Bool, true, ◌&&◌}
use native.Mathlib.Omega.{arith}
use study_libevent.Prelude.Tests.{◌==◌}

module _ (f g : ℕ → ℕ) where
  agree_below : ℕ → Bool
  agree_below zero = true
  agree_below (suc n) = (f n == g n) && agree_below n

  agree_below→eq : (n : ℕ) → agree_below n ≡ true → (i : ℕ) → i < n → f i ≡ g i
  unfolding agree_below
  agree_below→eq zero e i h = absurd (omega arith)
  agree_below→eq (suc n) e i h = ground (arith, agree_below→eq n (ground arith) i)

pub and_7f : (b : ℕ) → b < 256 → bit_and b 0x7f ≡ b % 128
unfolding agree_below
and_7f = agree_below→eq _ _ 256 refl

pub and_80 : (b : ℕ) → b < 256 → bit_and b 0x80 ≡ b / 128 * 128
unfolding agree_below
and_80 = agree_below→eq _ _ 256 refl

pub or_80 : (b : ℕ) → b < 128 → bit_or b 0x80 ≡ b + 128
unfolding agree_below
or_80 = agree_below→eq _ _ 128 refl

pub and_0f : (b : ℕ) → b < 256 → bit_and b 0x0f ≡ b % 16
unfolding agree_below
and_0f = agree_below→eq _ _ 256 refl

pub and_f0 : (b : ℕ) → b < 256 → bit_and b 0xf0 ≡ b / 16 * 16
unfolding agree_below
and_f0 = agree_below→eq _ _ 256 refl

-- The two halves of a byte, put together.
pub or_low_half : (k : ℕ) → k < 256 → bit_or (k / 16 * 16) (k % 16) ≡ k
unfolding agree_below
or_low_half = agree_below→eq (λ k. bit_or (k / 16 * 16) (k % 16)) (λ k. k) 256 refl

pub or_high_half : (k : ℕ) → k < 256 → bit_or (k % 16) (k / 16 * 16) ≡ k
unfolding agree_below
or_high_half = agree_below→eq (λ k. bit_or (k % 16) (k / 16 * 16)) (λ k. k) 256 refl
