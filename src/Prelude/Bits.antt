-- ===== src/Prelude/Bits.antt =====
-- Masks as arithmetic. Those on one byte are tables, checked by evaluation; those on any number
-- follow from the digit recursion that the native operations stand for.
use Prim.Native.Nat.{
  ℕ, zero, suc, ◌+◌, ◌*◌, ◌/◌, ◌%◌, ◌≤◌, ◌<◌, min, max, bit_and, bit_or, digits, bit_and-bitwise,
  bit_or-bitwise,
}
use mathlib.Core.Path.{◌≡◌, refl}
use mathlib.Core.Bool.{Bool, true, ◌&&◌}
use native.Mathlib.Omega.{arith}
use spoe_forge.Prelude.Tests.{◌==◌}

-- `f` and `g` agree at every number below `n`.
unfoldable pub agree_below : (ℕ → ℕ) → (ℕ → ℕ) → ℕ → Bool
agree_below f g zero = true
agree_below f g (suc n) = (f n == g n) && agree_below f g n

pub agree_below→eq : (f g : ℕ → ℕ) (n : ℕ) → agree_below f g n ≡ true → (i : ℕ) → i < n → f i ≡ g i
unfolding agree_below
agree_below→eq f g zero e i h = absurd (omega arith)
agree_below→eq f g (suc n) e i h = ground (arith, agree_below→eq f g n (ground arith) i)

-- The low nibble of a byte.
pub low_nibble : (b : ℕ) → b < 256 → bit_and b 0x0F ≡ b % 16
unfolding agree_below
low_nibble = agree_below→eq (λ b. bit_and b 0x0F) (λ b. b % 16) 256 refl

-- The high nibble of a byte, in place.
pub high_nibble : (b : ℕ) → b < 256 → bit_and b 0xF0 ≡ b / 16 * 16
unfolding agree_below
high_nibble = agree_below→eq (λ b. bit_and b 0xF0) (λ b. b / 16 * 16) 256 refl

abbrev and_digits : ℕ → ℕ → ℕ → ℕ
and_digits k a b = digits (λ b. zero) min k a b

abbrev or_digits : ℕ → ℕ → ℕ → ℕ
or_digits k a b = digits (λ b. b) max k a b

-- Any count of rounds that covers the first number gives the same result.
and_digits_rounds : (k j a b : ℕ) → a ≤ k → a ≤ j → and_digits k a b ≡ and_digits j a b
and_digits_rounds zero zero a b p q = refl
and_digits_rounds zero (suc j) zero b p q = refl
and_digits_rounds zero (suc j) (suc a) b p q = absurd (omega arith)
and_digits_rounds (suc k) zero zero b p q = refl
and_digits_rounds (suc k) zero (suc a) b p q = absurd (omega arith)
and_digits_rounds (suc k) (suc j) zero b p q = refl
and_digits_rounds (suc k) (suc j) (suc a) b p q =
    omega (arith, and_digits_rounds k j (suc a / 2) (b / 2) (omega arith) (omega arith))

or_digits_rounds : (k j a b : ℕ) → a ≤ k → a ≤ j → or_digits k a b ≡ or_digits j a b
or_digits_rounds zero zero a b p q = refl
or_digits_rounds zero (suc j) zero b p q = refl
or_digits_rounds zero (suc j) (suc a) b p q = absurd (omega arith)
or_digits_rounds (suc k) zero zero b p q = refl
or_digits_rounds (suc k) zero (suc a) b p q = absurd (omega arith)
or_digits_rounds (suc k) (suc j) zero b p q = refl
or_digits_rounds (suc k) (suc j) (suc a) b p q =
    omega (arith, or_digits_rounds k j (suc a / 2) (b / 2) (omega arith) (omega arith))

zero-bit_and : (b : ℕ) → bit_and 0 b ≡ 0
zero-bit_and b = bit_and-bitwise 0 b

zero-bit_or : (b : ℕ) → bit_or 0 b ≡ b
zero-bit_or b = bit_or-bitwise 0 b

and_step : (a b : ℕ) → bit_and a b ≡ bit_and (a / 2) (b / 2) * 2 + min (a % 2) (b % 2)
and_step zero b = omega (arith, zero-bit_and b, zero-bit_and (b / 2))
and_step (suc a) b = omega (
  arith,
  bit_and-bitwise (suc a) b,
  bit_and-bitwise (suc a / 2) (b / 2),
  and_digits_rounds a (suc a / 2) (suc a / 2) (b / 2) (omega arith) (omega arith),
)

or_step : (a b : ℕ) → bit_or a b ≡ bit_or (a / 2) (b / 2) * 2 + max (a % 2) (b % 2)
or_step zero b = omega (arith, zero-bit_or b, zero-bit_or (b / 2))
or_step (suc a) b = omega (
  arith,
  bit_or-bitwise (suc a) b,
  bit_or-bitwise (suc a / 2) (b / 2),
  or_digits_rounds a (suc a / 2) (suc a / 2) (b / 2) (omega arith) (omega arith),
)

and_zero_below : (k a : ℕ) → a ≤ k → bit_and a 0 ≡ 0
and_zero_below k zero h = zero-bit_and 0
and_zero_below zero (suc a) h = absurd (omega arith)
and_zero_below (suc k) (suc a) h =
    omega (arith, and_step (suc a) 0, and_zero_below k (suc a / 2) (omega arith))

-- A mask of 8 ones takes the number modulo 256.
and_one : (a : ℕ) → bit_and a 1 ≡ a % 2
and_one a = omega (arith, and_step a 1, and_zero_below (a / 2) (a / 2) (omega arith))

and_seven : (a : ℕ) → bit_and a 7 ≡ a % 8
and_seven a = omega (arith, and_step a 7, and_step (a / 2) 3, and_one (a / 2 / 2))

and_63 : (a : ℕ) → bit_and a 63 ≡ a % 64
and_63 a =
    omega (
      arith,
      and_step a 63,
      and_step (a / 2) 31,
      and_step (a / 2 / 2) 15,
      and_seven (a / 2 / 2 / 2),
    )

pub low_byte : (a : ℕ) → bit_and a 0xFF ≡ a % 256
low_byte a = omega (arith, and_step a 255, and_step (a / 2) 127, and_63 (a / 2 / 2))

or_even : (a b : ℕ) → bit_or a (b * 2) ≡ bit_or (a / 2) b * 2 + a % 2
or_even a b = rw (or_step a (b * 2)) (rw half (omega arith))
  where
    half : b * 2 / 2 ≡ b
    half = omega arith

or_odd : (a b : ℕ) → bit_or a (b * 2 + 1) ≡ bit_or (a / 2) b * 2 + 1
or_odd a b = rw (or_step a (b * 2 + 1)) (rw half (omega arith))
  where
    half : (b * 2 + 1) / 2 ≡ b
    half = omega arith

or_zero_below : (k a : ℕ) → a ≤ k → bit_or a 0 ≡ a
or_zero_below k zero h = zero-bit_or 0
or_zero_below zero (suc a) h = absurd (omega arith)
or_zero_below (suc k) (suc a) h =
    omega (arith, or_even (suc a) 0, or_zero_below k (suc a / 2) (omega arith))

or_zero : (a : ℕ) → bit_or a 0 ≡ a
or_zero a = or_zero_below a a (omega arith)

or_one : (a : ℕ) → bit_or a 1 ≡ a / 2 * 2 + 1
or_one a = omega (arith, or_odd a 0, or_zero (a / 2))

or_15 : (a : ℕ) → bit_or a 15 ≡ a / 16 * 16 + 15
or_15 a = omega (arith, or_odd a 7, or_odd (a / 2) 3, or_odd (a / 2 / 2) 1, or_one (a / 2 / 2 / 2))

or_240 : (a : ℕ) → bit_or a 240 ≡ a / 256 * 256 + 240 + a % 16
or_240 a = omega (
  arith,
  or_even a 120,
  or_even (a / 2) 60,
  or_even (a / 2 / 2) 30,
  or_even (a / 2 / 2 / 2) 15,
  or_15 (a / 2 / 2 / 2 / 2),
)

or_8 : (a : ℕ) → bit_or a 8 ≡ a / 16 * 16 + 8 + a % 8
or_8 a =
    omega (arith, or_even a 4, or_even (a / 2) 2, or_even (a / 2 / 2) 1, or_one (a / 2 / 2 / 2))

or_128 : (a : ℕ) → bit_or a 128 ≡ a / 256 * 256 + 128 + a % 128
or_128 a = omega (
  arith,
  or_even a 64,
  or_even (a / 2) 32,
  or_even (a / 2 / 2) 16,
  or_even (a / 2 / 2 / 2) 8,
  or_8 (a / 2 / 2 / 2 / 2),
)

-- The byte `(a | 0xF0) & 0xFF`.
pub or_high_nibble : (a : ℕ) → bit_and (bit_or a 0xF0) 0xFF ≡ 240 + a % 16
or_high_nibble a = omega (arith, low_byte (bit_or a 240), or_240 a)

-- The byte `(a | 0x80) & 0xFF`.
pub or_top_bit : (a : ℕ) → bit_and (bit_or a 0x80) 0xFF ≡ 128 + a % 128
or_top_bit a = omega (arith, low_byte (bit_or a 128), or_128 a)
