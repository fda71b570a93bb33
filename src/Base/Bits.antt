-- ===== src/Base/Bits.antt =====
-- The bit operations that the code uses, as arithmetic.
use Prim.Native.Nat.{
  ℕ, zero, suc, ◌+◌, ◌*◌, ◌/◌, ◌%◌, ◌≤◌, ◌<◌, min, max, bit_and, bit_or, digits, bitwise,
  bit_and-bitwise, bit_or-bitwise,
}
use mathlib.Core.Path.{◌≡◌, refl}
use native.Mathlib.Omega.{arith}

module _ (z : ℕ → ℕ) (f : ℕ → ℕ → ℕ) where
  -- Any fuel that is large enough gives the same digits.
  digits_any_fuel : (n m a b : ℕ) → a ≤ n → a ≤ m → digits z f n a b ≡ digits z f m a b
  digits_any_fuel zero zero a b p q = refl
  digits_any_fuel zero (suc m) zero b p q = refl
  digits_any_fuel zero (suc m) (suc a) b p q = absurd (omega arith)
  digits_any_fuel (suc n) zero zero b p q = refl
  digits_any_fuel (suc n) zero (suc a) b p q = absurd (omega arith)
  digits_any_fuel (suc n) (suc m) zero b p q = refl
  digits_any_fuel (suc n) (suc m) (suc a) b p q =
      rw (digits_any_fuel n m (suc a / 2) (b / 2) (omega arith) (omega arith))

  lowest_digit :
      (a b : ℕ)
      → bitwise z f (suc a) b ≡ bitwise z f (suc a / 2) (b / 2) * 2 + f (suc a % 2) (b % 2)
  lowest_digit a b =
      omega (arith, digits_any_fuel a (suc a / 2) (suc a / 2) (b / 2) (omega arith) (omega arith))

pub bit_or_split : (a b : ℕ) → bit_or a b ≡ bit_or (a / 2) (b / 2) * 2 + max (a % 2) (b % 2)
bit_or_split zero b = simp bit_or-bitwise (omega arith)
bit_or_split (suc a) b = simp bit_or-bitwise (lowest_digit (λ y. y) max a b)

pub bit_and_split : (a b : ℕ) → bit_and a b ≡ bit_and (a / 2) (b / 2) * 2 + min (a % 2) (b % 2)
bit_and_split zero b = simp bit_and-bitwise (omega arith)
bit_and_split (suc a) b = simp bit_and-bitwise (lowest_digit (λ y. 0) min a b)

bit_or-zero_below : (n a : ℕ) → a ≤ n → bit_or a 0 ≡ a
bit_or-zero_below n zero h = refl
bit_or-zero_below zero (suc a) h = absurd (omega arith)
bit_or-zero_below (suc n) (suc a) h =
    omega (arith, bit_or_split (suc a) 0, bit_or-zero_below n (suc a / 2) (omega arith))

bit_and-zero_below : (n a : ℕ) → a ≤ n → bit_and a 0 ≡ 0
bit_and-zero_below n zero h = refl
bit_and-zero_below zero (suc a) h = absurd (omega arith)
bit_and-zero_below (suc n) (suc a) h =
    omega (arith, bit_and_split (suc a) 0, bit_and-zero_below n (suc a / 2) (omega arith))

-- `(r << 4) | d` for a hexadecimal digit `d`.
pub bit_or_hex : (r d : ℕ) → d < 16 → bit_or (r * 16) d ≡ r * 16 + d
bit_or_hex r d h = ground (
  arith,
  bit_or_split (r * 16) d,
  bit_or_split (r * 8) (d / 2),
  bit_or_split (r * 4) (d / 4),
  bit_or_split (r * 2) (d / 8),
  bit_or-zero_below r r (omega arith),
)

pub bit_and_low4 : (a : ℕ) → bit_and a 15 ≡ a % 16
bit_and_low4 a = ground (
  arith,
  bit_and_split a 15,
  bit_and_split (a / 2) 7,
  bit_and_split (a / 4) 3,
  bit_and_split (a / 8) 1,
  bit_and-zero_below (a / 16) (a / 16) (omega arith),
)

bit_and_low5 : (a : ℕ) → bit_and a 31 ≡ a % 32
bit_and_low5 a = ground (arith, bit_and_split a 31, bit_and_low4 (a / 2))

bit_and_high4 : (a m : ℕ) → bit_and a (m * 16) ≡ bit_and (a / 16) m * 16
bit_and_high4 a m = ground (
  arith,
  bit_and_split a (m * 16),
  bit_and_split (a / 2) (m * 8),
  bit_and_split (a / 4) (m * 4),
  bit_and_split (a / 8) (m * 2),
)

-- The mask of the compression bits, 0x1F << 8.
pub bit_and_cmprs : (a : ℕ) → bit_and a 0x1f00 ≡ a / 256 % 32 * 256
bit_and_cmprs a =
    ground (arith, bit_and_high4 a 0x1f0, bit_and_high4 (a / 16) 0x1f, bit_and_low5 (a / 16 / 16))
