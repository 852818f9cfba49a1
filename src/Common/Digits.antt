-- ===== src/Common/Digits.antt =====
-- The bit operations on native numbers digit by digit: halves and lowest digits.
use Prim.Native.Nat.{
  ℕ, zero, suc, ◌+◌, ◌*◌, ◌/◌, ◌%◌, ◌≤◌, ◌<◌, min, max, digits, bitwise, bit_and, bit_or, bit_xor,
  bit_and-bitwise, bit_or-bitwise, bit_xor-bitwise, differ,
}
use mathlib.Core.Path.{◌≡◌, refl, sym, ap, ◌∙◌}
use native.Mathlib.Nat.{le_refl}
use native.Mathlib.Omega.{arith}

-- The value of the digit recursion does not depend on its fuel, once that is enough.
module _ (rest : ℕ → ℕ) (digit : ℕ → ℕ → ℕ) where
  digits_enough :
      (bound fuel x y : ℕ)
      → fuel ≤ bound
      → x ≤ fuel
      → digits rest digit fuel x y ≡ bitwise rest digit x y
  digits_enough bound zero zero y h k = refl
  digits_enough bound (suc fuel) zero y h k = refl
  digits_enough bound zero (suc x) y h k = absurd (omega arith)
  digits_enough zero (suc fuel) (suc x) y h k = absurd (omega arith)
  digits_enough (suc bound) (suc fuel) (suc x) y h k =
      let given = digits_enough bound fuel (suc x / 2) (y / 2) (omega arith) (omega arith) in
      let own = digits_enough bound x (suc x / 2) (y / 2) (omega arith) (omega arith) in
      ap (λ high. high * 2 + digit (suc x % 2) (y % 2)) (given ∙ sym own)

  bitwise_digit :
      (x y : ℕ)
      → bitwise rest digit (suc x) y
        ≡ bitwise rest digit (suc x / 2) (y / 2) * 2 + digit (suc x % 2) (y % 2)
  bitwise_digit x y =
      ap (λ high. high * 2 + digit (suc x % 2) (y % 2))
        (digits_enough x x (suc x / 2) (y / 2) (le_refl x) (omega arith))

-- The lowest digit of the three operations, and what is left above it.
pub and_step : (a b : ℕ) → bit_and a b ≡ bit_and (a / 2) (b / 2) * 2 + min (a % 2) (b % 2)
and_step zero b = simp bit_and-bitwise (omega arith)
and_step (suc a) b = simp bit_and-bitwise (bitwise_digit (λ y. 0) min a b)

pub or_step : (a b : ℕ) → bit_or a b ≡ bit_or (a / 2) (b / 2) * 2 + max (a % 2) (b % 2)
or_step zero b = simp bit_or-bitwise (omega arith)
or_step (suc a) b = simp bit_or-bitwise (bitwise_digit (λ y. y) max a b)

differ-eq : (a b : ℕ) → a < 2 → b < 2 → differ a b ≡ (a + b) % 2
differ-eq zero b h k = omega arith
differ-eq (suc zero) zero h k = refl
differ-eq (suc zero) (suc zero) h k = refl
differ-eq (suc zero) (suc (suc b)) h k = absurd (omega arith)
differ-eq (suc (suc a)) b h k = absurd (omega arith)

pub xor_step : (a b : ℕ) → bit_xor a b ≡ bit_xor (a / 2) (b / 2) * 2 + (a % 2 + b % 2) % 2
xor_step zero b = simp bit_xor-bitwise (omega arith)
xor_step (suc a) b = simp bit_xor-bitwise (
    omega (
      arith,
      bitwise_digit (λ y. y) differ a b,
      differ-eq (suc a % 2) (b % 2) (omega arith) (omega arith),
    ))

-- Halves and lowest digits of the three operations.
module _ (a b : ℕ) where
  pub and-half : bit_and a b / 2 ≡ bit_and (a / 2) (b / 2)
  and-half = omega (arith, and_step a b)

  pub and-digit : bit_and a b % 2 ≡ min (a % 2) (b % 2)
  and-digit = omega (arith, and_step a b)

  pub or-half : bit_or a b / 2 ≡ bit_or (a / 2) (b / 2)
  or-half = omega (arith, or_step a b)

  pub or-digit : bit_or a b % 2 ≡ max (a % 2) (b % 2)
  or-digit = omega (arith, or_step a b)

  pub xor-half : bit_xor a b / 2 ≡ bit_xor (a / 2) (b / 2)
  xor-half = omega (arith, xor_step a b)

  pub xor-digit : bit_xor a b % 2 ≡ (a % 2 + b % 2) % 2
  xor-digit = omega (arith, xor_step a b)
