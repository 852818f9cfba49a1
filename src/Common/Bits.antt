-- ===== src/Common/Bits.antt =====
-- Laws of the bit operations on native numbers of every width, from the digit recursion.
use Prim.Native.Nat.{
  ℕ, zero, suc, ◌/◌, ◌^◌, ◌≤◌, ◌<◌, bit_and, bit_or, bit_xor, bit_and-bitwise, bit_or-bitwise,
  bit_xor-bitwise,
}
use mathlib.Core.Path.{◌≡◌, refl, sym, ap, ◌∙◌}
use mathlib.Core.Bool.{false, ◌||◌}
use native.Mathlib.Nat.{le_refl, pow-suc}
use native.Mathlib.Omega.{arith}
use lin_tac09cpbpsl_esp32c.Common.Tests.{has}
use lin_tac09cpbpsl_esp32c.Common.Digits.{
  and_step, or_step, xor_step, and-half, and-digit, or-half, or-digit, xor-half, xor-digit,
}

-- The laws go down to zero by halving; `n` bounds the argument that is halved.
and-zero_fuel : (n a : ℕ) → a ≤ n → bit_and a 0 ≡ 0
and-zero_fuel n zero h = refl
and-zero_fuel zero (suc a) h = absurd (omega arith)
and-zero_fuel (suc n) (suc a) h =
    omega (arith, and_step (suc a) 0, and-zero_fuel n (suc a / 2) (omega arith))

pub bit_and-zero : (a : ℕ) → bit_and a 0 ≡ 0
bit_and-zero a = and-zero_fuel a a (le_refl a)

xor-zero_fuel : (n a : ℕ) → a ≤ n → bit_xor a 0 ≡ a
xor-zero_fuel n zero h = refl
xor-zero_fuel zero (suc a) h = absurd (omega arith)
xor-zero_fuel (suc n) (suc a) h =
    omega (arith, xor_step (suc a) 0, xor-zero_fuel n (suc a / 2) (omega arith))

pub bit_xor-zero : (a : ℕ) → bit_xor a 0 ≡ a
bit_xor-zero a = xor-zero_fuel a a (le_refl a)

zero-bit_and : (b : ℕ) → bit_and 0 b ≡ 0
zero-bit_and b = bit_and-bitwise 0 b

zero-bit_or : (b : ℕ) → bit_or 0 b ≡ b
zero-bit_or b = bit_or-bitwise 0 b

pub zero-bit_xor : (b : ℕ) → bit_xor 0 b ≡ b
zero-bit_xor b = bit_xor-bitwise 0 b

xor-assoc_fuel : (n a b c : ℕ) → a ≤ n → bit_xor (bit_xor a b) c ≡ bit_xor a (bit_xor b c)
xor-assoc_fuel n zero b c h = simp zero-bit_xor
xor-assoc_fuel zero (suc a) b c h = absurd (omega arith)
xor-assoc_fuel (suc n) (suc a) b c h = ground (
  arith,
  xor_step (bit_xor (suc a) b) c,
  xor_step (suc a) (bit_xor b c),
  xor-half (suc a) b,
  xor-half b c,
  xor-digit (suc a) b,
  xor-digit b c,
  xor-assoc_fuel n (suc a / 2) (b / 2) (c / 2),
)

pub xor_assoc : (a b c : ℕ) → bit_xor (bit_xor a b) c ≡ bit_xor a (bit_xor b c)
xor_assoc a b c = xor-assoc_fuel a a b c (le_refl a)

xor-comm_fuel : (n a b : ℕ) → a ≤ n → bit_xor a b ≡ bit_xor b a
xor-comm_fuel n zero b h = simp (zero-bit_xor, bit_xor-zero)
xor-comm_fuel zero (suc a) b h = absurd (omega arith)
xor-comm_fuel (suc n) (suc a) b h =
    ground (arith, xor_step (suc a) b, xor_step b (suc a), xor-comm_fuel n (suc a / 2) (b / 2))

pub xor_comm : (a b : ℕ) → bit_xor a b ≡ bit_xor b a
xor_comm a b = xor-comm_fuel a a b (le_refl a)

xor-self_fuel : (n a : ℕ) → a ≤ n → bit_xor a a ≡ 0
xor-self_fuel n zero h = zero-bit_xor 0
xor-self_fuel zero (suc a) h = absurd (omega arith)
xor-self_fuel (suc n) (suc a) h =
    omega (arith, xor_step (suc a) (suc a), xor-self_fuel n (suc a / 2) (omega arith))

pub xor_self : (a : ℕ) → bit_xor a a ≡ 0
xor_self a = xor-self_fuel a a (le_refl a)

-- Adding the same number twice cancels.
pub xor_cancel : (a b : ℕ) → bit_xor a (bit_xor a b) ≡ b
xor_cancel a b = rw (← xor_assoc) (rw (xor_self a) (zero-bit_xor b))

-- No bit of the result stands above those of the arguments.
pub xor-lt : (k a b : ℕ) → a < 2 ^ k → b < 2 ^ k → bit_xor a b < 2 ^ k
xor-lt zero a b h g = ground (arith, zero-bit_xor b)
xor-lt (suc k) a b h g = omega (
  arith,
  pow-suc 2 k,
  xor_step a b,
  xor-lt k (a / 2) (b / 2) (omega (arith, pow-suc 2 k)) (omega (arith, pow-suc 2 k)),
)

and-assoc_fuel : (n a b c : ℕ) → a ≤ n → bit_and (bit_and a b) c ≡ bit_and a (bit_and b c)
and-assoc_fuel n zero b c h = simp zero-bit_and
and-assoc_fuel zero (suc a) b c h = absurd (omega arith)
and-assoc_fuel (suc n) (suc a) b c h = ground (
  arith,
  and_step (bit_and (suc a) b) c,
  and_step (suc a) (bit_and b c),
  and-half (suc a) b,
  and-half b c,
  and-digit (suc a) b,
  and-digit b c,
  and-assoc_fuel n (suc a / 2) (b / 2) (c / 2),
)

and-or_fuel : (n m a b : ℕ) → m ≤ n → bit_and (bit_or a b) m ≡ bit_or (bit_and a m) (bit_and b m)
and-or_fuel n zero a b h = simp (bit_and-zero, zero-bit_or)
and-or_fuel zero (suc m) a b h = absurd (omega arith)
and-or_fuel (suc n) (suc m) a b h = ground (
  arith,
  and_step (bit_or a b) (suc m),
  or_step (bit_and a (suc m)) (bit_and b (suc m)),
  or-half a b,
  or-digit a b,
  and-half a (suc m),
  and-half b (suc m),
  and-digit a (suc m),
  and-digit b (suc m),
  and-or_fuel n (suc m / 2) (a / 2) (b / 2),
)

or-eq-zero_fuel : (n a b : ℕ) → a ≤ n → bit_or a b ≡ 0 → (a ≡ 0) × (b ≡ 0)
or-eq-zero_fuel n zero b h e = omega (arith, zero-bit_or b)
or-eq-zero_fuel zero (suc a) b h e = absurd (omega arith)
or-eq-zero_fuel (suc n) (suc a) b h e =
    ground (arith, or_step (suc a) b, or-eq-zero_fuel n (suc a / 2) (b / 2))

-- A flag is in `x | y` exactly when it is in one of the two.
pub has-bit_or : (x y m : ℕ) → has (bit_or x y) m ≡ (has x m || has y m)
unfolding has
has-bit_or x y m = ground (
  arith,
  and-or_fuel m m x y (le_refl m),
  or-eq-zero_fuel (bit_and x m) (bit_and x m) (bit_and y m) (le_refl _),
  zero-bit_or 0,
)

-- A flag is in `x & y` when it is in `x` under the mask `y`.
pub has-bit_and : (x y m : ℕ) → has (bit_and x y) m ≡ has x (bit_and y m)
unfolding has
has-bit_and x y m = rw (and-assoc_fuel x x y m (le_refl x))

pub has-zero : (x : ℕ) → has x 0 ≡ false
unfolding has
has-zero x = rw (bit_and-zero x)

and-comm_fuel : (n a b : ℕ) → a ≤ n → bit_and a b ≡ bit_and b a
and-comm_fuel n zero b h = simp (zero-bit_and, bit_and-zero)
and-comm_fuel zero (suc a) b h = absurd (omega arith)
and-comm_fuel (suc n) (suc a) b h =
    ground (arith, and_step (suc a) b, and_step b (suc a), and-comm_fuel n (suc a / 2) (b / 2))

has_comm : (x m : ℕ) → has x m ≡ has m x
unfolding has
has_comm x m = rw (and-comm_fuel x x m (le_refl x))

-- Some flag of `m | n` is in `x` exactly when one of `m` or one of `n` is.
pub has-mask : (x m n : ℕ) → has x (bit_or m n) ≡ (has x m || has x n)
has-mask x m n = rw (has_comm x (bit_or m n), has-bit_or m n x, has_comm m x, has_comm n x)

pub or_eq_zero : (a b : ℕ) → bit_or a b ≡ 0 → (a ≡ 0) × (b ≡ 0)
or_eq_zero a b = or-eq-zero_fuel a a b (omega arith)

pub xor_eq_zero : (a b : ℕ) → bit_xor a b ≡ 0 → a ≡ b
xor_eq_zero a b e = sym (bit_xor-zero a) ∙ ap (bit_xor a) (sym e) ∙ xor_cancel a b
