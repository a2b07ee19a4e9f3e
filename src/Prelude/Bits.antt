-- ===== src/Prelude/Bits.antt =====
-- Binary digits of the native numbers: laws of `bit_xor`, `bit_or` and `bit_and` at variables.
use Prim.Native.Nat.{
  max, digits, bitwise, bit_and, bit_or, bit_xor, bit_and-bitwise, bit_or-bitwise, bit_xor-bitwise,
}
use opentherm_thermostat_fir.Prelude.{
  ℕ, zero, suc, ◌+◌, ◌-◌, ◌*◌, ◌/◌, ◌%◌, ◌^◌, ◌≤◌, ◌<◌, ◌≡◌, refl, ap, arith, min,
}
use native.Mathlib.Nat.{pow-suc, one-le-pow}
pub use Prim.Native.Nat.{bit_and, bit_or, bit_xor}

module _ (z : ℕ → ℕ) (f : ℕ → ℕ → ℕ) where
  fuel_enough : (n m a b : ℕ) → a ≤ n → a ≤ m → digits z f n a b ≡ digits z f m a b
  fuel_enough zero zero a b p q = refl
  fuel_enough zero (suc m) zero b p q = refl
  fuel_enough zero (suc m) (suc a) b p q = absurd (omega arith)
  fuel_enough (suc n) zero zero b p q = refl
  fuel_enough (suc n) zero (suc a) b p q = absurd (omega arith)
  fuel_enough (suc n) (suc m) zero b p q = refl
  fuel_enough (suc n) (suc m) (suc a) b p q =
      ap (λ d. d * 2 + f (suc a % 2) (b % 2))
        (fuel_enough n m (suc a / 2) (b / 2) (omega arith) (omega arith))

  -- The lowest digit of an operation, and the rest of it.
  lowest :
      (a b : ℕ)
      → bitwise z f (suc a) b ≡ bitwise z f (suc a / 2) (b / 2) * 2 + f (suc a % 2) (b % 2)
  lowest a b =
      ap (λ d. d * 2 + f (suc a % 2) (b % 2))
        (fuel_enough a (suc a / 2) (suc a / 2) (b / 2) (omega arith) (omega arith))

pub bit_or_step : (a b : ℕ) → bit_or a b ≡ bit_or (a / 2) (b / 2) * 2 + max (a % 2) (b % 2)
bit_or_step zero b = omega (arith, bit_or-bitwise 0 b, bit_or-bitwise 0 (b / 2))
bit_or_step (suc a) b =
    omega
      (arith, lowest (λ y. y) max a b, bit_or-bitwise (suc a) b, bit_or-bitwise (suc a / 2) (b / 2))

-- Two digits added without the carry.
toggled : (x y : ℕ) → x < 2 → y < 2 → Prim.Native.Nat.differ x y ≡ (x + y) % 2
toggled zero y p q = omega arith
toggled (suc zero) zero p q = refl
toggled (suc zero) (suc zero) p q = refl
toggled (suc zero) (suc (suc y)) p q = absurd (omega arith)
toggled (suc (suc x)) y p q = absurd (omega arith)

pub bit_xor_step : (a b : ℕ) → bit_xor a b ≡ bit_xor (a / 2) (b / 2) * 2 + (a + b) % 2
bit_xor_step zero b = omega (arith, bit_xor-bitwise 0 b, bit_xor-bitwise 0 (b / 2))
bit_xor_step (suc a) b = omega (
  arith,
  lowest (λ y. y) Prim.Native.Nat.differ a b,
  toggled (suc a % 2) (b % 2) (omega arith) (omega arith),
  bit_xor-bitwise (suc a) b,
  bit_xor-bitwise (suc a / 2) (b / 2),
)

pub bit_and_step : (a b : ℕ) → bit_and a b ≡ bit_and (a / 2) (b / 2) * 2 + min (a % 2) (b % 2)
bit_and_step zero b = omega (arith, bit_and-bitwise 0 b, bit_and-bitwise 0 (b / 2))
bit_and_step (suc a) b =
    omega (
      arith,
      lowest (λ y. 0) min a b,
      bit_and-bitwise (suc a) b,
      bit_and-bitwise (suc a / 2) (b / 2),
    )

nothing_or : (b : ℕ) → bit_or 0 b ≡ b
nothing_or b = bit_or-bitwise 0 b

nothing_and : (b : ℕ) → bit_and 0 b ≡ 0
nothing_and b = bit_and-bitwise 0 b

or_nothing_below : (n a : ℕ) → a ≤ n → bit_or a 0 ≡ a
or_nothing_below n zero h = nothing_or 0
or_nothing_below zero (suc a) h = absurd (omega arith)
or_nothing_below (suc n) (suc a) h =
    omega (arith, bit_or_step (suc a) 0, or_nothing_below n (suc a / 2) (omega arith))

pub or_nothing : (a : ℕ) → bit_or a 0 ≡ a
or_nothing a = or_nothing_below a a (omega arith)

and_nothing_below : (n a : ℕ) → a ≤ n → bit_and a 0 ≡ 0
and_nothing_below n zero h = nothing_and 0
and_nothing_below zero (suc a) h = absurd (omega arith)
and_nothing_below (suc n) (suc a) h =
    omega (arith, bit_and_step (suc a) 0, and_nothing_below n (suc a / 2) (omega arith))

shifted_once : (q k : ℕ) → q * 2 ^ suc k ≡ 2 * (q * 2 ^ k)
shifted_once q k = omega (arith, ap (λ (p : ℕ). q * p) (pow-suc 2 k))

-- A shifted field and one below it do not overlap.
pub or_fields : (k q r : ℕ) → r < 2 ^ k → bit_or (q * 2 ^ k) r ≡ q * 2 ^ k + r
or_fields zero q r h = ground (arith, or_nothing q)
or_fields (suc k) q r h =
    ground
      (arith, bit_or_step (q * 2 ^ suc k) r, shifted_once q k, or_fields k q (r / 2) (omega arith))

pub fields_or : (k q r : ℕ) → r < 2 ^ k → bit_or r (q * 2 ^ k) ≡ q * 2 ^ k + r
fields_or zero q zero h = ground (arith, nothing_or (q * 1))
fields_or zero q (suc r) h = absurd (omega arith)
fields_or (suc k) q r h =
    ground
      (arith, bit_or_step r (q * 2 ^ suc k), shifted_once q k, fields_or k q (r / 2) (omega arith))

pub fields_xor : (k q r : ℕ) → r < 2 ^ k → bit_xor r (q * 2 ^ k) ≡ q * 2 ^ k + r
fields_xor zero q zero h = ground (arith, bit_xor-bitwise 0 (q * 1))
fields_xor zero q (suc r) h = absurd (omega arith)
fields_xor (suc k) q r h =
    ground (
      arith,
      bit_xor_step r (q * 2 ^ suc k),
      shifted_once q k,
      fields_xor k q (r / 2) (omega arith),
    )

masked : (k q r : ℕ) → r < 2 ^ k → bit_and (q * 2 ^ k + r) (2 ^ k - 1) ≡ r
masked zero q r h = ground (arith, and_nothing_below (q * 1 + r) (q * 1 + r))
masked (suc k) q r h = ground (
  arith,
  bit_and_step (q * 2 ^ suc k + r) (2 ^ suc k - 1),
  shifted_once q k,
  pow-suc 2 k,
  masked k q (r / 2) (omega arith),
)

-- A mask of k ones keeps the lowest k digits.
pub and_mask : (k a : ℕ) → bit_and a (2 ^ k - 1) ≡ a % 2 ^ k
and_mask k a = ground (arith, one-le-pow k 2, masked k (a / 2 ^ k) (a % 2 ^ k))

-- An exclusive or is no wider than its arguments.
pub xor_narrow : (k a b : ℕ) → a < 2 ^ k → b < 2 ^ k → bit_xor a b < 2 ^ k
xor_narrow zero zero b h g = omega (arith, bit_xor-bitwise 0 b)
xor_narrow zero (suc a) b h g = absurd (omega arith)
xor_narrow (suc k) a b h g = omega (
  arith,
  bit_xor_step a b,
  pow-suc 2 k,
  xor_narrow k (a / 2) (b / 2) (omega (arith, pow-suc 2 k)) (omega (arith, pow-suc 2 k)),
)

or_nothing_both : (n a b : ℕ) → a ≤ n → bit_or a b ≡ 0 → (a ≡ 0) × (b ≡ 0)
or_nothing_both n zero b h e = (refl, omega (arith, nothing_or b))
or_nothing_both zero (suc a) b h e = absurd (omega arith)
or_nothing_both (suc n) (suc a) b h e =
    let rest = or_nothing_both n (suc a / 2) (b / 2) (omega arith) in
    ground (arith, bit_or_step (suc a) b, rest)

-- An or is zero only if both of its sides are.
pub or_zero : (a b : ℕ) → bit_or a b ≡ 0 → (a ≡ 0) × (b ≡ 0)
or_zero a b e = or_nothing_both a a b (omega arith) e

xor_same_below : (n a b : ℕ) → a ≤ n → bit_xor a b ≡ 0 → a ≡ b
xor_same_below n zero b h e = omega (arith, bit_xor-bitwise 0 b)
xor_same_below zero (suc a) b h e = absurd (omega arith)
xor_same_below (suc n) (suc a) b h e = omega (
  arith,
  bit_xor_step (suc a) b,
  xor_same_below n (suc a / 2) (b / 2) (omega arith) (omega (arith, bit_xor_step (suc a) b)),
)

-- An exclusive or is zero only if its sides are the same.
pub xor_same : (a b : ℕ) → bit_xor a b ≡ 0 → a ≡ b
xor_same a b e = xor_same_below a a b (omega arith) e

self_below : (n a : ℕ) → a ≤ n → bit_xor a a ≡ 0
self_below n zero h = bit_xor-bitwise 0 0
self_below zero (suc a) h = absurd (omega arith)
self_below (suc n) (suc a) h =
    omega (arith, bit_xor_step (suc a) (suc a), self_below n (suc a / 2) (omega arith))

pub bit_xor_self : (a : ℕ) → bit_xor a a ≡ 0
bit_xor_self a = self_below a a (omega arith)
