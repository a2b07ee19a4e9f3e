-- ===== src/Prelude/Digits.antt =====
-- The digits of a number, place by place, under the bitwise operations.
use Prim.Native.Nat.{max}
use opentherm_thermostat_fir.Prelude.{
  ℕ, zero, suc, ◌+◌, ◌-◌, ◌*◌, ◌/◌, ◌%◌, ◌^◌, ◌<◌, ◌≡◌, ◌==◌, if◌then◌else◌, arith, refl, ap, min,
}
use opentherm_thermostat_fir.Prelude.Bits.{
  bit_and, bit_or, bit_xor, bit_and_step, bit_or_step, bit_xor_step, and_mask,
}
use native.Mathlib.Nat.{pow-suc, one-le-pow}

-- The digit of a number at a place, counted from the lowest.
unfoldable pub digit : ℕ → ℕ → ℕ
digit zero v = v % 2
digit (suc i) v = digit i (v / 2)

pub digit-xor : (i a b : ℕ) → digit i (bit_xor a b) ≡ (digit i a + digit i b) % 2
unfolding digit
digit-xor zero a b = omega (arith, bit_xor_step a b)
digit-xor (suc i) a b =
    let half : bit_xor a b / 2 ≡ bit_xor (a / 2) (b / 2) = omega (arith, bit_xor_step a b) in
    rw half (digit-xor i (a / 2) (b / 2))

pub digit-or : (i a b : ℕ) → digit i (bit_or a b) ≡ max (digit i a) (digit i b)
unfolding digit
digit-or zero a b = omega (arith, bit_or_step a b)
digit-or (suc i) a b =
    let half : bit_or a b / 2 ≡ bit_or (a / 2) (b / 2) = omega (arith, bit_or_step a b) in
    rw half (digit-or i (a / 2) (b / 2))

pub digit-and : (i a b : ℕ) → digit i (bit_and a b) ≡ min (digit i a) (digit i b)
unfolding digit
digit-and zero a b = omega (arith, bit_and_step a b)
digit-and (suc i) a b =
    let half : bit_and a b / 2 ≡ bit_and (a / 2) (b / 2) = omega (arith, bit_and_step a b) in
    rw half (digit-and i (a / 2) (b / 2))

pub digit_small : (i v : ℕ) → digit i v < 2
unfolding digit
digit_small zero v = omega arith
digit_small (suc i) v = digit_small i (v / 2)

pub digit_nothing : (i : ℕ) → digit i 0 ≡ 0
unfolding digit
digit_nothing zero = refl
digit_nothing (suc i) = digit_nothing i

halved_pow : (k : ℕ) → 2 ^ suc k / 2 ≡ 2 ^ k
halved_pow k = omega (arith, pow-suc 2 k)

-- A power of two has one digit.
pub digit-pow : (i k : ℕ) → digit i (2 ^ k) ≡ (if i == k then 1 else 0)
unfolding digit
digit-pow zero zero = refl
digit-pow zero (suc k) = ground (arith, pow-suc 2 k)
digit-pow (suc i) zero = ground (arith, digit_nothing i)
digit-pow (suc i) (suc k) = rw (halved_pow k) (ground (arith, digit-pow i k))

-- The complement within n digits.
pub digit-complement : (n i a : ℕ) → i < n → a < 2 ^ n → digit i (2 ^ n - 1 - a) ≡ 1 - digit i a
unfolding digit
digit-complement zero i a h g = absurd (omega arith)
digit-complement (suc n) zero a h g = omega (arith, pow-suc 2 n, one-le-pow n 2)
digit-complement (suc n) (suc i) a h g =
    let half : (2 ^ suc n - 1 - a) / 2 ≡ 2 ^ n - 1 - a / 2 =
      omega (arith, pow-suc 2 n, one-le-pow n 2, g) in
    rw half (digit-complement n i (a / 2) (omega arith) (omega (arith, pow-suc 2 n, g)))

-- A mask of one digit.
pub and_pow : (k a : ℕ) → bit_and a (2 ^ k) ≡ digit k a * 2 ^ k
unfolding digit
and_pow zero a = omega (arith, and_mask 1 a)
and_pow (suc k) a =
    let half : bit_and (a / 2) (2 ^ suc k / 2) ≡ digit k (a / 2) * 2 ^ k =
      rw (halved_pow k) (and_pow k (a / 2)) in
    omega (
      arith,
      bit_and_step a (2 ^ suc k),
      half,
      pow-suc 2 k,
      ap (λ (p : ℕ). digit k (a / 2) * p) (pow-suc 2 k),
    )
