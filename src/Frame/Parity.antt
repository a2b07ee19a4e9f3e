-- ===== src/Frame/Parity.antt =====
-- even_ones() against a count of the ones.
use opentherm_thermostat_fir.Prelude.{
  ℕ, zero, suc, ◌+◌, ◌/◌, ◌%◌, ◌^◌, ◌≡◌, ◌↔◌, ◌∙◌, sym, ap, true, not, arith, refl,
}
use opentherm_thermostat_fir.Prelude.Digits.{digit, digit-xor}
use opentherm_thermostat_fir.Prelude.Bits.{bit_and, bit_xor, and_mask}
use native.Mathlib.Nat.{div-one, pow-succ', div-div-eq-div-mul}
use opentherm_thermostat_fir.Frame.{fold, even_ones}

-- The ones among the `n` digits from the place `i` on.
unfoldable pub ones : ℕ → ℕ → ℕ → ℕ
ones zero i v = 0
ones (suc n) i v = digit i v + ones n (suc i) v

digit-shifted : (k i j v : ℕ) → j ≡ k + i → digit i (v / 2 ^ k) ≡ digit j v
unfolding digit
digit-shifted zero i j v e =
    let same : j ≡ i = omega (arith, e) in rw same (ap (digit i) (div-one v))
digit-shifted (suc k) i zero v e = absurd (omega arith)
digit-shifted (suc k) i (suc j) v e =
    let halved : v / 2 ^ suc k ≡ v / 2 / 2 ^ k =
      ap (λ p. v / p) (pow-succ' 2 k) ∙ sym (div-div-eq-div-mul v 2 (2 ^ k)) in
    rw halved (digit-shifted k i j (v / 2) (omega arith))

ones-folded : (n i j k v : ℕ) → j ≡ k + i → ones n i (fold k v) % 2 ≡ (ones n i v + ones n j v) % 2
unfolding ones fold
ones-folded zero i j k v e = refl
ones-folded (suc n) i j k v e = omega (
  arith,
  ones-folded n (suc i) (suc j) k v (omega arith),
  digit-xor i v (v / 2 ^ k),
  digit-shifted k i j v e,
)

ones-plus : (m n l i j v : ℕ) → l ≡ m + n → j ≡ m + i → ones l i v ≡ ones m i v + ones n j v
unfolding ones
ones-plus zero n l i j v e f =
    let all : l ≡ n = omega (arith, e) in
    let same : j ≡ i = omega (arith, f) in rw (all, same) (omega arith)
ones-plus (suc m) n zero i j v e f = absurd (omega arith)
ones-plus (suc m) n (suc l) i j v e f =
    omega (arith, ones-plus m n l (suc i) j v (omega arith) (omega arith))

-- One fold halves the number of digits that carry the parity.
fold_halves : (k v : ℕ) → ones k 0 (fold k v) % 2 ≡ ones (k + k) 0 v % 2
fold_halves k v =
    omega
      (arith, ones-folded k 0 k k v (omega arith), ones-plus k k (k + k) 0 k v refl (omega arith))

one_digit : (v : ℕ) → ones 1 0 v ≡ v % 2
unfolding ones digit
one_digit v = omega arith

-- The folds keep the parity of the 32 digits: a word passes exactly when the number of ones in it
-- is even.
pub even_ones_iff : (v : ℕ) → (even_ones v ≡ true) ↔ (ones 32 0 v % 2 ≡ 0)
unfolding even_ones
even_ones_iff v =
    let v1 = fold 16 v in
    let v2 = fold 8 v1 in
    let v3 = fold 4 v2 in
    let v4 = fold 2 v3 in
    let v5 = fold 1 v4 in
    let last : bit_and v5 1 ≡ ones 32 0 v % 2 =
      and_mask 1 v5
      ∙ omega (
        arith,
        one_digit v5,
        fold_halves 1 v4,
        fold_halves 2 v3,
        fold_halves 4 v2,
        fold_halves 8 v1,
        fold_halves 16 v,
      ) in
    rw last (ground arith)

ones-xor : (n i a b : ℕ) → ones n i (bit_xor a b) % 2 ≡ (ones n i a + ones n i b) % 2
unfolding ones
ones-xor zero i a b = refl
ones-xor (suc n) i a b = omega (arith, ones-xor n (suc i) a b, digit-xor i a b)

-- Adding a word with an odd number of ones, digit by digit, turns the verdict round.
pub even_ones-xor : (a b : ℕ) → ones 32 0 b % 2 ≡ 1 → even_ones (bit_xor a b) ≡ not (even_ones a)
even_ones-xor a b odd =
    ground (arith, ones-xor 32 0 a b, even_ones_iff a, even_ones_iff (bit_xor a b))
