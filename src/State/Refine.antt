-- ===== src/State/Refine.antt =====
-- The words of marks against what they stand for: one mark for each consumer and entity.
use opentherm_thermostat_fir.Prelude.{
  ℕ, ◌-◌, ◌/◌, ◌%◌, ◌^◌, ◌<◌, ◌≤◌, ◌≡◌, refl, ap, arith, Bool, false, not, ◌&&◌, ◌||◌, ltb, ◌==◌,
  List, [], ◌∷◌, if◌then◌else◌,
}
use native.Mathlib.Nat.{one-le-pow, pow-le-pow_right}
use opentherm_thermostat_fir.Prelude.Word.{u32_max}
use opentherm_thermostat_fir.Prelude.Bits.{bit_and, bit_or}
use opentherm_thermostat_fir.Prelude.Digits.{
  digit, digit-or, digit-and, digit_small, digit_nothing, digit-pow, digit-complement, and_pow,
}
use opentherm_thermostat_fir.Prelude.Int.{ℤ, pos, negsuc}
use opentherm_thermostat_fir.State.Marks.{
  Dirty, consumer_count, set_word, mark, mark_from, mark_dirty, take_mark, take_dirty,
}

-- The promise: a set of marks for each consumer. A change raises its mark for all of them, and a
-- consumer that takes a mark takes its own; a mark that cannot be is never up.
abbrev pub Marked : Type 0
Marked = ℕ → ℕ → Bool

pub data MarkOp : Type 0 where
  changed : ℕ → MarkOp
  takes : ℕ → ℤ → MarkOp

unfoldable pub raise_all : Marked → ℕ → Marked
raise_all m index c i = i == index || m c i

unfoldable pub take_own : Marked → ℕ → ℕ → Marked
take_own m consumer index c i = not (c == consumer && i == index) && m c i

-- The answers of the takes in a run.
unfoldable pub promised : ℕ → Marked → List MarkOp → List Bool
promised count m [] = []
promised count m (changed index ∷ os) = promised count (raise_all m index) os
promised count m (takes consumer (negsuc index) ∷ os) = false ∷ promised count m os
promised count m (takes consumer (pos index) ∷ os) =
    if ltb consumer consumer_count && ltb index count
    then m consumer index ∷ promised count (take_own m consumer index) os
    else false ∷ promised count m os

unfoldable pub answered : ℕ → Dirty → List MarkOp → List Bool
answered count d [] = []
answered count d (changed index ∷ os) = answered count (mark_dirty d index) os
answered count d (takes consumer index ∷ os) =
    let (d', was) = take_dirty count d consumer index in was ∷ answered count d' os

-- The marks that the words hold.
unfoldable pub held : Dirty → Marked
held d c i = digit (i % 32) (d c (i / 32)) == 1

abbrev pub Holds : Dirty → Marked → Type 0
Holds d m = (c i : ℕ) → c < consumer_count → held d c i ≡ m c i

mask_test : (k w : ℕ) → (not (bit_and w (2 ^ k) == 0)) ≡ (digit k w == 1)
mask_test k w = ground (arith, and_pow k w, digit_small k w, one-le-pow k 2)

or_test : (j k w : ℕ) → (digit j (bit_or w (2 ^ k)) == 1) ≡ (j == k || digit j w == 1)
or_test j k w = ground (arith, digit-or j w (2 ^ k), digit-pow j k, digit_small j w)

small_pow : (k : ℕ) → k < 32 → 2 ^ k < 2 ^ 32
small_pow k h =
    let bound : 2 ^ k ≤ 2 ^ 31 = pow-le-pow_right (omega arith) {j = 31} (omega (arith, h)) in
    omega (arith, bound)

and_test :
    (j k w : ℕ)
    → j < 32
    → k < 32
    → (digit j (bit_and w (u32_max - 2 ^ k)) == 1) ≡ (not (j == k) && digit j w == 1)
and_test j k w h g = ground (
  arith,
  digit-and j w (u32_max - 2 ^ k),
  digit-complement 32 j (2 ^ k) h (small_pow k g),
  digit-pow j k,
  digit_small j w,
)

mark-Holds :
    (d : Dirty) (index c' c i : ℕ)
    → held (mark d index c') c i ≡ (c == c' && i == index || held d c i)
unfolding held mark set_word
mark-Holds d index c' c i = ground (arith, or_test (i % 32) (index % 32) (d c (i / 32)))

take-Holds :
    (d : Dirty) (consumer index c i : ℕ)
    → held (take_mark d consumer index).0 c i ≡ (not (c == consumer && i == index) && held d c i)
unfolding held take_mark set_word
take-Holds d consumer index c i = ground (arith, and_test (i % 32) (index % 32) (d c (i / 32)))

changed-Holds :
    (d : Dirty) (m : Marked) (index : ℕ)
    → Holds d m
    → Holds (mark_dirty d index) (raise_all m index)
unfolding mark_dirty mark_from raise_all
changed-Holds d m index h c i k =
    ground (arith, h c i k, mark-Holds (mark d index 0) index 1 c i, mark-Holds d index 0 c i)

took-Holds :
    (d : Dirty) (m : Marked) (consumer index : ℕ)
    → Holds d m
    → Holds (take_mark d consumer index).0 (take_own m consumer index)
unfolding take_own
took-Holds d m consumer index h c i k = ground (arith, h c i k, take-Holds d consumer index c i)

take_mark-answer :
    (d : Dirty) (consumer index : ℕ) → (take_mark d consumer index).1 ≡ held d consumer index
unfolding take_mark held
take_mark-answer d consumer index = mask_test (index % 32) (d consumer (index / 32))

run-promised :
    (count : ℕ) (d : Dirty) (m : Marked) (os : List MarkOp)
    → Holds d m
    → answered count d os ≡ promised count m os
unfolding answered promised take_dirty
run-promised count d m [] h = refl
run-promised count d m (changed index ∷ os) h =
    run-promised count (mark_dirty d index) (raise_all m index) os (changed-Holds d m index h)
run-promised count d m (takes consumer (negsuc index) ∷ os) h =
    ap (λ rest. false ∷ rest) (run-promised count d m os h)
run-promised count d m (takes consumer (pos index) ∷ os) h =
    let kept = run-promised count d m os h in
    let taken =
      run-promised count (take_mark d consumer index).0 (take_own m consumer index) os
        (took-Holds d m consumer index h) in
    ground (arith, kept, taken, take_mark-answer d consumer index, h consumer index)

-- The bitmaps keep the promise: from the reset on, after any changes of entities and any takes by
-- any consumer, at any index, every answer of ot_state_take_dirty() is that of a set of marks for
-- each consumer, where a change raises the mark for both consumers, a take lowers the
-- consumer's own mark alone, and a take of what is no consumer or no entity answers false and
-- changes nothing.
pub marks_refine :
    (count : ℕ) (os : List MarkOp) → answered count (λ c w. 0) os ≡ promised count (λ c i. false) os
unfolding held
marks_refine count os =
    run-promised count (λ c w. 0) (λ c i. false) os
      (λ c i k. ground (arith, digit_nothing (i % 32)))
