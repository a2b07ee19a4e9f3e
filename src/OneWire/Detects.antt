-- ===== src/OneWire/Detects.antt =====
-- What the checksum of a scratchpad detects.
use Prim.Native.Nat.{bit_xor-bitwise}
use opentherm_thermostat_fir.Prelude.{
  ℕ, zero, suc, ◌+◌, ◌*◌, ◌/◌, ◌≤◌, ◌<◌, ◌≡◌, ◌≢◌, ◌∙◌, refl, sym, ap, arith, Bool, true, ◌&&◌, ltb,
  leb, ◌==◌, List, [], ◌∷◌, ◌++◌, All, if◌then◌else◌,
}
use opentherm_thermostat_fir.Prelude.Bits.{bit_xor, bit_xor_step, xor_narrow}
use opentherm_thermostat_fir.OneWire.{shift_out, rounds, crc_from, crc8}

abbrev pub IsByte : ℕ → Type 0
IsByte b = b < 256

xor_cancels_below : (n c a b : ℕ) → c ≤ n → bit_xor c a ≡ bit_xor c b → a ≡ b
xor_cancels_below n zero a b h e = omega (arith, e, bit_xor-bitwise 0 a, bit_xor-bitwise 0 b)
xor_cancels_below zero (suc c) a b h e = absurd (omega (arith, h))
xor_cancels_below (suc n) (suc c) a b h e =
    let rest = xor_cancels_below n (suc c / 2) (a / 2) (b / 2) (omega (arith, h)) in
    let halves : a / 2 ≡ b / 2 =
      rest (omega (arith, e, bit_xor_step (suc c) a, bit_xor_step (suc c) b)) in
    omega (arith, halves, e, bit_xor_step (suc c) a, bit_xor_step (suc c) b)

xor_comm_below : (n a b : ℕ) → a ≤ n → b ≤ n → bit_xor a b ≡ bit_xor b a
xor_comm_below zero zero zero h g = refl
xor_comm_below zero zero (suc b) h g = absurd (omega (arith, g))
xor_comm_below zero (suc a) b h g = absurd (omega (arith, h))
xor_comm_below (suc n) a b h g = omega (
  arith,
  bit_xor_step a b,
  bit_xor_step b a,
  xor_comm_below n (a / 2) (b / 2) (omega (arith, h)) (omega (arith, g)),
)

xor_cancels : (c a b : ℕ) → bit_xor a c ≡ bit_xor b c → a ≡ b
xor_cancels c a b e =
    let left : bit_xor c a ≡ bit_xor c b =
      xor_comm_below (c + a) c a (omega arith) (omega arith)
      ∙ e
      ∙ xor_comm_below (c + b) b c (omega arith) (omega arith) in
    xor_cancels_below c c a b (omega arith) left

-- The way back from a round.
unfoldable shift_in : ℕ → ℕ
shift_in crc = if leb 128 crc then bit_xor crc 140 * 2 + 1 else crc * 2

unfoldable all_below : ℕ → (ℕ → Bool) → Bool
all_below zero f = true
all_below (suc n) f = f n && all_below n f

all_below-at : (n k : ℕ) (f : ℕ → Bool) → all_below n f ≡ true → k < n → f k ≡ true
unfolding all_below
all_below-at zero k f a h = absurd (omega (arith, h))
all_below-at (suc n) k f a h =
    let rest = all_below-at n k f (ground (arith, a)) in
    let here : k ≡ n → f k ≡ true = λ e. ap f e ∙ ground (arith, a) in ground (arith, h, rest, here)

round_back : all_below 256 (λ c. shift_in (shift_out c) == c && ltb (shift_out c) 256) ≡ true
unfolding all_below shift_in shift_out
round_back = refl

shift_out-back : (c : ℕ) → IsByte c → (shift_in (shift_out c) ≡ c) × IsByte (shift_out c)
shift_out-back c h = ground (
  arith,
  all_below-at 256 c (λ c. shift_in (shift_out c) == c && ltb (shift_out c) 256) round_back h,
)

rounds-injective : (n a b : ℕ) → IsByte a → IsByte b → rounds n a ≡ rounds n b → a ≡ b
unfolding rounds
rounds-injective zero a b p q e = e
rounds-injective (suc n) a b p q e =
    let u = shift_out-back a p in
    let v = shift_out-back b q in
    sym u.0 ∙ ap shift_in (rounds-injective n (shift_out a) (shift_out b) u.1 v.1 e) ∙ v.0

rounds-IsByte : (n a : ℕ) → IsByte a → IsByte (rounds n a)
unfolding rounds
rounds-IsByte zero a h = h
rounds-IsByte (suc n) a h = rounds-IsByte n (shift_out a) (shift_out-back a h).1

xor-IsByte : (a b : ℕ) → IsByte a → IsByte b → IsByte (bit_xor a b)
xor-IsByte a b h g = xor_narrow 8 a b h g

crc_from-injective :
    (a b : ℕ) (ds : List ℕ)
    → IsByte a
    → IsByte b
    → All IsByte ds
    → crc_from a ds ≡ crc_from b ds
    → a ≡ b
unfolding crc_from
crc_from-injective a b [] p q r e = e
crc_from-injective a b (d ∷ ds) p q r e =
    let u = xor-IsByte a d p r.0 in
    let v = xor-IsByte b d q r.0 in
    let inner =
      crc_from-injective (rounds 8 (bit_xor a d)) (rounds 8 (bit_xor b d)) ds
        (rounds-IsByte 8 (bit_xor a d) u) (rounds-IsByte 8 (bit_xor b d) v) r.1 e in
    xor_cancels d a b (rounds-injective 8 (bit_xor a d) (bit_xor b d) u v inner)

crc_from-same :
    (c a b : ℕ) (before after : List ℕ)
    → IsByte c
    → IsByte a
    → IsByte b
    → All IsByte before
    → All IsByte after
    → crc_from c (before ++ (a ∷ after)) ≡ crc_from c (before ++ (b ∷ after))
    → a ≡ b
unfolding crc_from
crc_from-same c a b [] after r p q v w e =
    let u = xor-IsByte c a r p in
    let t = xor-IsByte c b r q in
    let inner =
      crc_from-injective (rounds 8 (bit_xor c a)) (rounds 8 (bit_xor c b)) after
        (rounds-IsByte 8 (bit_xor c a) u) (rounds-IsByte 8 (bit_xor c b) t) w e in
    xor_cancels_below c c a b (omega arith)
      (rounds-injective 8 (bit_xor c a) (bit_xor c b) u t inner)
crc_from-same c a b (d ∷ before) after r p q v w e =
    crc_from-same (rounds 8 (bit_xor c d)) a b before after
      (rounds-IsByte 8 (bit_xor c d) (xor-IsByte c d r v.0)) p q v.1 w e

-- A spoiled byte never passes: two texts of bytes that differ in exactly one byte, at any place and
-- by any error in it, have different checksums.
pub spoiled_byte_seen :
    (a b : ℕ) (before after : List ℕ)
    → a ≢ b
    → IsByte a
    → IsByte b
    → All IsByte before
    → All IsByte after
    → crc8 (before ++ (a ∷ after)) ≢ crc8 (before ++ (b ∷ after))
unfolding crc8
spoiled_byte_seen a b before after n p q v w e =
    n (crc_from-same 0 a b before after (omega arith) p q v w e)
