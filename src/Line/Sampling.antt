-- ===== src/Line/Sampling.antt =====
-- From the half-bits of ot_encode_frame() through the samples of the line back to the payload.
use native.Mathlib.Nat.{pow-suc, div-div-eq-div-mul, div-le_self}
use opentherm_thermostat_fir.Prelude.{
  ℕ, zero, suc, ◌+◌, ◌/◌, ◌%◌, ◌^◌, ◌≤◌, ◌<◌, ◌≡◌, ◌⊎◌, inl, inr, ◌∙◌, sym, ap, Bool, true, false,
  not, List, [], ◌∷◌, ◌++◌, arith, refl, if◌then◌else◌,
}
use opentherm_thermostat_fir.Prelude.Bits.{and_mask}
use opentherm_thermostat_fir.Line.Encode.{bit_at}
use opentherm_thermostat_fir.Line.Decode.{
  Decoder, mid_only, any, busy, done, fail, record_bit, take_middle, transition, push_busy, sample,
}
use opentherm_thermostat_fir.Line.Ending.{sample-busy}
use opentherm_thermostat_fir.Line.Framing.{shift-in}

unfoldable pub held : ℕ → Bool → List Bool
held zero l = []
held (suc n) l = l ∷ held n l

-- The samples of the two halves of each bit, for as long as each is held.
unfoldable pub sampled : List Bool → List (ℕ × ℕ) → List Bool
sampled (a ∷ b ∷ hs) ((h, k) ∷ ds) = held h a ++ (held k b ++ sampled hs ds)
sampled _ _ = []

-- The halves of `n` bits, each 4 to 6 samples, and no two halves in a row shorter than a full bit
-- of 9 samples; `prev` is the half before the first of them.
unfoldable pub Paced : ℕ → ℕ → List (ℕ × ℕ) → Type 0
Paced zero prev ds = Unit
Paced (suc n) prev [] = ⊥
Paced (suc n) prev ((h, k) ∷ ds) =
    (4 ≤ h) × (h ≤ 6) × (4 ≤ k) × (k ≤ 6) × (9 ≤ prev + h) × Paced n k ds

-- Samples of the level that the line has.
pub hold_level :
    (m : ℕ) (d : Decoder) (l : Bool) (ls : List Bool)
    → d.status ≡ busy
    → d.last_level ≡ l
    → d.since + m ≤ 12
    → sample d (held m l ++ ls) ≡ sample (record d { since = d.since + m }) ls
unfolding held
hold_level zero d l ls b e h = ap (λ n. sample (record d { since = n }) ls) (omega arith)
hold_level (suc m) d l ls b e h =
    let waits : push_busy d l ≡ record d { since = d.since + 1 } =
      unfold push_busy in ground arith in
    let ih = hold_level m (record d { since = d.since + 1 }) l ls b e (omega arith) in
    let count : d.since + 1 + m ≡ d.since + suc m = omega arith in
    sample-busy d l (held m l ++ ls) b
    ∙ ap (λ d'. sample d' (held m l ++ ls)) waits
    ∙ ih
    ∙ ap (λ n. sample (record d { since = n }) ls) count

-- `n` bits of `v` are still to come, and the middle of the bit `b` has just been seen.
pub record AfterMiddle (d : Decoder) (b : Bool) (n v : ℕ) : Type 0 where
  pub going : d.status ≡ busy
  pub either : d.phase ≡ any
  pub fresh : d.since ≡ 0
  pub level : d.last_level ≡ not b
  pub count : d.bits + n ≡ 34
  pub collected : d.shift ≡ v / 2 ^ n

-- The middle of the bit `b` has just been seen, the last one included, which is a one.
abbrev pub Arrived : Decoder → Bool → ℕ → ℕ → Type 0
Arrived d b n v =
    (1 ≤ n → AfterMiddle d b n v) × (n ≡ 0 → b ≡ true → (d.status ≡ done) × (d.shift ≡ v))

halved : (n v : ℕ) → v / 2 ^ suc n ≡ v / 2 ^ n / 2
halved n v = ap (λ p. v / p) (pow-suc 2 n) ∙ sym (div-div-eq-div-mul v (2 ^ n) 2)

pub bit_at-digit : (n v : ℕ) → (if bit_at v n then 1 else 0) ≡ v / 2 ^ n % 2
unfolding bit_at
bit_at-digit n v = ground (arith, and_mask 1 (v / 2 ^ n))

-- A middle that comes in its window takes the bit.
pub middle :
    (d : Decoder) (n v : ℕ)
    → d.status ≡ busy
    → ((d.phase ≡ any) × (8 ≤ d.since) × (d.since ≤ 11))
      ⊎ ((d.phase ≡ mid_only) × (3 ≤ d.since) × (d.since ≤ 5))
    → d.last_level ≡ bit_at v n
    → d.bits + suc n ≡ 34
    → d.shift ≡ v / 2 ^ suc n
    → v < 2 ^ 34
    → Arrived (push_busy d (not (bit_at v n))) (bit_at v n) n v
unfolding push_busy transition take_middle record_bit fail
middle d n v b window l count collected small =
    let half = halved n v in
    let digit = bit_at-digit n v in
    let le = div-le_self v (2 ^ suc n) in
    let in_bit = shift-in d.shift (bit_at v n) (omega (arith, le)) in
    ground (arith, half, digit, in_bit)

-- A transition on a bit boundary, between two equal bits.
boundary :
    (d : Decoder) (b : Bool)
    → d.status ≡ busy
    → d.phase ≡ any
    → 3 ≤ d.since
    → d.since ≤ 5
    → d.last_level ≡ not b
    → push_busy d b ≡ record d { since = 0; last_level = b; phase = mid_only }
unfolding push_busy transition
boundary d true b p low high l = ground arith
boundary d false b p low high l = ground arith

-- The next bit differs from the last one: there is no transition between them.
pub next_other :
    (d : Decoder) (n v j h : ℕ)
    → AfterMiddle d (not (bit_at v n)) (suc n) v
    → v < 2 ^ 34
    → 8 ≤ j + h
    → j + h ≤ 11
    → d.last_level ≡ bit_at v n
    → let c = bit_at v n in Arrived (sample d (held j c ++ (held h c ++ (not c ∷ [])))) c n v
unfolding sample
next_other d n v j h a small low high l =
    let c = bit_at v n in
    let d1 = record d { since = d.since + j } in
    let d2 = record d1 { since = d.since + j + h } in
    let first = hold_level j d c (held h c ++ (not c ∷ [])) a.going l (omega (arith, a.fresh)) in
    let second = hold_level h d1 c (not c ∷ []) a.going l (omega (arith, a.fresh)) in
    let arrived : Arrived (push_busy d2 (not c)) c n v =
      middle d2 n v a.going (inl (a.either, omega (arith, a.fresh), omega (arith, a.fresh))) l
        a.count a.collected small in
    rw (first, second, sample-busy d2 (not c) [] a.going) arrived

-- The next bit equals the last one: the level returns on the boundary between them.
pub next_same :
    (d : Decoder) (n v j i : ℕ)
    → AfterMiddle d (bit_at v n) (suc n) v
    → v < 2 ^ 34
    → 3 ≤ j
    → j ≤ 5
    → 3 ≤ i
    → i ≤ 5
    → let c = bit_at v n in
      Arrived (sample d (held j (not c) ++ (held (suc i) c ++ (not c ∷ [])))) c n v
unfolding sample held
next_same d n v j i a small j3 j5 i3 i5 =
    let c = bit_at v n in
    let d1 = record d { since = d.since + j } in
    let d2 = record d1 { since = 0; last_level = c; phase = mid_only } in
    let d3 = record d2 { since = 0 + i } in
    let first =
      hold_level j d (not c) (held (suc i) c ++ (not c ∷ [])) a.going a.level
        (omega (arith, a.fresh)) in
    let turn =
      boundary d1 c a.going a.either (omega (arith, a.fresh)) (omega (arith, a.fresh)) a.level in
    let second = hold_level i d2 c (not c ∷ []) a.going refl (omega arith) in
    let arrived : Arrived (push_busy d3 (not c)) c n v =
      middle d3 n v a.going (inr (refl, omega arith, omega arith)) refl a.count a.collected small in
    rw (first, sample-busy d1 c (held i c ++ (not c ∷ [])) a.going, turn, second)
      (rw (sample-busy d3 (not c) [] a.going) arrived)
