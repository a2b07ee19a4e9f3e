-- ===== src/Line/Framing.antt =====
-- What a finished frame is: 34 bits, framed by ones.
use opentherm_thermostat_fir.Prelude.{
  ℕ, ◌+◌, ◌*◌, ◌/◌, ◌%◌, ◌^◌, ◌≤◌, ◌<◌, ◌≡◌, ◌≢◌, ◌⊎◌, Bool, true, not, ◌&&◌, List, [], ◌∷◌, arith,
  if◌then◌else◌,
}
use opentherm_thermostat_fir.Prelude.Bits.{bit_or, and_mask, or_fields}
use native.Mathlib.Nat.{pow-suc, pow-le-pow_right}
use opentherm_thermostat_fir.Line.Decode.{
  Decoder, mid_only, busy, done, fail, record_bit, take_middle, push_idle, transition, push_busy,
  push, sample, reset, payload,
}

pub shift-in :
    (s : ℕ) (b : Bool)
    → s < 9223372036854775808
    → bit_or (s * 2 % 18446744073709551616) (if b then 1 else 0) ≡ s * 2 + (if b then 1 else 0)
shift-in s b h =
    let small : (s * 2) % 18446744073709551616 ≡ s * 2 ^ 1 = omega arith in
    rw small (or_fields 1 s (if b then 1 else 0) (ground arith))

-- A frame in progress: the bits taken so far lie in `shift`, the first of them is a one, and before
-- the first the line is active.
pub record IsFramed (d : Decoder) : Type 0 where
  pub fewer : d.bits < 34
  pub fits : d.shift < 2 ^ d.bits
  pub begins : d.bits ≡ 0 → (d.last_level ≡ true) × (d.phase ≡ mid_only)
  pub leads : (d.bits ≡ 0) ⊎ (2 ^ d.bits ≤ d.shift * 2)

-- A frame that is done.
pub record IsFinished (d : Decoder) : Type 0 where
  pub all : d.bits ≡ 34
  pub fits : d.shift < 2 ^ 34
  pub starts : 2 ^ 33 ≤ d.shift
  pub stops : d.shift % 2 ≡ 1

abbrev pub IsSound : Decoder → Type 0
IsSound d = (d.status ≡ busy → IsFramed d) × (d.status ≡ done → IsFinished d)

small_power : (n : ℕ) → n < 34 → 2 ^ n ≤ 8589934592
small_power n h = pow-le-pow_right {n = 2} (omega arith) {i = n} {j = 33} (omega arith)

take_middle-IsSound :
    (d : Decoder) (to_idle : Bool)
    → d.status ≡ busy
    → d.bits < 34
    → d.shift < 2 ^ d.bits
    → (d.bits ≡ 0 → to_idle ≡ true)
    → (d.bits ≡ 0) ⊎ (2 ^ d.bits ≤ d.shift * 2)
    → IsSound (take_middle d to_idle)
unfolding take_middle record_bit fail
take_middle-IsSound d to_idle b fewer fits first leads =
    let bound = small_power d.bits fewer in
    let taken = shift-in d.shift to_idle (omega arith) in ground (arith, taken, pow-suc 2 d.bits)

transition-IsSound :
    (d : Decoder) (level : Bool)
    → d.status ≡ busy
    → IsFramed d
    → level ≢ d.last_level
    → IsSound (
        transition
          (record d { since = 0; last_level = level })
          ((d.since + 1) % 65536)
          (d.last_level && not level))
unfolding transition fail
transition-IsSound d level b f moved = ground (
  arith,
  f.fewer,
  f.fits,
  f.begins,
  f.leads,
  take_middle-IsSound (record d { since = 0; last_level = level }) (d.last_level && not level) b
      f.fewer f.fits,
)

push_busy-IsSound :
    (d : Decoder) (level : Bool) → d.status ≡ busy → IsFramed d → IsSound (push_busy d level)
unfolding push_busy fail
push_busy-IsSound d level b f =
    ground (arith, f.fewer, f.fits, f.begins, f.leads, transition-IsSound d level b f)

push-IsSound : (d : Decoder) (level : Bool) → IsSound d → IsSound (push d level)
unfolding push push_idle
push-IsSound d level s = ground (arith, push_busy-IsSound d level)

sample-IsSound : (d : Decoder) (ls : List Bool) → IsSound d → IsSound (sample d ls)
unfolding sample
sample-IsSound d [] s = s
sample-IsSound d (l ∷ ls) s = sample-IsSound (push d l) ls (push-IsSound d l s)

reset-IsSound : IsSound reset
unfolding reset
reset-IsSound = ground arith

-- A frame is DONE only with all of its 34 bits, whatever was on the line since the reset: a start
-- bit of one, the 32 bits of the payload and a stop bit of one. No check of the start bit is
-- needed for it.
pub done_is_framed :
    (ls : List Bool)
    → let d = sample reset ls in
      d.status ≡ done
      → (d.bits ≡ 34) × (payload d < 4294967296) × (d.shift ≡ 8589934592 + payload d * 2 + 1)
unfolding payload
done_is_framed ls e =
    let d = sample reset ls in
    let f = (sample-IsSound reset ls reset-IsSound).1 e in
    ground (arith, f.all, f.fits, f.starts, f.stops, and_mask 32 (d.shift / 2))
