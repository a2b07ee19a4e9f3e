-- ===== src/Frame/CodecLaws.antt =====
-- The codecs of components/ot_frame/ot_codec.c against each other.
use opentherm_thermostat_fir.Prelude.{
  ℕ, ◌+◌, ◌*◌, ◌%◌, ◌<◌, ◌≡◌, refl, arith, true, false, ltb, if◌then◌else◌,
}
use opentherm_thermostat_fir.Prelude.Bits.{bit_and, and_mask}
use opentherm_thermostat_fir.Prelude.Int.{pos, negsuc, ltb_ℤ, ◌+ℤ◌, ◌*ℤ◌, sub_ℕ}
use opentherm_thermostat_fir.Frame.Numbers.{Numbers}
use opentherm_thermostat_fir.Frame.Codec.{
  s16, as_s8, u8_hb, u8_lb, s8_hb, s8_lb, to_u16, f88_to_float, float_to_f88,
}

pub low_byte : (raw : ℕ) → bit_and raw 255 ≡ raw % 256
low_byte raw = and_mask 8 raw

-- What IEEE 754 binary32 promises of the integers of 16 bits: they are exact, and scaling them by
-- 256 neither overflows nor loses a digit.
pub record IsExact (fl : Numbers) : Type 0 where
  pub scales : (n : ℕ) → n < 65536 → fl.mul_256 (fl.div_256 (fl.of_int (s16 n))) ≡ fl.of_int (s16 n)
  pub finite : (n : ℕ) → n < 65536 → fl.isfinite (fl.div_256 (fl.of_int (s16 n))) ≡ true
  pub ordered :
      (m n : ℕ)
      → m < 65536
      → n < 65536
      → fl.less (fl.of_int (s16 m)) (fl.of_int (s16 n)) ≡ ltb_ℤ (s16 m) (s16 n)
  pub rounds : (n : ℕ) → n < 65536 → fl.lrintf (fl.of_int (s16 n)) ≡ s16 n

to_u16-s16 : (raw : ℕ) → raw < 65536 → to_u16 (s16 raw) ≡ raw
unfolding s16 to_u16
to_u16-s16 raw h = ground (arith, h)

ends : (s16 32767 ≡ pos 32767) × (s16 32768 ≡ negsuc 32767)
unfolding s16
ends = (refl, refl)

in_range :
    (raw : ℕ)
    → raw < 65536
    → (ltb_ℤ (pos 32767) (s16 raw) ≡ false) × (ltb_ℤ (s16 raw) (negsuc 32767) ≡ false)
unfolding s16
in_range raw h = ground (arith, h)

-- The fixed-point codec loses nothing: every sixteen bits that are read as a temperature are sent
-- again as the same sixteen bits, provided that the C floats of that size are exact.
pub f88_kept :
    (fl : Numbers) (raw : ℕ)
    → IsExact fl
    → raw < 65536
    → float_to_f88 fl (f88_to_float fl raw) ≡ raw
unfolding f88_to_float float_to_f88
f88_kept fl raw e h = ground (
  arith,
  e.scales raw h,
  e.finite raw h,
  e.ordered 32767 raw (omega arith) h,
  e.ordered raw 32768 h (omega arith),
  ends.0,
  ends.1,
  e.rounds raw h,
  in_range raw h,
  to_u16-s16 raw h,
)

-- The bytes of a word determine it, whichever of the two signs they are read with: its value is
-- 256 times the high byte and the low byte, and a signed byte is the byte less 256 where its
-- highest digit is set.
pub bytes_of_word :
    (raw : ℕ)
    → raw < 65536
    → (raw ≡ 256 * u8_hb raw + u8_lb raw)
      × (s16 raw ≡ s8_hb raw *ℤ pos 256 +ℤ pos (u8_lb raw))
      × (s8_lb raw ≡ (if ltb (u8_lb raw) 128 then pos (u8_lb raw) else sub_ℕ (u8_lb raw) 256))
unfolding u8_hb u8_lb s8_hb s8_lb as_s8 s16 ◌+ℤ◌ ◌*ℤ◌
bytes_of_word raw h = ground (arith, h, low_byte raw)
