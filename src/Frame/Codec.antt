-- ===== src/Frame/Codec.antt =====
-- components/ot_frame/ot_codec.c: the sixteen bits of a frame read as a value.
use opentherm_thermostat_fir.Prelude.{ℕ, ◌-◌, ◌/◌, ◌%◌, ◌^◌, Bool, not, ltb, ◌==◌, if◌then◌else◌}
use opentherm_thermostat_fir.Prelude.Bits.{bit_and}
use opentherm_thermostat_fir.Prelude.Int.{ℤ, pos, negsuc}
use opentherm_thermostat_fir.Frame.Numbers.{Numbers}

-- `(int16_t)raw` of a uint16_t.
unfoldable pub s16 : ℕ → ℤ
s16 raw = if ltb raw 32768 then pos raw else negsuc (65535 - raw)

-- `(int8_t)` of a uint8_t.
unfoldable pub as_s8 : ℕ → ℤ
as_s8 byte = if ltb byte 128 then pos byte else negsuc (255 - byte)

unfoldable pub u8_hb : ℕ → ℕ
u8_hb raw = raw / 256 % 256

unfoldable pub u8_lb : ℕ → ℕ
u8_lb raw = bit_and raw 255

unfoldable pub s8_hb : ℕ → ℤ
s8_hb raw = as_s8 (raw / 256 % 256)

unfoldable pub s8_lb : ℕ → ℤ
s8_lb raw = as_s8 (bit_and raw 255)

unfoldable pub flag : ℕ → Bool → ℕ → Bool
flag raw high_byte bit =
    let byte = if high_byte then raw / 256 % 256 else bit_and raw 255 in
    not (bit_and (byte / 2 ^ bit_and bit 7) 1 == 0)

-- `(uint16_t)(int16_t)` of an integer.
unfoldable pub to_u16 : ℤ → ℕ
to_u16 (pos n) = n % 65536
to_u16 (negsuc n) = 65535 - n % 65536

module _ (fl : Numbers) where
  unfoldable pub f88_to_float : ℕ → fl.Float
  f88_to_float raw = fl.div_256 (fl.of_int (s16 raw))

  unfoldable pub float_to_f88 : fl.Float → ℕ
  float_to_f88 value =
      let scaled = fl.mul_256 value in
      if not (fl.isfinite value)
      then 0
      else if fl.less (fl.of_int (pos 32767)) scaled
      then 32767
      else if fl.less scaled (fl.of_int (negsuc 32767))
      then 32768
      else to_u16 (fl.lrintf scaled)
