-- ===== src/Prelude/Word.antt =====
-- uint32_t and uint16_t arithmetic on native numbers: the wrap and the saturation written out.
use opentherm_thermostat_fir.Prelude.{ℕ, ◌+◌, ◌-◌, ◌%◌, ltb, if◌then◌else◌}

abbrev pub u16_max : ℕ
u16_max = 65535

abbrev pub u32_max : ℕ
u32_max = 4294967295

abbrev pub u32_mod : ℕ
u32_mod = 4294967296

abbrev pub u32 : ℕ → ℕ
u32 n = n % u32_mod

-- a - b of two uint32_t moments: right across the wrap of the millisecond clock.
abbrev pub sub32 : ℕ → ℕ → ℕ
sub32 a b = (a + u32_mod - b) % u32_mod

-- Saturating uint32_t addition: otc_add_sat() of ot_control_failsafe.c, add_sat() of ot_sensor.c.
unfoldable pub add_sat : ℕ → ℕ → ℕ
add_sat a b = if ltb (u32_max - b) a then u32_max else a + b
