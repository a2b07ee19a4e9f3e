-- ===== src/Frame/Numbers.antt =====
-- What components/ot_frame/ot_codec.c, components/ot_state and components/ot_command use of the C type float and of
-- math.h.
use opentherm_thermostat_fir.Prelude.{ℕ, Bool}
use opentherm_thermostat_fir.Prelude.Int.{ℤ}

pub record Numbers : Type 1 where
  pub Float : Type 0
  -- NAN
  pub nan : Float
  pub isnan : Float → Bool
  pub isfinite : Float → Bool
  -- `a == b` and `a < b`
  pub equal : Float → Float → Bool
  pub less : Float → Float → Bool
  -- The conversion of an integer that fits 24 bits, and every literal of an integer.
  pub of_int : ℤ → Float
  -- A literal with one digit after the point, in tenths.
  pub tenths : ℤ → Float
  -- `x / 256.0f` and `x * 256.0f`
  pub div_256 : Float → Float
  pub mul_256 : Float → Float
  -- `x * 10.0f`, `x / 10.0f`, `x + 0.5f` and `x - 0.5f`
  pub mul_10 : Float → Float
  pub div_10 : Float → Float
  pub add_half : Float → Float
  pub sub_half : Float → Float
  -- `a <= b`
  pub at_most : Float → Float → Bool
  -- A literal n + 0.5f, in halves.
  pub halves : ℤ → Float
  -- The casts to uint16_t and int16_t of a value that fits.
  pub as_u16 : Float → ℕ
  pub as_s16 : Float → ℤ
  pub lroundf : Float → ℤ
  pub lrintf : Float → ℤ
  pub floorf : Float → Float
