-- ===== src/Room/Floats.antt =====
-- What the sources use of the C type float and of math.h.
use opentherm_thermostat_fir.Prelude.{Bool}
use opentherm_thermostat_fir.Prelude.Int.{ℤ}

-- The constants are those of the sources' literals: NAN, -40.0f, 60.0f, 5.0f and 10.0f.
pub record Floats : Type 1 where
  pub Float : Type 0
  pub nan : Float
  pub min_c : Float
  pub max_c : Float
  pub max_jump_c : Float
  pub ten : Float
  pub isfinite : Float → Bool
  pub less : Float → Float → Bool
  pub minus : Float → Float → Float
  pub times : Float → Float → Float
  pub fabsf : Float → Float
  pub lroundf : Float → ℤ
