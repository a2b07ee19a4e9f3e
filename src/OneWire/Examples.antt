-- ===== src/OneWire/Examples.antt =====
-- A scratchpad of 25.0625 degrees with one byte spoiled.
use opentherm_thermostat_fir.Prelude.{ℕ, ◌≢◌, arith, List, [], ◌∷◌, ◌++◌}
use opentherm_thermostat_fir.OneWire.{crc8}
use opentherm_thermostat_fir.OneWire.Detects.{spoiled_byte_seen}

abbrev rest_of_pad : List ℕ
rest_of_pad = 75 ∷ 70 ∷ 127 ∷ 255 ∷ 12 ∷ 16 ∷ []

spoiled_byte_seen_example :
    crc8 ((145 ∷ []) ++ (1 ∷ rest_of_pad)) ≢ crc8 ((145 ∷ []) ++ (3 ∷ rest_of_pad))
spoiled_byte_seen_example =
    spoiled_byte_seen 1 3 (145 ∷ []) rest_of_pad (ground arith) (omega arith) (omega arith)
      (omega arith, tt) (ground arith)
