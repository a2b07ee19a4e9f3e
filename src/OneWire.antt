-- ===== src/OneWire.antt =====
-- components/ot_onewire_decode/ot_onewire_decode.c: the scratchpad of a DS18B20.
pub mod Detects
mod Examples
use opentherm_thermostat_fir.Prelude.{
  ℕ, zero, suc, ◌+◌, ◌*◌, ◌/◌, ◌%◌, Bool, ◌==◌, get_or, take, List, [], ◌∷◌, if◌then◌else◌,
}
use opentherm_thermostat_fir.Prelude.Bits.{bit_xor}
use opentherm_thermostat_fir.Prelude.Int.{ℤ}
use opentherm_thermostat_fir.Frame.Codec.{s16}

-- One round of the inner loop: the reflected polynomial goes in on a set low bit.
unfoldable pub shift_out : ℕ → ℕ
shift_out crc = if crc % 2 == 1 then bit_xor (crc / 2) 140 else crc / 2

-- The inner loop with `n` rounds to go.
unfoldable pub rounds : ℕ → ℕ → ℕ
rounds zero crc = crc
rounds (suc n) crc = rounds n (shift_out crc)

-- The outer loop from a checksum on.
unfoldable pub crc_from : ℕ → List ℕ → ℕ
crc_from crc [] = crc
crc_from crc (d ∷ ds) = crc_from (rounds 8 (bit_xor crc d)) ds

unfoldable pub crc8 : List ℕ → ℕ
crc8 ds = crc_from 0 ds

unfoldable pub scratchpad_crc_ok : List ℕ → Bool
scratchpad_crc_ok scratchpad = crc8 (take 8 scratchpad) == get_or scratchpad 8 0

-- The count in sixteenths of a degree.
unfoldable pub temp_raw : ℕ → ℕ → ℤ
temp_raw lsb msb = s16 (msb * 256 + lsb)
