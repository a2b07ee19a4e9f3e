-- ===== src/Frame/Examples.antt =====
-- Runs of the frame: a write of 50.0 to ID 1.
use opentherm_thermostat_fir.Prelude.{◌%◌, ◌≡◌, ◌↔◌, some, true, arith, refl}
use opentherm_thermostat_fir.Frame.{
  Frame, write_data, code, msg_type, fold, even_ones, assemble, encode, decode,
}
use opentherm_thermostat_fir.Frame.Codec.{f88_to_float, float_to_f88}
use opentherm_thermostat_fir.Frame.CodecLaws.{f88_kept}
use opentherm_thermostat_fir.Frame.Fixed.{fixed, fixed-IsExact}
use opentherm_thermostat_fir.Frame.Parity.{ones, even_ones_iff}
use opentherm_thermostat_fir.Frame.Fields.{InRange, decode-encode}

abbrev setpoint : Frame
setpoint = record { kind = write_data; data_id = 1; data_value = 12800 }

setpoint-InRange : InRange setpoint
setpoint-InRange = record { id_byte = omega arith; value_word = omega arith }

encode-setpoint : encode setpoint ≡ 0x90013200
unfolding encode assemble even_ones fold code
encode-setpoint = refl

even_ones_iff_example : (even_ones 0x90013200 ≡ true) ↔ (ones 32 0 0x90013200 % 2 ≡ 0)
even_ones_iff_example = even_ones_iff 0x90013200

decode-encode_example : decode (encode setpoint) ≡ some setpoint
decode-encode_example = decode-encode setpoint setpoint-InRange

taken : decode 0x90013200 ≡ some setpoint
unfolding decode even_ones fold msg_type
taken = refl

-- -7.5 degrees.
f88_kept_example : float_to_f88 fixed (f88_to_float fixed 63616) ≡ 63616
f88_kept_example = f88_kept fixed 63616 fixed-IsExact (omega arith)
