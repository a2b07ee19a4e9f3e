-- ===== src/Command/Encode.antt =====
-- components/ot_command/ot_command.c: a value as a frame.
use opentherm_thermostat_fir.Prelude.{ℕ, ◌%◌, not, ◌||◌, List, Option, none, some, if◌then◌else◌}
use opentherm_thermostat_fir.Prelude.Int.{pos, negsuc, leb_ℤ, pos_part}
use opentherm_thermostat_fir.Frame.Numbers.{Numbers}
use opentherm_thermostat_fir.Frame.Codec.{float_to_f88, to_u16}
use opentherm_thermostat_fir.Registry.Types.{Entity, CodecKind}
use opentherm_thermostat_fir.Registry.Lookup.{by_key}
use opentherm_thermostat_fir.State.Model.{State}
use opentherm_thermostat_fir.State.Virtual.{bounds, is_unsupported}

-- The refusals of `ot_command_err_t`.
pub data CmdErr : Type 0 where
  unknown_key not_writable out_of_range unsupported_by_boiler half_word_codec owned_by_ha : CmdErr
  owned_by_local season_on_is_local not_for_ha : CmdErr

-- The answer and, where it is OT_CMD_OK, the frame.
pub data Encoded : Type 0 where
  refused : CmdErr → Encoded
  encoded : ℕ → ℕ → Encoded

-- The cast to uint8_t included.
unfoldable pub write_id : {fl : Numbers} → Entity fl → ℕ
write_id e =
    if leb_ℤ (pos 0) e.write_id then pos_part e.write_id % 256 else pos_part e.data_id % 256

-- The switch over the codec.
unfoldable pub encode_raw : (fl : Numbers) → CodecKind → fl.Float → ℕ → Encoded
encode_raw fl CodecKind.f88 value id = encoded id (float_to_f88 fl value)
encode_raw fl CodecKind.u16 value id =
    if fl.less value (fl.of_int (pos 0)) || fl.less (fl.of_int (pos 65535)) value
    then refused out_of_range
    else encoded id (fl.as_u16 (fl.add_half value))
encode_raw fl CodecKind.s16 value id =
    if fl.less value (fl.of_int (negsuc 32767)) || fl.less (fl.of_int (pos 32767)) value
    then refused out_of_range
    else encoded id (
        to_u16 (
          fl.as_s16
            (if fl.less value (fl.of_int (pos 0)) then fl.sub_half value else fl.add_half value)))
encode_raw fl _ value id = refused half_word_codec

-- The bounds in force; none where the entity declares no range.
unfoldable pub encode_within :
    (fl : Numbers) → Option (fl.Float × fl.Float) → CodecKind → fl.Float → ℕ → Encoded
encode_within fl none codec value id = refused out_of_range
encode_within fl (some (lo, hi)) codec value id =
    if fl.less value lo || fl.less hi value
    then refused out_of_range
    else encode_raw fl codec value id

module _ {fl : Numbers} where
  unfoldable pub encode_entity :
      List (Entity fl) → State fl → List ℕ → Entity fl → fl.Float → Encoded
  encode_entity table s key e value =
      if not e.writable || not (leb_ℤ (pos 0) e.data_id)
      then refused not_writable
      else if is_unsupported s (write_id e)
      then refused unsupported_by_boiler
      else if not (fl.isfinite value)
      then refused out_of_range
      else encode_within fl (bounds table s (some key)) e.codec value (write_id e)

  unfoldable pub encode_found :
      List (Entity fl) → State fl → List ℕ → Option (Entity fl) → fl.Float → Encoded
  encode_found table s key none value = refused unknown_key
  encode_found table s key (some e) value = encode_entity table s key e value

  unfoldable pub encode : List (Entity fl) → State fl → List ℕ → fl.Float → Encoded
  encode table s key value = encode_found table s key (by_key table (some key)) value
