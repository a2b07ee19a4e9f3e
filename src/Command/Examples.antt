-- ===== src/Command/Examples.antt =====
-- Two writes over the list of the firmware: a maximum modulation and a flow setpoint.
use opentherm_thermostat_fir.Prelude.{ℕ, ◌≡◌, refl, List, some}
use opentherm_thermostat_fir.Prelude.Int.{pos, ◌*ℤ◌, ◌+ℤ◌}
use opentherm_thermostat_fir.Policy.Text.{bytes, same}
use opentherm_thermostat_fir.Frame.Codec.{float_to_f88, to_u16}
use opentherm_thermostat_fir.Frame.Fixed.{fixed}
use opentherm_thermostat_fir.Registry.Types.{Entity}
use opentherm_thermostat_fir.Registry.Lookup.{get_elem?, find_key, index_of, by_key}
use opentherm_thermostat_fir.Registry.Table.{entities}
use opentherm_thermostat_fir.State.Model.{reset}
use opentherm_thermostat_fir.State.Virtual.{bounds, entity_bounds, is_unsupported}
use opentherm_thermostat_fir.Control.Types.{Origin, Cmd}
use opentherm_thermostat_fir.Control.Command
use opentherm_thermostat_fir.Control.Command.{check_owner, check_value}
use opentherm_thermostat_fir.Command.Encode.{
  encode, encode_found, encode_entity, encode_within, encode_raw, write_id,
}
use opentherm_thermostat_fir.Command.Check.{
  frame, control, cmd_of, to_control_value, is_temperature, from_control, as_frame, as_control,
  check_command, check_entity, check_found, check,
}
use opentherm_thermostat_fir.Command.Legal.{MaySend, only_lawful_sent}
use opentherm_thermostat_fir.Command.Accepted.{MayApply, command_passes_on}
use opentherm_thermostat_fir.Control.Scenes.{local_cfg}

abbrev modulation : List ℕ
modulation = bytes "max_relative_modulation"

sent_modulation :
    check (entities fixed) reset modulation (fixed.of_int (pos 50)) Origin.web local_cfg
    ≡ frame 14 12800
unfolding check check_found check_entity as_frame encode encode_found encode_entity encode_within
    encode_raw write_id by_key index_of find_key same get_elem? bounds entity_bounds is_unsupported
    reset float_to_f88 to_u16
sent_modulation = refl

only_lawful_sent_example :
    (Origin.web ≡ Origin.web)
    × ((e : Entity fixed) × (by_key (entities fixed) (some modulation) ≡ some e)
        × (e.control ≡ 0)
        × MaySend (entities fixed) reset modulation (fixed.of_int (pos 50)) e 14)
only_lawful_sent_example =
    only_lawful_sent (entities fixed) reset modulation (fixed.of_int (pos 50)) Origin.web local_cfg
      14 12800 sent_modulation

abbrev setpoint : List ℕ
setpoint = bytes "ch_setpoint"

passed_setpoint :
    check (entities fixed) reset setpoint (fixed.of_int (pos 55)) Origin.web local_cfg
    ≡ control Cmd.ch_setpoint (pos 550)
unfolding check check_found check_entity check_command as_control from_control cmd_of
    to_control_value is_temperature by_key index_of find_key same get_elem? Command.check
    check_owner check_value ◌*ℤ◌ ◌+ℤ◌
passed_setpoint = refl

command_passes_on_example :
    (e : Entity fixed) × (by_key (entities fixed) (some setpoint) ≡ some e)
    × MayApply
        (entities fixed)
        reset
        setpoint
        (fixed.of_int (pos 55))
        Origin.web
        local_cfg
        Cmd.ch_setpoint
        (pos 550)
        e
command_passes_on_example =
    command_passes_on (entities fixed) reset setpoint (fixed.of_int (pos 55)) Origin.web local_cfg
      Cmd.ch_setpoint (pos 550) passed_setpoint
