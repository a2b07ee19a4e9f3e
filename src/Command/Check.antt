-- ===== src/Command/Check.antt =====
-- components/ot_command/ot_command_check.c: a write with its origin.
use opentherm_thermostat_fir.Prelude.{
  ℕ, Bool, true, false, not, ◌&&◌, ◌||◌, ◌==◌, List, Option, none, some, if◌then◌else◌,
}
use opentherm_thermostat_fir.Prelude.Int.{ℤ, pos, negsuc, leb_ℤ}
use opentherm_thermostat_fir.Frame.Numbers.{Numbers}
use opentherm_thermostat_fir.Registry.Types.{Entity}
use opentherm_thermostat_fir.Registry.Lookup.{by_key}
use opentherm_thermostat_fir.State.Model.{State}
use opentherm_thermostat_fir.State.Virtual.{is_unsupported}
use opentherm_thermostat_fir.Control.Types.{Cfg, Origin, Cmd, ControlErr}
use opentherm_thermostat_fir.Control.Command
use opentherm_thermostat_fir.Command.Encode.{
  CmdErr, unknown_key, not_writable, out_of_range, unsupported_by_boiler, owned_by_ha,
  owned_by_local, season_on_is_local, not_for_ha, Encoded, encoded, encode, write_id,
}

-- The answer and, where it is OT_CMD_OK, `ot_command_out_t`.
pub data Judged : Type 0 where
  refused : CmdErr → Judged
  frame : ℕ → ℕ → Judged
  control : Cmd → ℤ → Judged

-- The cast to `ot_control_cmd_t`.
unfoldable pub cmd_of : ℕ → Cmd
cmd_of n =
    if n == 1
    then Cmd.ch_enable
    else if n == 2
    then Cmd.ch_setpoint
    else if n == 3
    then Cmd.dhw_enable
    else if n == 4
    then Cmd.dhw_setpoint
    else if n == 5
    then Cmd.season
    else Cmd.unknown n

abbrev pub is_ch_setpoint : Cmd → Bool
is_ch_setpoint Cmd.ch_setpoint = true
is_ch_setpoint _ = false

abbrev pub is_dhw_setpoint : Cmd → Bool
is_dhw_setpoint Cmd.dhw_setpoint = true
is_dhw_setpoint _ = false

unfoldable pub is_temperature : Cmd → Bool
is_temperature cmd = is_ch_setpoint cmd || is_dhw_setpoint cmd

-- `none` for false.
unfoldable pub to_control_value : (fl : Numbers) → Cmd → fl.Float → Option ℤ
to_control_value fl cmd value =
    let scaled = if is_temperature cmd then fl.mul_10 value else value in
    if not (fl.isfinite value)
      || (not (is_temperature cmd) && not (fl.equal scaled (fl.floorf scaled)))
    then none
    else if fl.at_most scaled (fl.halves (negsuc 65536))
        || fl.at_most (fl.halves (pos 65535)) scaled
    then none
    else some (fl.lroundf scaled)

-- OT_CMD_OK is none.
unfoldable pub from_control : ControlErr → Option CmdErr
from_control ControlErr.ok = none
from_control ControlErr.owned_by_ha = some owned_by_ha
from_control ControlErr.owned_by_local = some owned_by_local
from_control ControlErr.season_on_is_local = some season_on_is_local
from_control _ = some out_of_range

-- A frame of an entity that is no input of the executor.
unfoldable pub as_frame : Origin → Encoded → Judged
as_frame origin (Encoded.refused err) = refused err
as_frame Origin.ha (encoded id raw) = refused not_for_ha
as_frame Origin.web (encoded id raw) = frame id raw

-- The executor's own answer.
unfoldable pub as_control : Cfg → Origin → Cmd → ℤ → Judged
as_control cfg origin cmd v = elim (from_control (Command.check cfg origin cmd v)) [
  | none ↦ control cmd v
  | some err ↦ refused err
]

-- The boiler's bounds of a DHW setpoint; the frame is thrown away.
unfoldable pub after_encode : Encoded → Judged → Judged
after_encode (Encoded.refused err) next = refused err
after_encode (encoded id raw) next = next

module _ {fl : Numbers} where
  unfoldable pub check_command :
      List (Entity fl) → State fl → List ℕ → Origin → Cfg → Cmd → Option ℤ → Judged
  check_command table s key origin cfg cmd none = refused out_of_range
  check_command table s key origin cfg cmd (some v) =
      let next = as_control cfg origin cmd v in
      if is_dhw_setpoint cmd
      then after_encode (encode table s key (fl.div_10 (fl.of_int v))) next
      else next

  unfoldable pub check_entity :
      List (Entity fl) → State fl → List ℕ → Entity fl → fl.Float → Origin → Cfg → Judged
  check_entity table s key e value origin cfg =
      let cmd = cmd_of e.control in
      if e.control == 0
      then as_frame origin (encode table s key value)
      else if not e.writable
      then refused not_writable
      else if leb_ℤ (pos 0) e.data_id && (not (is_ch_setpoint cmd) && is_unsupported s (write_id e))
      then refused unsupported_by_boiler
      else check_command table s key origin cfg cmd (to_control_value fl cmd value)

  unfoldable pub check_found :
      List (Entity fl) → State fl → List ℕ → Option (Entity fl) → fl.Float → Origin → Cfg → Judged
  check_found table s key none value origin cfg = refused unknown_key
  check_found table s key (some e) value origin cfg = check_entity table s key e value origin cfg

  unfoldable pub check : List (Entity fl) → State fl → List ℕ → fl.Float → Origin → Cfg → Judged
  check table s key value origin cfg =
      check_found table s key (by_key table (some key)) value origin cfg
