-- ===== src/Control/Names.antt =====
-- components/ot_control/ot_control_names.c: the words of the states and the reasons. A value that
-- is no enumerator is none.
use Prim.Native.String.{String}
use opentherm_thermostat_fir.Prelude.{Option, none, some}
use opentherm_thermostat_fir.Control.Types.{
  ControlState, Reason, season_off, boost, ha_waiting, failsafe,
}

unfoldable pub state_name : Option ControlState → String
state_name none = "unknown"
state_name (some season_off) = "season_off"
state_name (some boost) = "boost"
state_name (some ControlState.local) = "local"
state_name (some ha_waiting) = "ha_waiting"
state_name (some failsafe) = "failsafe"
state_name (some ControlState.ha) = "ha"

unfoldable pub reason_name : Option Reason → String
reason_name none = "unknown"
reason_name (some Reason.none) = "none"
reason_name (some Reason.watchdog) = "watchdog"
reason_name (some Reason.ha_blind) = "ha_blind"
reason_name (some Reason.fs_disarmed) = "fs_disarmed"
reason_name (some Reason.fs_blind) = "fs_blind"
reason_name (some Reason.fs_room_cold) = "fs_room_cold"
reason_name (some Reason.fs_room_warm) = "fs_room_warm"
reason_name (some Reason.min_cycle) = "min_cycle"
reason_name (some Reason.await_setpoint) = "await_setpoint"
