-- ===== src/Control/Scenes.antt =====
-- Configurations, inputs and executors for the runs of components/ot_control.
use opentherm_thermostat_fir.Prelude.{ℕ, true, false, List, [], ◌∷◌, none}
use opentherm_thermostat_fir.Prelude.Word.{add_sat}
use opentherm_thermostat_fir.Prelude.Int.{pos, ◌+ℤ◌, ◌-ℤ◌, ◌*ℤ◌, ◌/ℤ◌}
use opentherm_thermostat_fir.Control.Types.{
  Mode, Origin, Cfg, Control, ControlIn, Restore, ch_enable, ch_setpoint, dhw_setpoint, season,
}
use opentherm_thermostat_fir.Control.Bound.{bound, quantise}
use opentherm_thermostat_fir.Control.Clock.{advance, advance_ages, count_hours}
use opentherm_thermostat_fir.Control.Boost.{boost_start, boost_cancel, boost_expire, reached}
use opentherm_thermostat_fir.Control.Edges.{forget_ha, see_mode, is_entry, observe, restore, init}
use opentherm_thermostat_fir.Control.Failsafe.{
  ladder, enter_failsafe, track_failsafe, failsafe_ch, hysteresis, cycled,
}
use opentherm_thermostat_fir.Control.Dhw.{dhw_retarget, dhw_take_reopen, dhw_reconcile, dhw_due}
use opentherm_thermostat_fir.Control.Step.{
  prepare, is_expired, decide, hold, gate, set_ch, status_byte, act, step,
}
use opentherm_thermostat_fir.Control.Command.{
  check, check_owner, check_value, heard, ha_enable, carry_out, apply,
}
use opentherm_thermostat_fir.Control.Trace.{Event, tick, command, react, run, report, reports}

-- What a test of the whole step computes with.
unfoldable pub running : Control → Cfg → ControlIn → ℕ → Control
unfolding step prepare advance advance_ages count_hours add_sat observe see_mode is_entry forget_ha
    boost_cancel boost_expire reached is_expired ladder track_failsafe enter_failsafe act decide
    failsafe_ch hysteresis cycled hold gate set_ch status_byte dhw_due dhw_retarget dhw_take_reopen
    dhw_reconcile bound quantise init restore ◌+ℤ◌ ◌-ℤ◌ ◌*ℤ◌ ◌/ℤ◌ apply check check_owner
    check_value carry_out ha_enable heard boost_start run react report reports
running c cfg inp now_ms = (step c cfg inp now_ms).0

abbrev pub ha_cfg : Cfg
ha_cfg = record {
  mode = Mode.ha;
  heating_season = true;
  watchdog_s = 900;
  failsafe_setpoint_dc = pos 452;
  failsafe_room_target_dc = pos 180;
  failsafe_heat_days = 7;
  failsafe_min_cycle_s = 600;
  flow_min_dc = pos 200;
  flow_max_dc = pos 600;
  local_ch_enable = true;
  local_ch_setpoint_dc = pos 400;
  dhw_enable = true;
  dhw_setpoint_set = true;
  dhw_setpoint_dc = pos 503;
}

abbrev pub local_cfg : Cfg
local_cfg = record ha_cfg { mode = Mode.local }

-- The bus has nothing to report, no room source is fresh and none is stale.
abbrev pub quiet_in : ControlIn
quiet_in = record {
  room_fresh = false;
  room_dc = pos 0;
  ha_forwarded_stale = false;
  dhw_readback_valid = false;
  dhw_readback_dc = pos 0;
  setpoint_confirmed = false;
  confirmed_dc = pos 0;
}

-- The bus confirms 45.0 degrees.
abbrev pub confirming : ControlIn
confirming = record quiet_in { setpoint_confirmed = true; confirmed_dc = pos 450 }

abbrev pub booted : Control
booted = init ha_cfg none 0

-- HA asks for heat: the bit stays down until the bus has carried the setpoint, and then rises.
abbrev pub asked : List Event
asked = command ha_cfg Origin.ha ch_enable (pos 1) ∷ tick ha_cfg quiet_in 1000 ∷ []

-- Ten minutes pass in one step, with a DHW command of HA and a web command in between.
abbrev pub silence : List Event
silence =
    tick ha_cfg quiet_in 600000
    ∷ command ha_cfg Origin.ha dhw_setpoint (pos 480)
    ∷ command ha_cfg Origin.web season (pos 1)
    ∷ []

-- A dead controller, never heard since the start.
abbrev pub dead : Control
dead = (step booted ha_cfg quiet_in 900000).0

abbrev pub talk : List Event
talk = command ha_cfg Origin.ha ch_setpoint (pos 500) ∷ tick ha_cfg quiet_in 901000 ∷ []

abbrev pub slower_cfg : Cfg
slower_cfg = record ha_cfg { watchdog_s = 3600 }

abbrev pub at_home : Control
at_home = (step (init local_cfg none 0) local_cfg quiet_in 1000).0

abbrev pub carried : Restore
carried = record {
  overdue_valid = true;
  overdue_ms = 890000;
  heat_hours = 12;
  hh_valid = true;
  hh_ms = 5000;
}

-- The stored setpoint has gone out once, and the boiler answers 50.0 for 50.3.
abbrev pub whole_degrees : ControlIn
whole_degrees = record quiet_in { dhw_readback_valid = true; dhw_readback_dc = pos 500 }

abbrev pub written : Control
written = (step booted ha_cfg whole_degrees 1000).0
