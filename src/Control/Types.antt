-- ===== src/Control/Types.antt =====
-- components/ot_control/include/ot_control.h: the executor's data.
use opentherm_thermostat_fir.Prelude.{ℕ, Bool, true, false}
use opentherm_thermostat_fir.Prelude.Int.{ℤ}

pub data Mode : Type 0 where
  local ha : Mode

pub data Origin : Type 0 where
  web ha : Origin

-- The ladder, in its order of priority.
pub data ControlState : Type 0 where
  season_off boost local ha_waiting failsafe ha : ControlState

pub data Reason : Type 0 where
  none watchdog ha_blind fs_disarmed fs_blind fs_room_cold fs_room_warm : Reason
  min_cycle await_setpoint : Reason

-- `unknown n` is any other value that a caller casts to the enum.
pub data Cmd : Type 0 where
  ch_enable ch_setpoint dhw_enable dhw_setpoint season : Cmd
  unknown : ℕ → Cmd

pub data ControlErr : Type 0 where
  ok owned_by_ha owned_by_local season_on_is_local out_of_range : ControlErr
  season_is_off bad_minutes : ControlErr

abbrev pub is_ha : Mode → Bool
is_ha Mode.ha = true
is_ha Mode.local = false

abbrev pub is_failsafe : ControlState → Bool
is_failsafe ControlState.failsafe = true
is_failsafe _ = false

-- The `_dc` fields are tenths of a degree.
pub record Cfg : Type 0 where
  pub mode : Mode
  pub heating_season : Bool
  pub watchdog_s : ℕ
  pub failsafe_setpoint_dc : ℤ
  pub failsafe_room_target_dc : ℤ
  pub failsafe_heat_days : ℕ
  pub failsafe_min_cycle_s : ℕ
  pub flow_min_dc : ℤ
  pub flow_max_dc : ℤ
  pub local_ch_enable : Bool
  pub local_ch_setpoint_dc : ℤ
  pub dhw_enable : Bool
  pub dhw_setpoint_set : Bool
  pub dhw_setpoint_dc : ℤ

pub record ControlIn : Type 0 where
  pub room_fresh : Bool
  pub room_dc : ℤ
  pub ha_forwarded_stale : Bool
  pub dhw_readback_valid : Bool
  pub dhw_readback_dc : ℤ
  pub setpoint_confirmed : Bool
  pub confirmed_dc : ℤ

pub record Restore : Type 0 where
  pub overdue_valid : Bool
  pub overdue_ms : ℕ
  pub heat_hours : ℕ
  pub hh_valid : Bool
  pub hh_ms : ℕ

-- `struct ot_control`.
pub record Control : Type 0 where
  pub seen_ha : Bool
  pub seen_season : Bool
  pub last_step_ms : ℕ
  pub state : ControlState
  pub ha_heard : Bool
  pub ha_ch_enable : Bool
  pub ha_setpoint_dc : ℤ
  pub overdue_ms : ℕ
  pub blind : Bool
  pub fs_latched : Bool
  pub fs_want : Bool
  pub fs_cause : Reason
  pub fs_ms : ℕ
  pub failsafe_count : ℕ
  pub last_failsafe_duration_s : ℕ
  pub heat_hours : ℕ
  pub hh_ms : ℕ
  pub hh_dirty : Bool
  pub held_dc : ℤ
  pub confirmed : Bool
  pub ok_age_ms : ℕ
  pub ch_out : Bool
  pub ch_age_ms : ℕ
  pub dhw_target_dc : ℤ
  pub dhw_tries : ℕ
  pub dhw_age_ms : ℕ
  pub dhw_reopen : Bool
  pub dhw_reopen_dc : ℤ
  pub dhw_unread_once : Bool
  pub boost_active : Bool
  pub boost_setpoint_dc : ℤ
  pub boost_expires_ms : ℕ

pub record Persist : Type 0 where
  pub any : Bool
  pub set_local_ch_enable : Bool
  pub local_ch_enable : Bool
  pub set_local_ch_setpoint : Bool
  pub local_ch_setpoint_dc : ℤ
  pub set_dhw_enable : Bool
  pub dhw_enable : Bool
  pub set_dhw_setpoint : Bool
  pub dhw_setpoint_dc : ℤ
  pub set_heating_season : Bool
  pub heating_season : Bool

pub record ControlOut : Type 0 where
  pub status_high : ℕ
  pub held_setpoint_dc : ℤ
  pub send_setpoint : Bool
  pub send_dhw_setpoint : Bool
  pub state : ControlState
  pub reason : Reason
  pub cause : Reason
  pub overdue_ms : ℕ
  pub hh_ms : ℕ
  pub persist_heat_hours : Bool
  pub heat_hours : ℕ
  pub failsafe_count : ℕ
  pub last_failsafe_duration_s : ℕ
