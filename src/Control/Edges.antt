-- ===== src/Control/Edges.antt =====
-- components/ot_control/ot_control.c: the entries into HA ownership, and the start.
use opentherm_thermostat_fir.Prelude.{
  ℕ, Bool, false, differ, ◌&&◌, ◌||◌, Option, none, some, if◌then◌else◌,
}
use opentherm_thermostat_fir.Prelude.Int.{pos}
use opentherm_thermostat_fir.Prelude.Word.{u32_max}
use opentherm_thermostat_fir.Control.Types.{Cfg, Control, Reason, Restore, ControlState, is_ha}
use opentherm_thermostat_fir.Control.Boost.{boost_cancel}
use opentherm_thermostat_fir.Control.Bound.{bound}

-- otc_forget_ha().
unfoldable pub forget_ha : Control → Cfg → Control
forget_ha c cfg = record c {
  ha_heard = false;
  ha_ch_enable = false;
  ha_setpoint_dc = cfg.failsafe_setpoint_dc;
  fs_latched = false;
}

-- The mode edge of observe(): it ends a boost.
unfoldable pub see_mode : Control → Cfg → Control
see_mode c cfg =
    if differ (is_ha cfg.mode) c.seen_ha
    then record (boost_cancel c) { seen_ha = is_ha cfg.mode }
    else c

-- What observe() computes in `entry`: LOCAL to HA, or the season off to on while in HA mode.
unfoldable pub is_entry : Control → Cfg → Bool
is_entry c cfg =
    let ha = is_ha cfg.mode in
    let entry = if differ ha c.seen_ha then ha else false in
    if differ cfg.heating_season c.seen_season then entry || (cfg.heating_season && ha) else entry

-- observe().
unfoldable pub observe : Control → Cfg → Control
observe c cfg =
    let seen = record (see_mode c cfg) { seen_season = cfg.heating_season } in
    if is_entry c cfg then forget_ha seen cfg else seen

-- `memset(c, 0, sizeof *c)`.
abbrev pub zeroed : Control
zeroed = record {
  seen_ha = false;
  seen_season = false;
  last_step_ms = 0;
  state = ControlState.season_off;
  ha_heard = false;
  ha_ch_enable = false;
  ha_setpoint_dc = pos 0;
  overdue_ms = 0;
  blind = false;
  fs_latched = false;
  fs_want = false;
  fs_cause = Reason.none;
  fs_ms = 0;
  failsafe_count = 0;
  last_failsafe_duration_s = 0;
  heat_hours = 0;
  hh_ms = 0;
  hh_dirty = false;
  held_dc = pos 0;
  confirmed = false;
  ok_age_ms = 0;
  ch_out = false;
  ch_age_ms = 0;
  dhw_target_dc = pos 0;
  dhw_tries = 0;
  dhw_age_ms = 0;
  dhw_reopen = false;
  dhw_reopen_dc = pos 0;
  dhw_unread_once = false;
  boost_active = false;
  boost_setpoint_dc = pos 0;
  boost_expires_ms = 0;
}

-- The part of ot_control_init() under `if (r)`.
unfoldable pub restore : Control → Option Restore → Control
restore c none = c
restore c (some r) = record c {
  overdue_ms = if r.overdue_valid then r.overdue_ms else 0;
  heat_hours = r.heat_hours;
  hh_ms = if r.hh_valid then r.hh_ms else 0;
}

-- ot_control_init(). `ch_age_ms` starts at "no change known".
unfoldable pub init : Cfg → Option Restore → ℕ → Control
init cfg r now_ms =
    let booted =
      forget_ha
        (record zeroed {
          dhw_unread_once = cfg.dhw_setpoint_set;
          seen_ha = is_ha cfg.mode;
          seen_season = cfg.heating_season;
          last_step_ms = now_ms;
        })
        cfg in
    record (restore booted r) { held_dc = bound cfg cfg.failsafe_setpoint_dc; ch_age_ms = u32_max }
