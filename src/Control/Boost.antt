-- ===== src/Control/Boost.antt =====
-- components/ot_control/ot_control_boost.c: the boost, row 2 of the ladder.
use opentherm_thermostat_fir.Prelude.{
  ℕ, ◌+◌, ◌*◌, ◌/◌, Bool, true, false, not, ◌||◌, ltb, ◌==◌, if◌then◌else◌,
}
use opentherm_thermostat_fir.Prelude.Word.{u32, sub32}
use opentherm_thermostat_fir.Prelude.Int.{ℤ, pos, ltb_ℤ}
use opentherm_thermostat_fir.Control.Types.{
  Cfg, Control, ControlErr, ok, owned_by_ha, season_is_off, bad_minutes, out_of_range,
}

abbrev pub ms_per_minute : ℕ
ms_per_minute = 60000

abbrev pub boost_max_minutes : ℕ
boost_max_minutes = 480

-- `(int32_t)(now_ms - t_ms) >= 0`: the unsigned difference lies in the lower half.
unfoldable pub reached : ℕ → ℕ → Bool
reached now_ms t_ms = ltb (sub32 now_ms t_ms) 2147483648

unfoldable pub boost_start : Control → Cfg → ℤ → ℕ → ℕ → Control × ControlErr
boost_start c cfg setpoint_dc minutes now_ms =
    if c.seen_ha
    then (c, owned_by_ha)
    else if not c.seen_season
    then (c, season_is_off)
    else if minutes == 0 || ltb boost_max_minutes minutes
    then (c, bad_minutes)
    else if ltb_ℤ setpoint_dc cfg.flow_min_dc || ltb_ℤ cfg.flow_max_dc setpoint_dc
    then (c, out_of_range)
    else (
      record c {
        boost_active = true;
        boost_setpoint_dc = setpoint_dc;
        boost_expires_ms = u32 (now_ms + u32 (minutes * ms_per_minute));
      },
      ok,
    )

unfoldable pub boost_cancel : Control → Control
boost_cancel c = record c { boost_active = false; boost_setpoint_dc = pos 0; boost_expires_ms = 0 }

unfoldable pub boost_remaining_s : Control → ℕ → ℕ
boost_remaining_s c now_ms =
    if not c.boost_active || reached now_ms c.boost_expires_ms
    then 0
    else u32 (sub32 c.boost_expires_ms now_ms + 999) / 1000

unfoldable pub boost_expire : Control → ℕ → Control
boost_expire c now_ms = if reached now_ms c.boost_expires_ms then boost_cancel c else c
