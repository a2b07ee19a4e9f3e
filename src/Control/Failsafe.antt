-- ===== src/Control/Failsafe.antt =====
-- The ladder and the failsafe: ladder() and track_failsafe() of components/ot_control/ot_control.c,
-- otc_failsafe_ch() of ot_control_failsafe.c.
use opentherm_thermostat_fir.Prelude.{
  ◌+◌, ◌*◌, ◌/◌, Bool, true, false, not, differ, ◌&&◌, ◌||◌, ltb, leb, if◌then◌else◌,
}
use opentherm_thermostat_fir.Prelude.Word.{u32}
use opentherm_thermostat_fir.Prelude.Int.{pos, ◌+ℤ◌, ◌-ℤ◌, leb_ℤ}
use opentherm_thermostat_fir.Control.Types.{
  Cfg, Control, ControlIn, ControlState, Reason, boost, season_off, ha_waiting, failsafe,
  is_failsafe,
}
use opentherm_thermostat_fir.Control.Clock.{heat_limit_h}

-- First match wins.
unfoldable pub ladder : Control → Cfg → Bool → ControlState
ladder c cfg expired =
    if not cfg.heating_season
    then season_off
    else if not c.seen_ha
    then (if c.boost_active then boost else ControlState.local)
    else if not c.ha_heard && not expired
    then ha_waiting
    else if c.fs_latched || (expired || c.blind)
    then failsafe
    else ControlState.ha

-- The entry of track_failsafe(): it counts, and starts the duration and the hysteresis.
unfoldable pub enter_failsafe : Control → Control
enter_failsafe c = record c {
  failsafe_count = u32 (c.failsafe_count + 1);
  fs_ms = 0;
  fs_want = c.ch_out;
}

unfoldable pub track_failsafe : Control → ControlState → ControlState → Bool → Control
track_failsafe c prev s expired =
    if not (is_failsafe s)
    then (if is_failsafe prev then record c { last_failsafe_duration_s = c.fs_ms / 1000 } else c)
    else let entered = if not (is_failsafe prev) then enter_failsafe c else c in
      record entered {
        fs_latched = true;
        fs_cause =
            if expired then Reason.watchdog else (if c.blind then Reason.ha_blind else Reason.none);
      }

-- The hysteresis of otc_failsafe_ch(): both edges inclusive, the last verdict inside the band.
unfoldable pub hysteresis : Control → Cfg → ControlIn → Bool
hysteresis c cfg inp =
    if leb_ℤ inp.room_dc (cfg.failsafe_room_target_dc -ℤ pos 3)
    then true
    else if leb_ℤ (cfg.failsafe_room_target_dc +ℤ pos 3) inp.room_dc
    then false
    else c.fs_want

-- The bit that a fresh room source asks for, held by the minimum cycle.
unfoldable pub cycled : Control → Cfg → Bool → Bool × Reason
cycled c cfg want =
    if differ want c.ch_out && ltb c.ch_age_ms (cfg.failsafe_min_cycle_s * 1000)
    then (c.ch_out, Reason.min_cycle)
    else (want, (if want then Reason.fs_room_cold else Reason.fs_room_warm))

-- otc_failsafe_ch(): the new state, the verdict and its reason.
unfoldable pub failsafe_ch : Control → Cfg → ControlIn → Control × Bool × Reason
failsafe_ch c cfg inp =
    if leb (heat_limit_h cfg) c.heat_hours
    then (record c { fs_want = false }, false, Reason.fs_disarmed)
    else if not inp.room_fresh
    then (record c { fs_want = true }, true, Reason.fs_blind)
    else let want = hysteresis c cfg inp in
      let (bit, reason) = cycled c cfg want in (record c { fs_want = want }, bit, reason)
