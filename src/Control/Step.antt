-- ===== src/Control/Step.antt =====
-- ot_control_step() of components/ot_control/ot_control.c, as the chain of its parts.
use opentherm_thermostat_fir.Prelude.{
  ℕ, ◌+◌, ◌*◌, Bool, true, false, not, differ, ◌&&◌, ◌||◌, leb, if◌then◌else◌,
}
use opentherm_thermostat_fir.Prelude.Word.{sub32}
use opentherm_thermostat_fir.Prelude.Int.{ℤ, eqb_ℤ}
use opentherm_thermostat_fir.Control.Types.{
  Cfg, Control, ControlIn, ControlOut, ControlState, Reason, boost, failsafe, is_failsafe, is_ha,
}
use opentherm_thermostat_fir.Control.Bound.{bound}
use opentherm_thermostat_fir.Control.Clock.{advance}
use opentherm_thermostat_fir.Control.Edges.{observe}
use opentherm_thermostat_fir.Control.Boost.{boost_expire}
use opentherm_thermostat_fir.Control.Failsafe.{ladder, track_failsafe, failsafe_ch}
use opentherm_thermostat_fir.Control.Dhw.{dhw_due}

abbrev pub resend_ms : ℕ
resend_ms = 10000

-- The clocks, then the edges, the boost's deadline and the blind input. The flag is `hour_done`.
unfoldable pub prepare : Control → Cfg → ControlIn → ℕ → Control × Bool
prepare c cfg inp now_ms =
    let (timed, hour_done) =
      advance (record c { last_step_ms = now_ms }) cfg (sub32 now_ms c.last_step_ms) in
    (record (boost_expire (observe timed cfg) now_ms) { blind = inp.ha_forwarded_stale }, hour_done)

unfoldable pub is_expired : Control → Cfg → Bool
is_expired c cfg = leb (cfg.watchdog_s * 1000) c.overdue_ms

-- What the state wants, and the state in which it is wanted.
pub record Wish : Type 0 where
  pub core : Control
  pub want : Bool
  pub target : ℤ
  pub reason : Reason

-- The switch over the state.
unfoldable pub decide : Control → Cfg → ControlIn → ControlState → Wish
decide c cfg inp boost = record {
  core = c;
  want = true;
  target = c.boost_setpoint_dc;
  reason = Reason.none;
}
decide c cfg inp ControlState.local = record {
  core = c;
  want = cfg.local_ch_enable;
  target = cfg.local_ch_setpoint_dc;
  reason = Reason.none;
}
decide c cfg inp failsafe =
    let (core', want', why) = failsafe_ch c cfg inp in
    record { core = core'; want = want'; target = cfg.failsafe_setpoint_dc; reason = why }
decide c cfg inp ControlState.ha = record {
  core = c;
  want = c.ha_ch_enable;
  target = c.ha_setpoint_dc;
  reason = Reason.none;
}
decide c cfg inp _ = record { core = c; want = false; target = c.held_dc; reason = Reason.none }

-- The held ID 1: a change un-confirms it, and a report of the bus decides it.
unfoldable pub hold : Control → ControlIn → ℤ → Control
hold c inp held =
    let moved =
      if not (eqb_ℤ held c.held_dc) then record c { held_dc = held; confirmed = false } else c in
    if inp.setpoint_confirmed
    then (if eqb_ℤ inp.confirmed_dc held
        then record moved { confirmed = true; ok_age_ms = 0 }
        else record moved { confirmed = false })
    else moved

-- THE INVARIANT: the bit does not rise before the bus has carried the held ID 1.
unfoldable pub gate : Control → Bool → Reason → Bool × Reason
gate c want reason =
    if want && (not c.ch_out && not c.confirmed)
    then (false, Reason.await_setpoint)
    else (want, reason)

unfoldable pub set_ch : Control → Bool → Control
set_ch c ch = if differ ch c.ch_out then record c { ch_out = ch; ch_age_ms = 0 } else c

-- The high byte of the ID 0 request: OT_STATUS_CH_ENABLE and OT_STATUS_DHW_ENABLE.
unfoldable pub status_byte : Bool → Bool → ℕ
status_byte ch dhw = (if ch then 1 else 0) + (if dhw then 2 else 0)

-- The part of the step that follows the ladder. `s` is the state found by it.
unfoldable pub act : Control → Cfg → ControlIn → ControlState → Bool → Control × ControlOut
act c cfg inp s hour_done =
    let w = decide c cfg inp s in
    let held = hold w.core inp (bound cfg w.target) in
    let (ch, reason') = gate held w.want w.reason in
    let lit = set_ch held ch in
    let (done, due) = dhw_due lit cfg inp in
    (
      record done { hh_dirty = false; state = s },
      record {
        status_high = status_byte ch cfg.dhw_enable;
        held_setpoint_dc = lit.held_dc;
        send_setpoint = not lit.confirmed || leb resend_ms lit.ok_age_ms;
        send_dhw_setpoint = due;
        state = s;
        reason = reason';
        cause = if is_failsafe s then done.fs_cause else Reason.none;
        overdue_ms = done.overdue_ms;
        hh_ms = done.hh_ms;
        persist_heat_hours = hour_done || done.hh_dirty;
        heat_hours = done.heat_hours;
        failsafe_count = done.failsafe_count;
        last_failsafe_duration_s = done.last_failsafe_duration_s;
      },
    )

unfoldable pub step : Control → Cfg → ControlIn → ℕ → Control × ControlOut
step c cfg inp now_ms =
    let (ready, hour_done) = prepare c cfg inp now_ms in
    let expired = is_expired ready cfg in
    let s = ladder ready cfg expired in
    act (track_failsafe ready ready.state s expired) cfg inp s hour_done

-- ot_control_ch_command().
unfoldable pub ch_command : Control → Cfg → Bool
ch_command c cfg = if is_ha cfg.mode then c.ha_ch_enable else cfg.local_ch_enable
