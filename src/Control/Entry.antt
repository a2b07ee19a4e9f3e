-- ===== src/Control/Entry.antt =====
-- The entries into HA ownership: observe() of components/ot_control/ot_control.c in the whole step,
-- and the start.
use opentherm_thermostat_fir.Prelude.{
  ℕ, ◌+◌, ◌*◌, ◌≤◌, ◌≡◌, ◌≢◌, ◌⊎◌, true, false, arith, some, min, ap,
}
use opentherm_thermostat_fir.Prelude.Word.{sub32, u32_max}
use opentherm_thermostat_fir.Control.Types.{
  Cfg, Control, ControlIn, ControlState, Restore, failsafe, is_ha,
}
use opentherm_thermostat_fir.Control.Clock.{advance, advance_ages, count_hours}
use opentherm_thermostat_fir.Control.Boost.{boost_cancel, boost_expire}
use opentherm_thermostat_fir.Control.Edges.{forget_ha, see_mode, is_entry, observe, init, restore}
use opentherm_thermostat_fir.Control.Failsafe.{ladder}
use opentherm_thermostat_fir.Control.Step.{prepare, is_expired, step}
use opentherm_thermostat_fir.Control.Ladder.{step-state, step-SameOwner}
use opentherm_thermostat_fir.Control.Watchdog.{InHa, Owned, prepare-Owned, add_sat-min}

-- The step sees HA mode and the season on, and the executor had not seen both.
abbrev pub IsEntry : Control → Cfg → Type 0
IsEntry c cfg = InHa cfg × ((c.seen_ha ≡ false) ⊎ (c.seen_season ≡ false))

prepare_entry :
    (c : Control) (cfg : Cfg) (inp : ControlIn) (now_ms : ℕ)
    → IsEntry c cfg
    → let ready = (prepare c cfg inp now_ms).0 in
      (ready.ha_heard ≡ false)
      × (ready.ha_ch_enable ≡ false)
      × (ready.ha_setpoint_dc ≡ cfg.failsafe_setpoint_dc)
      × (c.seen_ha ≡ false → (ready.boost_active ≡ false) × (ready.overdue_ms ≡ 0))
unfolding prepare advance advance_ages count_hours observe see_mode is_entry forget_ha boost_cancel
    boost_expire
prepare_entry c cfg inp now_ms e = ground arith

-- Nothing that Home Assistant said before it came to own the boiler survives the entry: whether the
-- mode turned to HA or the season on, the step forgets the command and the setpoint, is not in the
-- state "ha", and, where the mode turned, has ended a boost and counts the watchdog from nothing.
pub entry_forgets :
    (c : Control) (cfg : Cfg) (inp : ControlIn) (now_ms : ℕ)
    → IsEntry c cfg
    → let (c', out) = step c cfg inp now_ms in
      (out.state ≢ ControlState.ha)
      × (c'.ha_heard ≡ false)
      × (c'.ha_ch_enable ≡ false)
      × (c'.ha_setpoint_dc ≡ cfg.failsafe_setpoint_dc)
      × (c.seen_ha ≡ false → (c'.boost_active ≡ false) × (c'.overdue_ms ≡ 0))
unfolding ladder
entry_forgets c cfg inp now_ms e = ground (
  arith,
  prepare_entry c cfg inp now_ms e,
  step-SameOwner c cfg inp now_ms,
  step-state c cfg inp now_ms,
)

prepare_edge :
    (c : Control) (cfg : Cfg) (inp : ControlIn) (now_ms : ℕ)
    → is_ha cfg.mode ≢ c.seen_ha
    → (prepare c cfg inp now_ms).0.boost_active ≡ false
unfolding prepare advance advance_ages count_hours observe see_mode forget_ha boost_cancel
    boost_expire
prepare_edge c cfg inp now_ms e = ground arith

-- A boost does not outlive a change of owner, in either direction.
pub mode_edge_ends_boost :
    (c : Control) (cfg : Cfg) (inp : ControlIn) (now_ms : ℕ)
    → is_ha cfg.mode ≢ c.seen_ha
    → let (c', out) = step c cfg inp now_ms in
      (c'.boost_active ≡ false) × (out.state ≢ ControlState.boost)
unfolding ladder
mode_edge_ends_boost c cfg inp now_ms e = ground (
  arith,
  prepare_edge c cfg inp now_ms e,
  step-SameOwner c cfg inp now_ms,
  step-state c cfg inp now_ms,
)

init-overdue :
    (cfg : Cfg) (r : Restore) (start_ms : ℕ)
    → InHa cfg
    → r.overdue_valid ≡ true
    → let c = init cfg (some r) start_ms in
      Owned c × (c.overdue_ms ≡ r.overdue_ms) × (c.last_step_ms ≡ start_ms)
unfolding init restore forget_ha
init-overdue cfg r start_ms ha valid = ground arith

-- A reboot does not hold the watchdog back: a start in HA mode that restores the milliseconds of a
-- dead controller, and its first step, reach failsafe when the restored and the new milliseconds
-- make up the watchdog. So a reboot loop cannot keep the executor waiting for ever.
pub reboot_keeps_watchdog :
    (cfg : Cfg) (r : Restore) (inp : ControlIn) (start_ms now_ms : ℕ)
    → InHa cfg
    → r.overdue_valid ≡ true
    → r.overdue_ms ≤ u32_max
    → cfg.watchdog_s ≤ 65535
    → let (c', out) = step (init cfg (some r) start_ms) cfg inp now_ms in
      (c'.overdue_ms ≡ min u32_max (r.overdue_ms + sub32 now_ms start_ms))
      × (cfg.watchdog_s * 1000 ≤ r.overdue_ms + sub32 now_ms start_ms → out.state ≡ failsafe)
unfolding ladder is_expired
reboot_keeps_watchdog cfg r inp start_ms now_ms ha valid le small =
    let c = init cfg (some r) start_ms in
    let s = init-overdue cfg r start_ms ha valid in
    let p = prepare-Owned c cfg inp now_ms s.0 ha in
    let sat =
      add_sat-min c.overdue_ms (sub32 now_ms c.last_step_ms) (omega (arith, s)) (omega arith) in
    let moment : sub32 now_ms c.last_step_ms ≡ sub32 now_ms start_ms = ap (sub32 now_ms) s.2 in
    ground (arith, s, p, sat, moment, step-SameOwner c cfg inp now_ms, step-state c cfg inp now_ms)
