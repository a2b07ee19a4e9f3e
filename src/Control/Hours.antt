-- ===== src/Control/Hours.antt =====
-- The powered hours since HA last asked for heat: the arm of the failsafe (ot_control_failsafe.c).
use opentherm_thermostat_fir.Prelude.{ℕ, ◌+◌, ◌/◌, ◌%◌, ◌≤◌, ◌<◌, ◌≡◌, ◌&&◌, arith, min, ltb, leb}
use opentherm_thermostat_fir.Prelude.Word.{sub32, u16_max, u32_max, add_sat}
use opentherm_thermostat_fir.Control.Types.{Cfg, Control, ControlIn}
use opentherm_thermostat_fir.Control.Clock.{
  advance, advance_ages, count_hours, hour_ms, heat_limit_h,
}
use opentherm_thermostat_fir.Control.Boost.{boost_cancel, boost_expire}
use opentherm_thermostat_fir.Control.Edges.{forget_ha, see_mode, observe}
use opentherm_thermostat_fir.Control.Step.{prepare, step}
use opentherm_thermostat_fir.Control.Ladder.{step-SameOwner}

-- The part-hour is less than an hour, and the count is a uint16_t.
abbrev pub HoursValid : Control → Type 0
HoursValid c = (c.hh_ms < hour_ms) × (c.heat_hours ≤ u16_max)

advance-hours :
    (c : Control) (cfg : Cfg) (dt : ℕ)
    → HoursValid c
    → dt + hour_ms ≤ u32_max
    → let (c', done) = advance c cfg dt in
      HoursValid c'
      × (c'.hh_ms ≡ (c.hh_ms + dt) % hour_ms)
      × (c'.heat_hours ≡ min u16_max (c.heat_hours + (c.hh_ms + dt) / hour_ms))
      × (done ≡ leb hour_ms (c.hh_ms + dt) && ltb c.heat_hours (heat_limit_h cfg))
unfolding advance advance_ages count_hours add_sat
advance-hours c cfg dt v small = ground arith

prepare-hours :
    (c : Control) (cfg : Cfg) (inp : ControlIn) (now_ms : ℕ)
    → let t = advance (record c { last_step_ms = now_ms }) cfg (sub32 now_ms c.last_step_ms) in
      let (ready, done) = prepare c cfg inp now_ms in
      (ready.hh_ms ≡ t.0.hh_ms) × (ready.heat_hours ≡ t.0.heat_hours) × (done ≡ t.1)
unfolding prepare observe see_mode forget_ha boost_cancel boost_expire
prepare-hours c cfg inp now_ms = ground arith

-- Every step less than 48 days after the last keeps the part-hour and the hours exact: together
-- they grow by the milliseconds that passed, no hour of a late step is lost, and the count stops at
-- the largest uint16_t instead of wrapping.
pub step_counts_hours :
    (c : Control) (cfg : Cfg) (inp : ControlIn) (now_ms : ℕ)
    → HoursValid c
    → sub32 now_ms c.last_step_ms + hour_ms ≤ u32_max
    → let c' = (step c cfg inp now_ms).0 in
      let passed = c.hh_ms + sub32 now_ms c.last_step_ms in
      HoursValid c'
      × (c'.hh_ms ≡ passed % hour_ms)
      × (c'.heat_hours ≡ min u16_max (c.heat_hours + passed / hour_ms))
step_counts_hours c cfg inp now_ms v small = ground (
  arith,
  advance-hours (record c { last_step_ms = now_ms }) cfg (sub32 now_ms c.last_step_ms) v small,
  prepare-hours c cfg inp now_ms,
  step-SameOwner c cfg inp now_ms,
)
