-- ===== src/Control/Examples/Heat.antt =====
-- Runs of the executor: the CH bit and the held setpoint.
use opentherm_thermostat_fir.Prelude.{◌≡◌, true, false, arith, refl, none, some}
use opentherm_thermostat_fir.Prelude.Int.{pos}
use opentherm_thermostat_fir.Control.Types.{ha_waiting}
use opentherm_thermostat_fir.Control.Step.{step}
use opentherm_thermostat_fir.Control.Trace.{tick, run, report, reports}
use opentherm_thermostat_fir.Control.Held.{rise_needs_report}
use opentherm_thermostat_fir.Control.Bounds.{IsInFlow, IsOnGrid, held_setpoint_bounds}
use opentherm_thermostat_fir.Control.Ladder.{Wanted, heat_needs_cause}
use opentherm_thermostat_fir.Control.Scenes.{running, ha_cfg, quiet_in, confirming, booted, asked}

booted_waits : (step booted ha_cfg quiet_in 1000).1.state ≡ ha_waiting
unfolding running
booted_waits = refl

asked_unconfirmed : (run booted asked).ch_out ≡ false
unfolding running
asked_unconfirmed = refl

asked_confirmed : (step (run booted asked) ha_cfg confirming 2000).0.ch_out ≡ true
unfolding running
asked_confirmed = refl

rise_needs_report_example :
    report (reports none asked) (tick ha_cfg confirming 2000)
    ≡ some (step (run booted asked) ha_cfg confirming 2000).0.held_dc
rise_needs_report_example =
    rise_needs_report ha_cfg ha_cfg none 0 asked confirming 2000 asked_unconfirmed asked_confirmed

held_setpoint_bounds_example :
    let (c', out) = step booted ha_cfg quiet_in 1000 in
    (out.held_setpoint_dc ≡ c'.held_dc)
    × IsInFlow ha_cfg out.held_setpoint_dc
    × (IsOnGrid (pos 200) → IsOnGrid (pos 600) → IsOnGrid out.held_setpoint_dc)
held_setpoint_bounds_example = held_setpoint_bounds booted ha_cfg quiet_in 1000 (omega arith)

heat_needs_cause_example :
    let (c', out) = step (run booted asked) ha_cfg confirming 2000 in
    (ha_cfg.heating_season ≡ true) × Wanted c' ha_cfg out.state
unfolding running
heat_needs_cause_example = heat_needs_cause (run booted asked) ha_cfg confirming 2000 (omega arith)
