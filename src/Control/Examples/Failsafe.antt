-- ===== src/Control/Examples/Failsafe.antt =====
-- Runs of the executor: the watchdog, the failsafe and the restart.
use opentherm_thermostat_fir.Prelude.{◌*◌, ◌≤◌, ◌<◌, ◌≡◌, ◌||◌, inr, true, false, arith, refl}
use opentherm_thermostat_fir.Prelude.Word.{sub32, add_sat}
use opentherm_thermostat_fir.Prelude.Int.{pos, ◌+ℤ◌, ◌-ℤ◌, ◌≤ℤ◌}
use opentherm_thermostat_fir.Control.Types.{Reason, failsafe}
use opentherm_thermostat_fir.Control.Clock.{heat_limit_h}
use opentherm_thermostat_fir.Control.Step.{step}
use opentherm_thermostat_fir.Control.Trace.{run}
use opentherm_thermostat_fir.Control.Watchdog.{silence_is_failsafe, elapsed}
use opentherm_thermostat_fir.Control.Latch.{failsafe_stays}
use opentherm_thermostat_fir.Control.Cycle.{failsafe_bit}
use opentherm_thermostat_fir.Control.Scenes.{running, ha_cfg, quiet_in, booted, silence, dead, talk}

silence_is_failsafe_example :
    let out = (step (run booted silence) ha_cfg quiet_in 900000).1 in
    (out.state ≡ failsafe) × (out.cause ≡ Reason.watchdog)
unfolding running elapsed
silence_is_failsafe_example =
    silence_is_failsafe booted silence ha_cfg quiet_in 900000 (refl, refl) (omega arith)
      ((refl, refl), (tt, (tt, tt))) (refl, refl) (omega arith) (omega arith)

failsafe_stays_example : (step (run dead talk) ha_cfg quiet_in 902000).1.state ≡ failsafe
unfolding running
failsafe_stays_example =
    failsafe_stays dead talk ha_cfg quiet_in 902000 900 (omega arith)
      ((refl, refl), refl, omega arith, inr (omega arith)) (tt, (((refl, refl), omega arith), tt))
      (refl, refl) (omega arith)

failsafe_bit_example :
    let (c', out) = step booted ha_cfg quiet_in 900000 in
    let age = add_sat booted.ch_age_ms (sub32 900000 booted.last_step_ms) in
    let cycle = ha_cfg.failsafe_min_cycle_s * 1000 in
    (heat_limit_h ha_cfg ≤ c'.heat_hours → c'.ch_out ≡ false)
    × (c'.heat_hours < heat_limit_h ha_cfg
        → quiet_in.room_fresh ≡ false
        → c'.ch_out ≡ (booted.ch_out || c'.confirmed))
    × (c'.heat_hours < heat_limit_h ha_cfg
        → quiet_in.room_fresh ≡ true
        → age < cycle
        → c'.ch_out ≡ booted.ch_out)
    × (c'.heat_hours < heat_limit_h ha_cfg
        → quiet_in.room_fresh ≡ true
        → cycle ≤ age
        → quiet_in.room_dc ≤ℤ ha_cfg.failsafe_room_target_dc -ℤ pos 3
        → c'.ch_out ≡ (booted.ch_out || c'.confirmed))
    × (c'.heat_hours < heat_limit_h ha_cfg
        → quiet_in.room_fresh ≡ true
        → cycle ≤ age
        → ha_cfg.failsafe_room_target_dc +ℤ pos 3 ≤ℤ quiet_in.room_dc
        → c'.ch_out ≡ false)
unfolding running
failsafe_bit_example = failsafe_bit booted ha_cfg quiet_in 900000 refl
