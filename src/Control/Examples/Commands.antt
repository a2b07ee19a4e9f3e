-- ===== src/Control/Examples/Commands.antt =====
-- Runs of the executor: the commands.
use opentherm_thermostat_fir.Prelude.{◌≡◌, ◌≢◌, ◌⊎◌, ◌↔◌, true, refl}
use opentherm_thermostat_fir.Prelude.Int.{pos}
use opentherm_thermostat_fir.Control.Types.{Mode, Origin, ch_enable, ch_setpoint, ok}
use opentherm_thermostat_fir.Control.Command.{check, apply, no_persist}
use opentherm_thermostat_fir.Control.Ownership.{Permitted, Fits, check_iff, apply_guarded}
use opentherm_thermostat_fir.Control.Scenes.{running, ha_cfg, local_cfg, booted, at_home}

check_iff_example :
    (check ha_cfg Origin.ha ch_setpoint (pos 450) ≡ ok)
    ↔ (Permitted ha_cfg.mode Origin.ha ch_setpoint × Fits ha_cfg Origin.ha ch_setpoint (pos 450))
check_iff_example = check_iff ha_cfg Origin.ha ch_setpoint (pos 450)

apply_guarded_example :
    let (c', p, e) = apply booted ha_cfg Origin.ha ch_enable (pos 1) in
    (e ≢ ok → (c' ≡ booted) × (p ≡ no_persist))
    × (e ≡ ok → Permitted Mode.ha Origin.ha ch_enable)
    × ((c'.overdue_ms ≢ booted.overdue_ms) ⊎ (c'.ha_heard ≢ booted.ha_heard)
        → (e ≡ ok)
          × (Origin.ha ≡ Origin.ha)
          × ((ch_enable ≡ ch_enable) ⊎ (ch_enable ≡ ch_setpoint))
          × (c'.overdue_ms ≡ 0)
          × (c'.ha_heard ≡ true))
unfolding running
apply_guarded_example = apply_guarded booted ha_cfg Origin.ha ch_enable (pos 1)

-- 45.3 degrees go to the store as 45.5.
persist_rounds :
    (apply at_home local_cfg Origin.web ch_setpoint (pos 453)).1.local_ch_setpoint_dc ≡ pos 455
unfolding running
persist_rounds = refl
