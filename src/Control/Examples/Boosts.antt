-- ===== src/Control/Examples/Boosts.antt =====
-- Runs of the executor: the boost and the edges.
use opentherm_thermostat_fir.Prelude.{◌*◌, ◌≡◌, arith, refl, if◌then◌else◌, ltb, List, [], ◌∷◌}
use opentherm_thermostat_fir.Prelude.Word.{sub32}
use opentherm_thermostat_fir.Prelude.Int.{pos}
use opentherm_thermostat_fir.Control.Types.{ControlState, boost}
use opentherm_thermostat_fir.Control.Boost.{boost_start, ms_per_minute}
use opentherm_thermostat_fir.Control.Step.{step}
use opentherm_thermostat_fir.Control.Ticks.{Tick, ticks}
use opentherm_thermostat_fir.Control.BoostWindow.{boost_window}
use opentherm_thermostat_fir.Control.Scenes.{running, local_cfg, quiet_in, at_home}

-- A boost granted one second before the clock wraps, stepped half a second before the wrap and half a
-- second after it, and asked about one second after it.
abbrev steps_between : List Tick
steps_between = (local_cfg, quiet_in, 4294966796) ∷ (local_cfg, quiet_in, 500) ∷ []

boost_window_example :
    (step
      (ticks (boost_start at_home local_cfg (pos 500) 30 4294966296).0 steps_between)
      local_cfg
      quiet_in
      1000).1.state
    ≡ (if ltb (sub32 1000 4294966296) (30 * ms_per_minute) then boost else ControlState.local)
unfolding running
boost_window_example =
    boost_window at_home local_cfg local_cfg (pos 500) 30 4294966296 1000 steps_between quiet_in
      (omega arith) (omega arith) (omega arith)
      ((refl, omega arith, omega arith), ((refl, omega arith, omega arith), tt)) refl refl refl
