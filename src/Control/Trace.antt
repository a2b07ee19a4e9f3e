-- ===== src/Control/Trace.antt =====
-- What the tasks do to the one executor of components/ot_thermostat: a step once a second, and
-- commands and boosts between two steps. A trace is a list of such events, in their order.
use opentherm_thermostat_fir.Prelude.{ℕ, Option, some, List, [], ◌∷◌, if◌then◌else◌}
use opentherm_thermostat_fir.Prelude.Int.{ℤ}
use opentherm_thermostat_fir.Control.Types.{Cfg, Control, ControlIn, Origin, Cmd}
use opentherm_thermostat_fir.Control.Boost.{boost_start, boost_cancel}
use opentherm_thermostat_fir.Control.Step.{step}
use opentherm_thermostat_fir.Control.Command.{apply}

pub data Event : Type 0 where
  tick : Cfg → ControlIn → ℕ → Event
  command : Cfg → Origin → Cmd → ℤ → Event
  start_boost : Cfg → ℤ → ℕ → ℕ → Event
  cancel_boost : Event

unfoldable pub react : Control → Event → Control
react c (tick cfg inp now_ms) = (step c cfg inp now_ms).0
react c (command cfg origin cmd value) = (apply c cfg origin cmd value).0
react c (start_boost cfg setpoint_dc minutes now_ms) =
    (boost_start c cfg setpoint_dc minutes now_ms).0
react c cancel_boost = boost_cancel c

unfoldable pub run : Control → List Event → Control
run c [] = c
run c (e ∷ es) = run (react c e) es

-- The last ID 1 that the bus has reported as sent, or none before the first report.
unfoldable pub report : Option ℤ → Event → Option ℤ
report last (tick cfg inp now_ms) = if inp.setpoint_confirmed then some inp.confirmed_dc else last
report last (command _ _ _ _) = last
report last (start_boost _ _ _ _) = last
report last cancel_boost = last

unfoldable pub reports : Option ℤ → List Event → Option ℤ
reports last [] = last
reports last (e ∷ es) = reports (report last e) es
