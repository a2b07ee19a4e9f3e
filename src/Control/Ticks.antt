-- ===== src/Control/Ticks.antt =====
-- Runs of ot_control_step(): the snapshot, the inputs and the moment of each tick.
use opentherm_thermostat_fir.Prelude.{ℕ, ◌≡◌, ◌∙◌, List, [], ◌∷◌}
use opentherm_thermostat_fir.Control.Types.{Cfg, Control, ControlIn}
use opentherm_thermostat_fir.Control.Step.{step}
use opentherm_thermostat_fir.Control.Ladder.{step-SameOwner, prepare-last}

-- A tick: the snapshot, the inputs and the moment.
abbrev pub Tick : Type 0
Tick = Cfg × ControlIn × ℕ

unfoldable pub ticks : Control → List Tick → Control
ticks c [] = c
ticks c ((cfg, inp, now_ms) ∷ l) = ticks (step c cfg inp now_ms).0 l

pub step-last :
    (c : Control) (cfg : Cfg) (inp : ControlIn) (now_ms : ℕ)
    → (step c cfg inp now_ms).0.last_step_ms ≡ now_ms
step-last c cfg inp now_ms =
    (step-SameOwner c cfg inp now_ms).last_step_ms ∙ prepare-last c cfg inp now_ms
