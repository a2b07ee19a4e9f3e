-- ===== src/Control/Examples/Reconcile.antt =====
-- Runs of the executor: the DHW writes.
use opentherm_thermostat_fir.Prelude.{◌≤◌, ◌≢◌, inr, arith, refl, ◌≡◌, List, [], ◌∷◌, true, ap}
use opentherm_thermostat_fir.Prelude.Int.{pos, pos_part}
use opentherm_thermostat_fir.Control.Types.{Control}
use opentherm_thermostat_fir.Control.Ticks.{Tick}
use opentherm_thermostat_fir.Control.DhwCap.{sends, writes_left, dhw_writes_capped}
use opentherm_thermostat_fir.Control.Scenes.{running, ha_cfg, whole_degrees, written}

unread : pos 500 ≢ pos 503
unread e = omega (arith, ap pos_part e)

-- A command of the stored setpoint waits to reopen it.
abbrev reopening : Control
reopening = record written { dhw_reopen = true; dhw_reopen_dc = pos 503 }

abbrev two_ticks : List Tick
two_ticks = (ha_cfg, whole_degrees, 61000) ∷ (ha_cfg, whole_degrees, 121000) ∷ []

dhw_writes_capped_example : sends reopening two_ticks ≤ writes_left reopening (pos 503)
unfolding running
dhw_writes_capped_example =
    dhw_writes_capped reopening (pos 503) two_ticks ((refl, inr unread), ((refl, inr unread), tt))

-- Two of three tries are left of the target, and three more come from the reopening.
left_five : writes_left reopening (pos 503) ≡ 5
unfolding running sends
left_five = refl
