-- ===== src/Control/Dhw.antt =====
-- dhw_due() of components/ot_control/ot_control.c: the ID 56 reconciliation.
use opentherm_thermostat_fir.Prelude.{
  ℕ, ◌+◌, Bool, true, false, not, ◌&&◌, ◌||◌, ltb, leb, if◌then◌else◌,
}
use opentherm_thermostat_fir.Prelude.Word.{u32_max}
use opentherm_thermostat_fir.Prelude.Int.{eqb_ℤ}
use opentherm_thermostat_fir.Control.Types.{Cfg, Control, ControlIn}

abbrev pub dhw_retry_ms : ℕ
dhw_retry_ms = 60000

abbrev pub dhw_max_tries : ℕ
dhw_max_tries = 3

-- A new target is a new count, and goes out at once.
unfoldable pub dhw_retarget : Control → Cfg → Control
dhw_retarget c cfg =
    if not (eqb_ℤ cfg.dhw_setpoint_dc c.dhw_target_dc)
    then record c { dhw_target_dc = cfg.dhw_setpoint_dc; dhw_tries = 0; dhw_age_ms = u32_max }
    else c

-- An accepted command reopens its target once the store has it.
unfoldable pub dhw_take_reopen : Control → Control
dhw_take_reopen c =
    if c.dhw_reopen && eqb_ℤ c.dhw_reopen_dc c.dhw_target_dc
    then record c {
      dhw_reopen = false;
      dhw_tries = 0;
      dhw_age_ms = u32_max;
      dhw_unread_once = true;
    }
    else c

-- The rest of dhw_due(): the readback, the cap and the pace.
unfoldable pub dhw_reconcile : Control → ControlIn → Control × Bool
dhw_reconcile c inp =
    if inp.dhw_readback_valid && eqb_ℤ inp.dhw_readback_dc c.dhw_target_dc
    then (record c { dhw_tries = 0; dhw_unread_once = false }, false)
    else if not inp.dhw_readback_valid && not c.dhw_unread_once
    then (c, false)
    else if leb dhw_max_tries c.dhw_tries || ltb c.dhw_age_ms dhw_retry_ms
    then (c, false)
    else (record c { dhw_unread_once = false; dhw_tries = c.dhw_tries + 1; dhw_age_ms = 0 }, true)

unfoldable pub dhw_due : Control → Cfg → ControlIn → Control × Bool
dhw_due c cfg inp =
    if not cfg.dhw_setpoint_set
    then (c, false)
    else dhw_reconcile (dhw_take_reopen (dhw_retarget c cfg)) inp
