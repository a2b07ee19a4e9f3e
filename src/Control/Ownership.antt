-- ===== src/Control/Ownership.antt =====
-- Ownership and bounds of a command, and the effects of ot_control_apply().
use opentherm_thermostat_fir.Prelude.{◌≡◌, ◌≢◌, ◌⊎◌, ◌↔◌, true, false, arith, ◌||◌, if◌then◌else◌}
use opentherm_thermostat_fir.Prelude.Int.{ℤ, pos, ◌≤ℤ◌, eqb_ℤ-iff}
use opentherm_thermostat_fir.Control.Types.{
  Mode, Origin, Cmd, Cfg, Control, ch_enable, ch_setpoint, dhw_enable, dhw_setpoint, season,
  unknown, ok,
}
use opentherm_thermostat_fir.Control.Bound.{bound}
use opentherm_thermostat_fir.Control.Edges.{forget_ha}
use opentherm_thermostat_fir.Control.Command.{
  check, check_owner, check_value, heard, ha_enable, carry_out, apply, no_persist,
}
use opentherm_thermostat_fir.Control.Bounds.{IsInFlow, IsOnGrid, bound-IsInFlow, bound-IsOnGrid}

-- Whose a command is. The season is the person's in either mode.
abbrev pub Permitted : Mode → Origin → Cmd → Type 0
Permitted mode Origin.ha cmd = mode ≡ Mode.ha
Permitted mode Origin.web season = Unit
Permitted mode Origin.web cmd = mode ≡ Mode.local

-- Which values it may have. HA may turn the season off, never on.
abbrev pub Fits : Cfg → Origin → Cmd → ℤ → Type 0
Fits cfg origin (unknown n) v = ⊥
Fits cfg origin ch_setpoint v = IsInFlow cfg v
Fits cfg origin dhw_setpoint v = pos 1 ≤ℤ v
Fits cfg Origin.ha season v = v ≡ pos 0
Fits cfg Origin.web season v = (v ≡ pos 0) ⊎ (v ≡ pos 1)
Fits cfg origin ch_enable v = (v ≡ pos 0) ⊎ (v ≡ pos 1)
Fits cfg origin dhw_enable v = (v ≡ pos 0) ⊎ (v ≡ pos 1)

check_sound :
    (cfg : Cfg) (origin : Origin) (cmd : Cmd) (v : ℤ)
    → check cfg origin cmd v ≡ ok
    → Permitted cfg.mode origin cmd × Fits cfg origin cmd v
unfolding check check_owner check_value
check_sound cfg origin cmd v h = ground (arith, eqb_ℤ-iff v (pos 0), eqb_ℤ-iff v (pos 1))

check_complete :
    (cfg : Cfg) (origin : Origin) (cmd : Cmd) (v : ℤ)
    → Permitted cfg.mode origin cmd
    → Fits cfg origin cmd v
    → check cfg origin cmd v ≡ ok
unfolding check check_owner check_value
check_complete cfg origin cmd v p f = ground arith

-- ot_control_check() accepts a command exactly when its sender owns it in the snapshot's mode and
-- its value is one that this sender may give it.
pub check_iff :
    (cfg : Cfg) (origin : Origin) (cmd : Cmd) (v : ℤ)
    → (check cfg origin cmd v ≡ ok) ↔ (Permitted cfg.mode origin cmd × Fits cfg origin cmd v)
check_iff cfg origin cmd v =
    (check_sound cfg origin cmd v, λ h. check_complete cfg origin cmd v h.0 h.1)

-- A refused command leaves the executor as it was and asks for nothing to be stored. An accepted
-- one is permitted in the mode that the executor last observed, and of all commands only an
-- accepted CH command of Home Assistant makes the executor hear HA or feeds the watchdog.
pub apply_guarded :
    (c : Control) (cfg : Cfg) (origin : Origin) (cmd : Cmd) (v : ℤ)
    → let (c', p, e) = apply c cfg origin cmd v in
      (e ≢ ok → (c' ≡ c) × (p ≡ no_persist))
      × (e ≡ ok → Permitted (if c.seen_ha then Mode.ha else Mode.local) origin cmd)
      × ((c'.overdue_ms ≢ c.overdue_ms) ⊎ (c'.ha_heard ≢ c.ha_heard)
          → (e ≡ ok)
            × (origin ≡ Origin.ha)
            × ((cmd ≡ ch_enable) ⊎ (cmd ≡ ch_setpoint))
            × (c'.overdue_ms ≡ 0)
            × (c'.ha_heard ≡ true))
unfolding apply carry_out ha_enable heard forget_ha check check_owner
apply_guarded c cfg origin cmd v = ground arith

-- The mode of the snapshot does not matter: a stale one neither grants nor refuses a command.
pub apply_ignores_mode :
    (c : Control) (cfg : Cfg) (mode' : Mode) (origin : Origin) (cmd : Cmd) (v : ℤ)
    → apply c (record cfg { mode = mode' }) origin cmd v ≡ apply c cfg origin cmd v
unfolding apply carry_out ha_enable heard forget_ha bound
apply_ignores_mode c cfg mode' origin cmd v = ground arith

-- What an accepted command asks to store is what the store accepts: a CH setpoint inside the flow
-- bounds and, for bounds on the half-degree grid, on that grid; a DHW setpoint above 0. `any` says
-- whether one of the five is set, and Home Assistant never stores a CH command.
pub persist_valid :
    (c : Control) (cfg : Cfg) (origin : Origin) (cmd : Cmd) (v : ℤ)
    → cfg.flow_min_dc ≤ℤ cfg.flow_max_dc
    → let p = (apply c cfg origin cmd v).1 in
      (p.set_local_ch_setpoint ≡ true
        → IsInFlow cfg p.local_ch_setpoint_dc
          × (IsOnGrid cfg.flow_min_dc → IsOnGrid cfg.flow_max_dc → IsOnGrid p.local_ch_setpoint_dc))
      × (p.set_dhw_setpoint ≡ true → pos 1 ≤ℤ p.dhw_setpoint_dc)
      × (p.any ≡ (
          p.set_local_ch_enable
          || (p.set_local_ch_setpoint
              || (p.set_dhw_enable || (p.set_dhw_setpoint || p.set_heating_season)))))
      × (origin ≡ Origin.ha → (p.set_local_ch_enable ≡ false) × (p.set_local_ch_setpoint ≡ false))
unfolding apply carry_out check check_owner check_value
persist_valid c cfg origin cmd v order =
    ground (arith, bound-IsInFlow cfg v order, bound-IsOnGrid cfg v)
