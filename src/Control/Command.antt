-- ===== src/Control/Command.antt =====
-- ot_control_check() and ot_control_apply(): components/ot_control/ot_control_check.c and
-- ot_control_apply.c.
use opentherm_thermostat_fir.Prelude.{Bool, true, false, not, ◌&&◌, ◌||◌, ◌==◌, if◌then◌else◌}
use opentherm_thermostat_fir.Prelude.Int.{ℤ, pos, eqb_ℤ, ltb_ℤ, leb_ℤ}
use opentherm_thermostat_fir.Control.Types.{
  Mode, Origin, Cmd, Cfg, Control, Persist, ControlErr, ch_enable, ch_setpoint, dhw_enable,
  dhw_setpoint, season, unknown, ok, owned_by_ha, owned_by_local, season_on_is_local, out_of_range,
  is_ha,
}
use opentherm_thermostat_fir.Control.Bound.{bound}
use opentherm_thermostat_fir.Control.Edges.{forget_ha}

abbrev pub from_ha : Origin → Bool
from_ha Origin.ha = true
from_ha Origin.web = false

abbrev pub is_season : Cmd → Bool
is_season season = true
is_season _ = false

-- Question 2: whose the command is.
unfoldable pub check_owner : Cfg → Origin → Cmd → ControlErr
check_owner cfg Origin.ha cmd = if not (is_ha cfg.mode) then owned_by_local else ok
check_owner cfg Origin.web cmd = if is_ha cfg.mode && not (is_season cmd) then owned_by_ha else ok

-- Question 3: the value inside this command's own bounds.
unfoldable pub check_value : Cfg → Origin → Cmd → ℤ → ControlErr
check_value cfg origin ch_setpoint value =
    if ltb_ℤ value cfg.flow_min_dc || ltb_ℤ cfg.flow_max_dc value then out_of_range else ok
check_value cfg origin dhw_setpoint value = if leb_ℤ value (pos 0) then out_of_range else ok
check_value cfg origin (unknown n) value = out_of_range
check_value cfg origin season value =
    if not (eqb_ℤ value (pos 0)) && not (eqb_ℤ value (pos 1))
    then out_of_range
    else if from_ha origin && eqb_ℤ value (pos 1)
    then season_on_is_local
    else ok
check_value cfg origin _ value =
    if not (eqb_ℤ value (pos 0)) && not (eqb_ℤ value (pos 1)) then out_of_range else ok

-- An unknown command is refused before its owner is asked for.
unfoldable pub check : Cfg → Origin → Cmd → ℤ → ControlErr
check cfg origin (unknown n) value = out_of_range
check cfg origin cmd value = elim (check_owner cfg origin cmd) [
  | ok ↦ check_value cfg origin cmd value
  | e ↦ e
]

-- `memset(persist, 0, sizeof *persist)`.
abbrev pub no_persist : Persist
no_persist = record {
  any = false;
  set_local_ch_enable = false;
  local_ch_enable = false;
  set_local_ch_setpoint = false;
  local_ch_setpoint_dc = pos 0;
  set_dhw_enable = false;
  dhw_enable = false;
  set_dhw_setpoint = false;
  dhw_setpoint_dc = pos 0;
  set_heating_season = false;
  heating_season = false;
}

unfoldable pub heard : Control → Control
heard c = record c { overdue_ms = 0; ha_heard = true }

-- HA's CH_ENABLE: it leaves a failsafe whose cause is gone, feeds the watchdog, renews the arm.
unfoldable pub ha_enable : Control → Cfg → Bool → Control
ha_enable c cfg on =
    let left = if c.fs_latched && not c.blind then forget_ha c cfg else c in
    let commanded = record (heard left) { ha_ch_enable = on } in
    if on
    then record commanded {
      hh_dirty = commanded.hh_dirty || not (commanded.heat_hours == 0);
      heat_hours = 0;
      hh_ms = 0;
    }
    else commanded

-- The switch over the command, after check(). `any` is what the source computes behind the switch.
unfoldable pub carry_out : Control → Cfg → Origin → Cmd → ℤ → Control × Persist
carry_out c cfg Origin.web ch_enable value = (
  c,
  record no_persist {
    any = true;
    set_local_ch_enable = true;
    local_ch_enable = eqb_ℤ value (pos 1);
  },
)
carry_out c cfg Origin.ha ch_enable value = (ha_enable c cfg (eqb_ℤ value (pos 1)), no_persist)
carry_out c cfg Origin.web ch_setpoint value = (
  c,
  record no_persist {
    any = true;
    set_local_ch_setpoint = true;
    local_ch_setpoint_dc = bound cfg value;
  },
)
carry_out c cfg Origin.ha ch_setpoint value =
    (record (heard c) { ha_setpoint_dc = bound cfg value }, no_persist)
carry_out c cfg origin dhw_enable value =
    (c, record no_persist { any = true; set_dhw_enable = true; dhw_enable = eqb_ℤ value (pos 1) })
carry_out c cfg origin dhw_setpoint value = (
  record c { dhw_reopen = true; dhw_reopen_dc = value },
  record no_persist { any = true; set_dhw_setpoint = true; dhw_setpoint_dc = value },
)
carry_out c cfg origin season value = (
  c,
  record no_persist { any = true; set_heating_season = true; heating_season = eqb_ℤ value (pos 1) },
)
carry_out c cfg origin (unknown n) value = (c, no_persist)

-- Ownership by the mode that the executor last observed, bounds by the snapshot.
unfoldable pub apply : Control → Cfg → Origin → Cmd → ℤ → Control × Persist × ControlErr
apply c cfg origin cmd value =
    let seen = record cfg { mode = if c.seen_ha then Mode.ha else Mode.local } in
    elim (check seen origin cmd value) [
      | ok ↦ (let (c', persist) = carry_out c cfg origin cmd value in (c', persist, ok))
      | e ↦ (c, no_persist, e)
    ]
