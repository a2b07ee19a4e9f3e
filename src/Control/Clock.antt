-- ===== src/Control/Clock.antt =====
-- components/ot_control/ot_control_failsafe.c: the accumulators that each step advances.
use opentherm_thermostat_fir.Prelude.{ℕ, ◌+◌, ◌*◌, ◌/◌, ◌%◌, Bool, false, ltb, ◌==◌, if◌then◌else◌}
use opentherm_thermostat_fir.Prelude.Word.{add_sat, u16_max}
use opentherm_thermostat_fir.Control.Types.{Cfg, Control}

abbrev pub hour_ms : ℕ
hour_ms = 3600000

abbrev pub heat_limit_h : Cfg → ℕ
heat_limit_h cfg = cfg.failsafe_heat_days * 24

-- Every duration but the powered hours.
unfoldable pub advance_ages : Control → ℕ → Control
advance_ages c dt_ms = record c {
  overdue_ms = if c.seen_ha then add_sat c.overdue_ms dt_ms else 0;
  ok_age_ms = add_sat c.ok_age_ms dt_ms;
  ch_age_ms = add_sat c.ch_age_ms dt_ms;
  dhw_age_ms = add_sat c.dhw_age_ms dt_ms;
  fs_ms = add_sat c.fs_ms dt_ms;
  hh_ms = add_sat c.hh_ms dt_ms;
}

-- The full hours in `hh_ms` move to `heat_hours`; the flag asks to persist them.
unfoldable pub count_hours : Control → Cfg → Control × Bool
count_hours c cfg =
    let hours = c.hh_ms / hour_ms in
    let sum = c.heat_hours + hours in
    if hours == 0 then (c, false) else (
      record c { hh_ms = c.hh_ms % hour_ms; heat_hours = if ltb u16_max sum then u16_max else sum },
      ltb c.heat_hours (heat_limit_h cfg),
    )

-- otc_advance().
unfoldable pub advance : Control → Cfg → ℕ → Control × Bool
advance c cfg dt_ms = count_hours (advance_ages c dt_ms) cfg
