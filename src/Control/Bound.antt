-- ===== src/Control/Bound.antt =====
-- otc_bound() of components/ot_control/ot_control.c: the 0.5 degree grid, then the flow bounds.
use opentherm_thermostat_fir.Prelude.{if◌then◌else◌}
use opentherm_thermostat_fir.Prelude.Int.{ℤ, pos, ◌+ℤ◌, ◌*ℤ◌, ◌/ℤ◌, ltb_ℤ}
use opentherm_thermostat_fir.Control.Types.{Cfg}

unfoldable pub quantise : ℤ → ℤ
quantise dc = (◌/ℤ◌ (dc +ℤ pos 2) 5) *ℤ pos 5

-- The final cast to int16_t changes nothing: the result is a bound or lies between the bounds.
unfoldable pub bound : Cfg → ℤ → ℤ
bound cfg dc =
    let q = quantise dc in
    let r = if ltb_ℤ q cfg.flow_min_dc then cfg.flow_min_dc else q in
    if ltb_ℤ cfg.flow_max_dc r then cfg.flow_max_dc else r
