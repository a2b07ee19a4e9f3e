-- ===== src/Provision/Window.antt =====
-- components/ot_provision/ot_provision.c: the clocks and the setup window.
use opentherm_thermostat_fir.Prelude.{
  ℕ, ◌-◌, Bool, true, false, not, ◌&&◌, ◌||◌, leb, ltb, ◌==◌, if◌then◌else◌,
}
use opentherm_thermostat_fir.Prelude.Word.{sub32}
use opentherm_thermostat_fir.Provision.Types.{Prov, prov_never}

unfoldable pub elapsed : ℕ → ℕ → ℕ → Bool
elapsed now since limit = leb limit (sub32 now since)

unfoldable pub remaining : ℕ → ℕ → ℕ → ℕ
remaining now since limit = let gone = sub32 now since in if leb limit gone then 0 else limit - gone

unfoldable pub window_length : Prov → ℕ
window_length s =
    if s.cfg.setup_window_ms == 0
    then 0
    else if s.window_is_the_short_one
    then s.cfg.reopen_window_ms
    else s.cfg.setup_window_ms

unfoldable pub window_open_at : Prov → ℕ → Bool
window_open_at s now =
    if not s.ap_on_air || not s.window_running
    then false
    else if window_length s == 0
    then true
    else if not (s.cfg.setup_window_ceiling_ms == 0)
        && elapsed now s.window_opened_at s.cfg.setup_window_ceiling_ms
    then false
    else not (elapsed now s.window_extended_at (window_length s))

unfoldable pub window_is_open : Prov → Bool
window_is_open s = s.ap_on_air && s.window_running

unfoldable pub window_remaining_ms : Prov → ℕ → ℕ
window_remaining_ms s now_ms =
    let by_window = remaining now_ms s.window_extended_at (window_length s) in
    let by_ceiling =
      if s.cfg.setup_window_ceiling_ms == 0
      then prov_never
      else remaining now_ms s.window_opened_at s.cfg.setup_window_ceiling_ms in
    if not (window_open_at s now_ms)
    then 0
    else if window_length s == 0
    then prov_never
    else if ltb by_window by_ceiling
    then by_window
    else by_ceiling
