-- ===== src/Provision/Questions.antt =====
-- components/ot_provision/ot_provision.c: what the callers ask.
use Prim.Native.String.{String}
use opentherm_thermostat_fir.Prelude.{ℕ, Bool, not, ◌&&◌, ◌||◌, ◌==◌, if◌then◌else◌}
use opentherm_thermostat_fir.Provision.Types.{
  Prov, ProvState, ProvMode, ProvFailure, prov_never, is_restore, is_fallback, earns, off,
  access_point, station, ap_sta,
}
use opentherm_thermostat_fir.Provision.Window.{remaining}

unfoldable pub mode : Prov → ProvMode
mode s = elim s.state [
  | ProvState.unconfigured ↦ access_point
  | ProvState.window_closed ↦ off
  | ProvState.connected ↦ station
  | ProvState.fallback_ap ↦ ap_sta
  | _ ↦ if s.window_running then ap_sta else station
]

unfoldable pub is_provisioned : Prov → Bool
is_provisioned s = s.has_credentials && not s.ap_on_air

unfoldable pub should_roll_back : Prov → Bool
should_roll_back s = is_restore s.action

unfoldable pub failure_name : ProvFailure → String
failure_name ProvFailure.network_absent = "network-not-found"
failure_name ProvFailure.wrong_password = "wrong-password"
failure_name ProvFailure.refused = "refused"
failure_name ProvFailure.no_address = "no-address"
failure_name ProvFailure.none = "none"

unfoldable pub fallback_in_ms : Prov → ℕ → ℕ
fallback_in_ms s now_ms =
    if is_fallback s.state
      || (s.ap_on_air || (not s.failing || (not (earns s.failure) || s.cfg.fallback_after_ms == 0)))
    then prov_never
    else remaining now_ms s.failing_at s.cfg.fallback_after_ms
