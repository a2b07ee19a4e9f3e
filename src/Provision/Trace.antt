-- ===== src/Provision/Trace.antt =====
-- The calls of the provisioning task, in any order.
use opentherm_thermostat_fir.Prelude.{ℕ, Bool, false, ◌||◌, List, [], ◌∷◌}
use opentherm_thermostat_fir.Provision.Types.{Prov, is_connect, is_restore}
use opentherm_thermostat_fir.Provision.Retry.{take_action}
use opentherm_thermostat_fir.Provision.Events.{
  on_ap_started, on_ap_stopped, on_associated, on_connected, on_disconnected, on_credentials_saved,
  on_client_seen,
}
use opentherm_thermostat_fir.Provision.Tick.{tick}

pub data ProvOp : Type 0 where
  ap_started associates saved client_seen ticked : ℕ → ProvOp
  ap_stopped connects taken : ProvOp
  disconnects : ℕ → ℕ → ProvOp

unfoldable pub react : Prov → ProvOp → Prov
react s (ap_started now_ms) = on_ap_started s now_ms
react s ap_stopped = on_ap_stopped s
react s (associates now_ms) = on_associated s now_ms
react s connects = on_connected s
react s (disconnects now_ms reason) = on_disconnected s now_ms reason
react s (saved now_ms) = on_credentials_saved s now_ms
react s (client_seen now_ms) = on_client_seen s now_ms
react s (ticked now_ms) = tick s now_ms
react s taken = (take_action s).0

unfoldable pub run : Prov → List ProvOp → Prov
run s [] = s
run s (o ∷ os) = run (react s o) os

-- Whether an attempt of the station is under way: it begins when the caller takes the action that
-- orders it, and ends with an event.
unfoldable pub attempting : Prov → Bool → ProvOp → Bool
attempting s a taken = a || (is_connect s.action || is_restore s.action)
attempting s a connects = false
attempting s a (disconnects now_ms reason) = false
attempting s a _ = a

unfoldable pub under_way : Prov → Bool → List ProvOp → Bool
under_way s a [] = a
under_way s a (o ∷ os) = under_way (react s o) (attempting s a o) os
