-- ===== src/Provision/Types.antt =====
-- components/ot_provision/include/ot_provision.h: the data of the state machine.
use opentherm_thermostat_fir.Prelude.{ℕ, Bool, true, false, ◌*◌}

abbrev pub prov_never : ℕ
prov_never = 4294967295

-- `ot_prov_state_t`.
pub data ProvState : Type 0 where
  unconfigured connecting connected trial retrying fallback_ap window_closed : ProvState

-- `ot_prov_mode_t`.
pub data ProvMode : Type 0 where
  off access_point station ap_sta : ProvMode

-- `ot_prov_failure_t`.
pub data ProvFailure : Type 0 where
  none network_absent wrong_password refused no_address : ProvFailure

-- `ot_prov_action_t`.
pub data ProvAction : Type 0 where
  none connect commit_credentials restore_credentials : ProvAction

-- `ot_prov_config_t`.
pub record ProvConfig : Type 0 where
  pub setup_window_ms : ℕ
  pub setup_window_ceiling_ms : ℕ
  pub reopen_window_ms : ℕ
  pub fallback_after_ms : ℕ
  pub trial_timeout_ms : ℕ
  pub address_timeout_ms : ℕ
  pub retry_backoff_min_ms : ℕ
  pub retry_backoff_max_ms : ℕ

-- `ot_prov_boot_t`.
pub record ProvBoot : Type 0 where
  pub has_credentials : Bool
  pub has_known_good : Bool
  pub window_closed_before : Bool
  pub address_never_arrived : Bool

-- `ot_prov_t`.
pub record Prov : Type 0 where
  pub cfg : ProvConfig
  pub state : ProvState
  pub action : ProvAction
  pub failure : ProvFailure
  pub failure_reason : ℕ
  pub has_credentials : Bool
  pub has_known_good : Bool
  pub credentials_committed : Bool
  pub ap_on_air : Bool
  pub window_running : Bool
  pub window_ever_closed : Bool
  pub window_is_the_short_one : Bool
  pub trialling : Bool
  pub associated : Bool
  pub address_never_arrived : Bool
  pub failing : Bool
  pub retry_armed : Bool
  pub attempts : ℕ
  pub retry_delay_ms : ℕ
  pub window_opened_at : ℕ
  pub window_extended_at : ℕ
  pub trial_at : ℕ
  pub associated_at : ℕ
  pub failing_at : ℕ
  pub retry_at : ℕ

abbrev pub is_connect : ProvAction → Bool
is_connect ProvAction.connect = true
is_connect _ = false

abbrev pub is_nothing : ProvAction → Bool
is_nothing ProvAction.none = true
is_nothing _ = false

abbrev pub is_restore : ProvAction → Bool
is_restore ProvAction.restore_credentials = true
is_restore _ = false

abbrev pub is_fallback : ProvState → Bool
is_fallback ProvState.fallback_ap = true
is_fallback _ = false

abbrev pub is_no_address : ProvFailure → Bool
is_no_address ProvFailure.no_address = true
is_no_address _ = false

abbrev pub is_verdict : ProvFailure → Bool
is_verdict ProvFailure.none = false
is_verdict _ = true

-- failure_earns_the_access_point().
unfoldable pub earns : ProvFailure → Bool
earns ProvFailure.network_absent = true
earns ProvFailure.wrong_password = true
earns ProvFailure.refused = true
earns ProvFailure.no_address = false
earns ProvFailure.none = false

unfoldable pub config_defaults : ProvConfig
config_defaults = record {
  setup_window_ms = 15 * 60 * 1000;
  setup_window_ceiling_ms = 60 * 60 * 1000;
  reopen_window_ms = 5 * 60 * 1000;
  fallback_after_ms = 30 * 60 * 1000;
  trial_timeout_ms = 90 * 1000;
  address_timeout_ms = 30 * 1000;
  retry_backoff_min_ms = 1000;
  retry_backoff_max_ms = 30 * 1000;
}
