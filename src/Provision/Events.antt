-- ===== src/Provision/Events.antt =====
-- components/ot_provision/ot_provision.c: the start and the events.
use opentherm_thermostat_fir.Prelude.{
  ℕ, true, false, not, ◌&&◌, ◌||◌, Option, none, some, if◌then◌else◌,
}
use opentherm_thermostat_fir.Provision.Types.{
  Prov, ProvConfig, ProvBoot, ProvState, ProvAction, ProvFailure, config_defaults, is_verdict,
}
use opentherm_thermostat_fir.Provision.Window.{window_open_at}
use opentherm_thermostat_fir.Provision.Retry.{set_action, note_failure, arm_retry, classify}

-- The struct of zeroes with its configuration.
abbrev pub blank : ProvConfig → Prov
blank c = record {
  cfg = c;
  state = ProvState.unconfigured;
  action = ProvAction.none;
  failure = ProvFailure.none;
  failure_reason = 0;
  has_credentials = false;
  has_known_good = false;
  credentials_committed = false;
  ap_on_air = false;
  window_running = false;
  window_ever_closed = false;
  window_is_the_short_one = false;
  trialling = false;
  associated = false;
  address_never_arrived = false;
  failing = false;
  retry_armed = false;
  attempts = 0;
  retry_delay_ms = 0;
  window_opened_at = 0;
  window_extended_at = 0;
  trial_at = 0;
  associated_at = 0;
  failing_at = 0;
  retry_at = 0;
}

-- The facts of NVS; none for NULL.
unfoldable pub booted : Prov → Option ProvBoot → Prov
booted s none = s
booted s (some boot) = record s {
  has_credentials = boot.has_credentials;
  has_known_good = boot.has_known_good;
  window_ever_closed = boot.window_closed_before;
  address_never_arrived = boot.address_never_arrived;
}

unfoldable pub init : Option ProvConfig → Option ProvBoot → Prov
init cfg boot =
    let s = booted (blank (elim cfg [ none ↦ config_defaults | some c ↦ c ])) boot in
    record s {
      credentials_committed = false;
      state =
          if s.has_credentials && s.address_never_arrived
          then ProvState.fallback_ap
          else if s.has_credentials
          then ProvState.connecting
          else ProvState.unconfigured;
      action = if s.has_credentials then ProvAction.connect else ProvAction.none;
    }

unfoldable pub on_ap_started : Prov → ℕ → Prov
on_ap_started s now_ms = if s.ap_on_air then s else record s {
  ap_on_air = true;
  window_running = true;
  window_opened_at = now_ms;
  window_extended_at = now_ms;
  window_is_the_short_one = s.window_ever_closed || s.has_credentials;
}

unfoldable pub on_ap_stopped : Prov → Prov
on_ap_stopped s = record s { ap_on_air = false; window_running = false }

unfoldable pub on_associated : Prov → ℕ → Prov
on_associated s now_ms = record s { associated = true; associated_at = now_ms }

-- The pair in NVS is known to be good, once for each pair.
unfoldable pub commit : Prov → Prov
commit s =
    if not s.credentials_committed
    then (set_action (record s { credentials_committed = true; has_known_good = true })
        ProvAction.commit_credentials).0
    else s

unfoldable pub on_connected : Prov → Prov
on_connected s = commit record s {
  state = ProvState.connected;
  associated = false;
  trialling = false;
  retry_armed = false;
  attempts = 0;
  failing = false;
  failure = ProvFailure.none;
  failure_reason = 0;
  has_credentials = true;
  address_never_arrived = false;
  window_running = false;
}

-- A verdict on the attempt becomes the standing answer.
unfoldable pub judge : Prov → ℕ → ℕ → Prov
judge s now_ms reason =
    if is_verdict (classify reason) then note_failure s (classify reason) reason now_ms else s

unfoldable pub on_disconnected : Prov → ℕ → ℕ → Prov
on_disconnected s now_ms reason =
    let judged = judge (record s { associated = false }) now_ms reason in
    if not s.has_credentials
    then s
    else arm_retry
        record judged { state = if not s.trialling then ProvState.retrying else judged.state }
        now_ms

unfoldable pub on_credentials_saved : Prov → ℕ → Prov
on_credentials_saved s now_ms = record s {
  has_credentials = true;
  credentials_committed = false;
  trialling = true;
  trial_at = now_ms;
  state = ProvState.trial;
  attempts = 0;
  retry_armed = false;
  failing = false;
  failure = ProvFailure.none;
  failure_reason = 0;
  address_never_arrived = false;
  action = ProvAction.connect;
  window_extended_at = if s.window_running then now_ms else s.window_extended_at;
}

unfoldable pub on_client_seen : Prov → ℕ → Prov
on_client_seen s now_ms =
    if not (window_open_at s now_ms) then s else record s { window_extended_at = now_ms }
