-- ===== src/Provision/Tick.antt =====
-- components/ot_provision/ot_provision.c: ot_prov_tick() in its six steps.
use opentherm_thermostat_fir.Prelude.{ℕ, true, false, not, ◌&&◌, ◌==◌, if◌then◌else◌}
use opentherm_thermostat_fir.Provision.Types.{
  Prov, ProvState, ProvAction, ProvFailure, is_fallback, is_no_address, earns,
}
use opentherm_thermostat_fir.Provision.Window.{elapsed, window_open_at}
use opentherm_thermostat_fir.Provision.Retry.{set_action, note_failure}

-- The access point of the window that closes: what becomes of the state.
unfoldable pub leave_window : Prov → ℕ → Prov
leave_window s now_ms = elim s.state [
  | ProvState.unconfigured ↦ record s { state = ProvState.window_closed }
  | ProvState.fallback_ap ↦
      let back = record s { state = ProvState.retrying } in
      if earns s.failure then record back { failing = true; failing_at = now_ms } else back
  | _ ↦ s
]

-- 1. The setup window ran out.
unfoldable pub close_window : Prov → ℕ → Prov
close_window s now_ms =
    if s.window_running && (s.ap_on_air && not (window_open_at s now_ms))
    then leave_window (record s { window_running = false; window_ever_closed = true }) now_ms
    else s

-- 2. The trial ran out.
unfoldable pub roll_back : Prov → Prov
roll_back s =
    if s.has_known_good
    then (set_action
        record s {
          state = ProvState.connecting;
          retry_armed = false;
          attempts = 0;
          credentials_committed = true;
        }
        ProvAction.restore_credentials).0
    else record s { state = ProvState.retrying }

unfoldable pub end_trial : Prov → ℕ → Prov
end_trial s now_ms =
    if s.trialling && elapsed now_ms s.trial_at s.cfg.trial_timeout_ms
    then roll_back (record s { trialling = false })
    else s

-- 3. Associated, and no address ever arrived. The flag falls once the nudge has been issued.
unfoldable pub nudge : Prov → Prov
nudge s =
    let (nudged, took) = set_action s ProvAction.connect in
    if took then record nudged { associated = false } else nudged

unfoldable pub miss_address : Prov → ℕ → Prov
miss_address s now_ms =
    let noted = note_failure s ProvFailure.no_address 0 now_ms in
    if s.associated && elapsed now_ms s.associated_at s.cfg.address_timeout_ms
    then nudge record noted {
      state =
          if not (is_fallback s.state)
          then (if s.trialling then ProvState.trial else ProvState.connecting)
          else s.state;
    }
    else s

abbrev pub retried : ProvState → ProvState
retried ProvState.retrying = ProvState.connecting
retried st = st

-- 4. The backoff expired.
unfoldable pub try_again : Prov → ℕ → Prov
try_again s now_ms =
    let (asked, took) = set_action s ProvAction.connect in
    if s.retry_armed && elapsed now_ms s.retry_at s.retry_delay_ms
    then (if took then record asked { retry_armed = false; state = retried s.state } else asked)
    else s

-- 5. Sustained failure of the right kind.
unfoldable pub raise_fallback : Prov → ℕ → Prov
raise_fallback s now_ms =
    if (s.has_credentials && (s.failing && earns s.failure))
      && ((not s.ap_on_air && not (is_fallback s.state))
          && (not (s.cfg.fallback_after_ms == 0)
              && elapsed now_ms s.failing_at s.cfg.fallback_after_ms))
    then record s { state = ProvState.fallback_ap }
    else s

-- 6. The way back for the failure that step 5 excludes.
unfoldable pub note_escape : Prov → ℕ → Prov
note_escape s now_ms =
    if (s.failing && is_no_address s.failure)
      && (not (s.cfg.fallback_after_ms == 0) && elapsed now_ms s.failing_at s.cfg.fallback_after_ms)
    then record s { address_never_arrived = true }
    else s

unfoldable pub tick : Prov → ℕ → Prov
tick s now_ms =
    let closed = close_window s now_ms in
    let ended = end_trial closed now_ms in
    let missed = miss_address ended now_ms in
    let tried = try_again missed now_ms in note_escape (raise_fallback tried now_ms) now_ms
