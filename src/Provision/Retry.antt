-- ===== src/Provision/Retry.antt =====
-- components/ot_provision/ot_provision.c: the failures, the backoff and the one-shot action.
use opentherm_thermostat_fir.Prelude.{
  ℕ, zero, suc, ◌+◌, ◌*◌, Bool, true, false, not, ◌&&◌, ◌||◌, leb, ltb, ◌==◌, differ, if◌then◌else◌,
  List, [], ◌∷◌,
}
use opentherm_thermostat_fir.Prelude.Word.{u32}
use opentherm_thermostat_fir.Provision.Types.{
  Prov, ProvAction, ProvFailure, is_connect, is_nothing, earns,
}

-- The flag says whether the action took.
unfoldable pub set_action : Prov → ProvAction → Prov × Bool
set_action s a =
    if is_connect a && not (is_nothing s.action)
    then (s, false)
    else (record s { action = a }, true)

-- The loop of backoff_ms() with `attempt` rounds to go.
unfoldable pub doubled : ℕ → ℕ → ℕ → ℕ
doubled zero max_ms delay = delay
doubled (suc attempt) max_ms delay =
    if leb max_ms delay || ltb 2147483647 delay
    then delay
    else doubled attempt max_ms (u32 (delay * 2))

unfoldable pub backoff_ms : Prov → ℕ → ℕ
backoff_ms s attempt =
    let delay = doubled attempt s.cfg.retry_backoff_max_ms s.cfg.retry_backoff_min_ms in
    if ltb s.cfg.retry_backoff_max_ms delay then s.cfg.retry_backoff_max_ms else delay

-- The clock starts again where the failure comes to the other side of the line.
unfoldable pub start_clock : Prov → ProvFailure → ℕ → Prov
start_clock s f now =
    if not s.failing || differ (earns s.failure) (earns f)
    then record s { failing = true; failing_at = now }
    else s

unfoldable pub note_failure : Prov → ProvFailure → ℕ → ℕ → Prov
note_failure s f reason now = record (start_clock s f now) { failure = f; failure_reason = reason }

unfoldable pub arm_retry : Prov → ℕ → Prov
arm_retry s now = record s {
  retry_delay_ms = backoff_ms s s.attempts;
  retry_at = now;
  retry_armed = true;
  attempts = if ltb s.attempts 32 then s.attempts + 1 else s.attempts;
}

unfoldable pub take_action : Prov → Prov × ProvAction
take_action s = (record s { action = ProvAction.none }, s.action)

abbrev pub is_one_of : ℕ → List ℕ → Bool
is_one_of n [] = false
is_one_of n (x ∷ xs) = n == x || is_one_of n xs

unfoldable pub classify : ℕ → ProvFailure
classify reason =
    if is_one_of reason (200 ∷ 201 ∷ 210 ∷ 211 ∷ 212 ∷ [])
    then ProvFailure.network_absent
    else if is_one_of reason (14 ∷ 15 ∷ 202 ∷ 204 ∷ [])
    then ProvFailure.wrong_password
    else if reason == 8
    then ProvFailure.none
    else ProvFailure.refused
