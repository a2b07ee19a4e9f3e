-- ===== src/Provision/Commits.antt =====
-- The writes of the known-good pair, counted.
use opentherm_thermostat_fir.Prelude.{
  ℕ, suc, ◌+◌, ◌≤◌, ◌≡◌, Bool, true, false, not, Option, none, some, List, [], ◌∷◌, arith,
  if◌then◌else◌,
}
use opentherm_thermostat_fir.Provision.Types.{Prov, ProvConfig, ProvBoot, ProvAction}
use opentherm_thermostat_fir.Provision.Retry.{
  set_action, note_failure, start_clock, arm_retry, take_action,
}
use opentherm_thermostat_fir.Provision.Events.{
  init, booted, on_ap_started, on_ap_stopped, on_associated, on_connected, on_disconnected,
  on_credentials_saved, on_client_seen, commit, judge,
}
use opentherm_thermostat_fir.Provision.Tick.{
  tick, close_window, leave_window, end_trial, roll_back, miss_address, nudge, try_again,
  raise_fallback, note_escape,
}
use opentherm_thermostat_fir.Provision.Trace.{
  ProvOp, ap_started, associates, saved, client_seen, ticked, ap_stopped, connects, taken,
  disconnects, react,
}

abbrev pub is_commit : ProvAction → Bool
is_commit ProvAction.commit_credentials = true
is_commit _ = false

abbrev pub one_if : Bool → ℕ
one_if b = if b then 1 else 0

-- The commits that the caller has taken, and so written to flash.
unfoldable pub commits : Prov → List ProvOp → ℕ
commits s [] = 0
commits s (taken ∷ os) = one_if (is_commit s.action) + commits (react s taken) os
commits s (o ∷ os) = commits (react s o) os

-- The pairs that were saved.
unfoldable pub pairs : List ProvOp → ℕ
pairs [] = 0
pairs (saved t ∷ os) = suc (pairs os)
pairs (o ∷ os) = pairs os

-- The commits that a state can still lead to with no new pair.
abbrev pub credit : Prov → ℕ
credit s = one_if (is_commit s.action) + one_if (not s.credentials_committed)

close_window-credit : (s : Prov) (t : ℕ) → credit (close_window s t) ≡ credit s
unfolding close_window leave_window
close_window-credit s t = ground arith

end_trial-credit : (s : Prov) (t : ℕ) → credit (end_trial s t) ≤ credit s
unfolding end_trial roll_back set_action
end_trial-credit s t = ground arith

miss_address-credit : (s : Prov) (t : ℕ) → credit (miss_address s t) ≡ credit s
unfolding miss_address nudge set_action note_failure start_clock
miss_address-credit s t = ground arith

try_again-credit : (s : Prov) (t : ℕ) → credit (try_again s t) ≡ credit s
unfolding try_again set_action
try_again-credit s t = ground arith

last_steps-credit : (s : Prov) (t : ℕ) → credit (note_escape (raise_fallback s t) t) ≡ credit s
unfolding note_escape raise_fallback
last_steps-credit s t = ground arith

tick-credit : (s : Prov) (t : ℕ) → credit (tick s t) ≤ credit s
unfolding tick
tick-credit s t =
    let closed = close_window s t in
    let ended = end_trial closed t in
    let missed = miss_address ended t in
    omega (
      arith,
      close_window-credit s t,
      end_trial-credit closed t,
      miss_address-credit ended t,
      try_again-credit missed t,
      last_steps-credit (try_again missed t) t,
    )

disconnected-credit : (s : Prov) (t reason : ℕ) → credit (on_disconnected s t reason) ≡ credit s
unfolding on_disconnected arm_retry judge note_failure start_clock
disconnected-credit s t reason = ground arith

connected-credit : (s : Prov) → credit (on_connected s) ≤ credit s
unfolding on_connected commit set_action
connected-credit s = ground arith

ap_started-credit : (s : Prov) (t : ℕ) → credit (on_ap_started s t) ≡ credit s
unfolding on_ap_started
ap_started-credit s t = ground arith

client_seen-credit : (s : Prov) (t : ℕ) → credit (on_client_seen s t) ≡ credit s
unfolding on_client_seen
client_seen-credit s t = ground arith

commits_bound : (s : Prov) (os : List ProvOp) → commits s os ≤ credit s + pairs os
unfolding commits pairs react on_ap_stopped on_associated on_credentials_saved take_action
commits_bound s [] = omega arith
commits_bound s (ap_started t ∷ os) =
    omega (arith, commits_bound (on_ap_started s t) os, ap_started-credit s t)
commits_bound s (ap_stopped ∷ os) = omega (arith, commits_bound (on_ap_stopped s) os)
commits_bound s (associates t ∷ os) = omega (arith, commits_bound (on_associated s t) os)
commits_bound s (connects ∷ os) =
    omega (arith, commits_bound (on_connected s) os, connected-credit s)
commits_bound s (disconnects t reason ∷ os) =
    omega (arith, commits_bound (on_disconnected s t reason) os, disconnected-credit s t reason)
commits_bound s (saved t ∷ os) = omega (arith, commits_bound (on_credentials_saved s t) os)
commits_bound s (client_seen t ∷ os) =
    omega (arith, commits_bound (on_client_seen s t) os, client_seen-credit s t)
commits_bound s (ticked t ∷ os) = omega (arith, commits_bound (tick s t) os, tick-credit s t)
commits_bound s (taken ∷ os) = omega (arith, commits_bound (take_action s).0 os)

init-credit : (cfg : Option ProvConfig) (boot : Option ProvBoot) → credit (init cfg boot) ≡ 1
unfolding init booted
init-credit cfg none = ground arith
init-credit cfg (some boot) = ground arith

-- Flash is written once for each pair: after a start and any calls, in any order, the known-good
-- pair has been written at most once more often than pairs were saved, however often the network
-- comes and goes.
pub commits_bounded :
    (cfg : Option ProvConfig) (boot : Option ProvBoot) (os : List ProvOp)
    → commits (init cfg boot) os ≤ pairs os + 1
commits_bounded cfg boot os = omega (arith, commits_bound (init cfg boot) os, init-credit cfg boot)
