-- ===== src/Provision/Alive.antt =====
-- No device with a network is ever left without a next step.
use opentherm_thermostat_fir.Prelude.{
  ℕ, ◌≡◌, ◌⊎◌, Bool, true, false, Option, none, some, List, [], ◌∷◌, arith,
}
use opentherm_thermostat_fir.Provision.Types.{Prov, ProvConfig, ProvBoot, ProvState, ProvAction}
use opentherm_thermostat_fir.Provision.Retry.{
  set_action, note_failure, start_clock, arm_retry, take_action,
}
use opentherm_thermostat_fir.Provision.Events.{
  init, booted, on_ap_started, on_ap_stopped, on_associated, on_connected, on_disconnected,
  on_credentials_saved, on_client_seen, commit, judge,
}
use opentherm_thermostat_fir.Provision.Tick.{
  tick, close_window, leave_window, end_trial, roll_back, miss_address, nudge, try_again,
  raise_fallback, note_escape,
}
use opentherm_thermostat_fir.Provision.Trace.{
  ProvOp, ap_started, associates, saved, client_seen, ticked, ap_stopped, connects, taken,
  disconnects, react, run, attempting, under_way,
}

-- What happens next, for a device that has a network.
abbrev pub HasNextStep : Prov → Bool → Type 0
HasNextStep s a =
    (s.state ≡ ProvState.connected)
    ⊎ (s.associated ≡ true)
    ⊎ (s.retry_armed ≡ true)
    ⊎ (s.action ≡ ProvAction.connect)
    ⊎ (s.action ≡ ProvAction.restore_credentials)
    ⊎ (a ≡ true)

pub record IsAlive (s : Prov) (a : Bool) : Type 0 where
  pub next : s.has_credentials ≡ true → HasNextStep s a
  pub calm : s.state ≡ ProvState.connected → (s.failing ≡ false) × (s.trialling ≡ false)

close_window-IsAlive : (s : Prov) (a : Bool) (t : ℕ) → IsAlive s a → IsAlive (close_window s t) a
unfolding close_window leave_window
close_window-IsAlive s a t v = ground (arith, v.next, v.calm)

end_trial-IsAlive : (s : Prov) (a : Bool) (t : ℕ) → IsAlive s a → IsAlive (end_trial s t) a
unfolding end_trial roll_back set_action
end_trial-IsAlive s a t v = ground (arith, v.next, v.calm)

miss_address-IsAlive : (s : Prov) (a : Bool) (t : ℕ) → IsAlive s a → IsAlive (miss_address s t) a
unfolding miss_address nudge set_action note_failure start_clock
miss_address-IsAlive s a t v = ground (arith, v.next, v.calm)

try_again-IsAlive : (s : Prov) (a : Bool) (t : ℕ) → IsAlive s a → IsAlive (try_again s t) a
unfolding try_again set_action
try_again-IsAlive s a t v = ground (arith, v.next, v.calm)

raise_fallback-IsAlive :
    (s : Prov) (a : Bool) (t : ℕ) → IsAlive s a → IsAlive (raise_fallback s t) a
unfolding raise_fallback
raise_fallback-IsAlive s a t v = ground (arith, v.next, v.calm)

note_escape-IsAlive : (s : Prov) (a : Bool) (t : ℕ) → IsAlive s a → IsAlive (note_escape s t) a
unfolding note_escape
note_escape-IsAlive s a t v = ground (arith, v.next, v.calm)

tick-IsAlive : (s : Prov) (a : Bool) (t : ℕ) → IsAlive s a → IsAlive (tick s t) a
unfolding tick
tick-IsAlive s a t v =
    let closed = close_window-IsAlive s a t v in
    let ended = end_trial-IsAlive (close_window s t) a t closed in
    let missed = miss_address-IsAlive _ a t ended in
    let tried = try_again-IsAlive _ a t missed in
    note_escape-IsAlive _ a t (raise_fallback-IsAlive _ a t tried)

react-IsAlive :
    (s : Prov) (a : Bool) (o : ProvOp) → IsAlive s a → IsAlive (react s o) (attempting s a o)
unfolding react attempting
react-IsAlive s a (ap_started t) v = unfold on_ap_started in ground (arith, v.next, v.calm)
react-IsAlive s a ap_stopped v = unfold on_ap_stopped in ground (arith, v.next, v.calm)
react-IsAlive s a (associates t) v = unfold on_associated in ground (arith, v.next, v.calm)
react-IsAlive s a connects v =
    unfold on_connected commit set_action in ground (arith, v.next, v.calm)
react-IsAlive s a (disconnects t reason) v =
    unfold on_disconnected arm_retry judge note_failure start_clock in
    ground (arith, v.next, v.calm)
react-IsAlive s a (saved t) v = unfold on_credentials_saved in ground (arith, v.next, v.calm)
react-IsAlive s a (client_seen t) v = unfold on_client_seen in ground (arith, v.next, v.calm)
react-IsAlive s a (ticked t) v = tick-IsAlive s a t v
react-IsAlive s a taken v = unfold take_action in ground (arith, v.next, v.calm)

run-IsAlive :
    (s : Prov) (a : Bool) (os : List ProvOp) → IsAlive s a → IsAlive (run s os) (under_way s a os)
unfolding run under_way
run-IsAlive s a [] v = v
run-IsAlive s a (o ∷ os) v = run-IsAlive (react s o) (attempting s a o) os (react-IsAlive s a o v)

init-IsAlive : (cfg : Option ProvConfig) (boot : Option ProvBoot) → IsAlive (init cfg boot) false
unfolding init booted
init-IsAlive cfg none = ground arith
init-IsAlive cfg (some boot) = ground arith

-- There is always a way back: after a start and any calls, in any order, a device that has a
-- network is on it, or an attempt is under way, asked for, or waiting for its backoff or for an
-- address. No order of events leaves it with nothing to do.
pub never_stranded :
    (cfg : Option ProvConfig) (boot : Option ProvBoot) (os : List ProvOp)
    → let s = run (init cfg boot) os in
      s.has_credentials ≡ true → HasNextStep s (under_way (init cfg boot) false os)
never_stranded cfg boot os =
    let alive = run-IsAlive (init cfg boot) false os (init-IsAlive cfg boot) in alive.next
