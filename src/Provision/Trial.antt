-- ===== src/Provision/Trial.antt =====
-- The rollback: a pair that gives no address is undone on time, and not before.
use opentherm_thermostat_fir.Prelude.{ℕ, ◌≤◌, ◌<◌, ◌≡◌, ◌≢◌, true, false, List, [], ◌∷◌, All, arith}
use opentherm_thermostat_fir.Prelude.Word.{sub32}
use opentherm_thermostat_fir.Provision.Types.{Prov, ProvConfig, ProvAction}
use opentherm_thermostat_fir.Provision.Window.{elapsed}
use opentherm_thermostat_fir.Provision.Retry.{
  set_action, note_failure, start_clock, arm_retry, take_action,
}
use opentherm_thermostat_fir.Provision.Events.{
  on_ap_started, on_ap_stopped, on_associated, on_disconnected, on_credentials_saved,
  on_client_seen, judge,
}
use opentherm_thermostat_fir.Provision.Tick.{
  tick, close_window, leave_window, end_trial, roll_back, miss_address, nudge, try_again,
  raise_fallback, note_escape,
}
use opentherm_thermostat_fir.Provision.Trace.{
  ProvOp, ap_started, associates, saved, client_seen, ticked, ap_stopped, connects, taken,
  disconnects, react, run,
}
use opentherm_thermostat_fir.Provision.Questions.{should_roll_back}

-- A trial of the pair saved at `since`, with a pair to go back to, that nothing has decided.
pub record IsTrial (s : Prov) (c : ProvConfig) (since : ℕ) : Type 0 where
  pub on : s.trialling ≡ true
  pub begun : s.trial_at ≡ since
  pub known : s.has_known_good ≡ true
  pub kept : s.action ≢ ProvAction.restore_credentials
  pub config : s.cfg ≡ c

-- No address, no other pair, and no tick at or after the timeout.
abbrev pub Undecided : ProvConfig → ℕ → ProvOp → Type 0
Undecided c since connects = ⊥
Undecided c since (saved t) = ⊥
Undecided c since (ticked t) = sub32 t since < c.trial_timeout_ms
Undecided c since _ = Unit

close_window-IsTrial :
    (s : Prov) (c : ProvConfig) (since t : ℕ)
    → IsTrial s c since
    → IsTrial (close_window s t) c since
unfolding close_window leave_window
close_window-IsTrial s c since t v = ground (arith, v.kept)

end_trial-IsTrial :
    (s : Prov) (c : ProvConfig) (since t : ℕ)
    → sub32 t since < c.trial_timeout_ms
    → IsTrial s c since
    → IsTrial (end_trial s t) c since
unfolding end_trial elapsed
end_trial-IsTrial s c since t early v = ground (arith, v.kept)

miss_address-IsTrial :
    (s : Prov) (c : ProvConfig) (since t : ℕ)
    → IsTrial s c since
    → IsTrial (miss_address s t) c since
unfolding miss_address nudge set_action note_failure start_clock
miss_address-IsTrial s c since t v = ground (arith, v.kept)

try_again-IsTrial :
    (s : Prov) (c : ProvConfig) (since t : ℕ) → IsTrial s c since → IsTrial (try_again s t) c since
unfolding try_again set_action
try_again-IsTrial s c since t v = ground (arith, v.kept)

last_steps-IsTrial :
    (s : Prov) (c : ProvConfig) (since t : ℕ)
    → IsTrial s c since
    → IsTrial (note_escape (raise_fallback s t) t) c since
unfolding note_escape raise_fallback
last_steps-IsTrial s c since t v = ground (arith, v.kept)

tick-IsTrial :
    (s : Prov) (c : ProvConfig) (since t : ℕ)
    → sub32 t since < c.trial_timeout_ms
    → IsTrial s c since
    → IsTrial (tick s t) c since
unfolding tick
tick-IsTrial s c since t early v = last_steps-IsTrial _ c since t (
    try_again-IsTrial _ c since t (
      miss_address-IsTrial _ c since t
        (end_trial-IsTrial _ c since t early (close_window-IsTrial s c since t v))))

react-IsTrial :
    (s : Prov) (c : ProvConfig) (since : ℕ) (o : ProvOp)
    → Undecided c since o
    → IsTrial s c since
    → IsTrial (react s o) c since
unfolding react
react-IsTrial s c since (ap_started t) u v = unfold on_ap_started in ground (arith, v.kept)
react-IsTrial s c since ap_stopped u v = unfold on_ap_stopped in ground (arith, v.kept)
react-IsTrial s c since (associates t) u v = unfold on_associated in ground (arith, v.kept)
react-IsTrial s c since connects u v = absurd u
react-IsTrial s c since (disconnects t reason) u v =
    unfold on_disconnected arm_retry judge note_failure start_clock in ground (arith, v.kept)
react-IsTrial s c since (saved t) u v = absurd u
react-IsTrial s c since (client_seen t) u v = unfold on_client_seen in ground (arith, v.kept)
react-IsTrial s c since (ticked t) u v = tick-IsTrial s c since t u v
react-IsTrial s c since taken u v = unfold take_action in ground (arith, v.kept)

run-IsTrial :
    (s : Prov) (c : ProvConfig) (since : ℕ) (os : List ProvOp)
    → All (Undecided c since) os
    → IsTrial s c since
    → IsTrial (run s os) c since
unfolding run
run-IsTrial s c since [] u v = v
run-IsTrial s c since (o ∷ os) u v =
    run-IsTrial (react s o) c since os u.1 (react-IsTrial s c since o u.0 v)

-- The tick that ends a trial.
end_trial_restores :
    (s : Prov) (c : ProvConfig) (since t : ℕ)
    → c.trial_timeout_ms ≤ sub32 t since
    → IsTrial s c since
    → ((end_trial s t).action ≡ ProvAction.restore_credentials)
      × ((end_trial s t).trialling ≡ false)
unfolding end_trial roll_back set_action elapsed
end_trial_restores s c since t late v = ground (arith, late)

-- The old pair is asked for, and the trial is over.
abbrev pub Undone : Prov → Type 0
Undone s = (s.action ≡ ProvAction.restore_credentials) × (s.trialling ≡ false)

miss_address-Undone : (s : Prov) (t : ℕ) → Undone s → Undone (miss_address s t)
unfolding miss_address nudge set_action note_failure start_clock
miss_address-Undone s t u = ground arith

try_again-Undone : (s : Prov) (t : ℕ) → Undone s → Undone (try_again s t)
unfolding try_again set_action
try_again-Undone s t u = ground arith

last_steps-Undone : (s : Prov) (t : ℕ) → Undone s → Undone (note_escape (raise_fallback s t) t)
unfolding note_escape raise_fallback
last_steps-Undone s t u = ground arith

-- A typo is undone: after a new pair is saved on a device that has worked before, and as long as
-- no address arrives and no other pair is saved, nothing asks for the old pair before the timeout,
-- whatever else happens, and the first tick at or after it does, and ends the trial.
pub typo_is_undone :
    (s : Prov) (since t : ℕ) (os : List ProvOp)
    → s.has_known_good ≡ true
    → All (Undecided s.cfg since) os
    → s.cfg.trial_timeout_ms ≤ sub32 t since
    → let s' = run (on_credentials_saved s since) os in
      (should_roll_back s' ≡ false)
      × (should_roll_back (tick s' t) ≡ true)
      × ((tick s' t).trialling ≡ false)
unfolding tick should_roll_back
typo_is_undone s since t os known u late =
    let begun : IsTrial (on_credentials_saved s since) s.cfg since =
      unfold on_credentials_saved in ground arith in
    let s' = run (on_credentials_saved s since) os in
    let v = run-IsTrial (on_credentials_saved s since) s.cfg since os u begun in
    let closed = close_window-IsTrial s' s.cfg since t v in
    let ended = end_trial_restores (close_window s' t) s.cfg since t late closed in
    let missed = miss_address-Undone (end_trial (close_window s' t) t) t ended in
    let tried = try_again-Undone (miss_address (end_trial (close_window s' t) t) t) t missed in
    let kept =
      last_steps-Undone (try_again (miss_address (end_trial (close_window s' t) t) t) t) t tried in
    (ground (arith, v.kept), ground (arith, kept), kept.1)
