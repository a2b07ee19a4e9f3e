-- ===== src/Provision/Claim.antt =====
-- What the setup mode lets through: the state machine and the access rule of components/ot_policy
-- together, as ot_net_is_provisioned() hands the one's answer to the other.
use opentherm_thermostat_fir.Prelude.{
  ℕ, Bool, true, false, ◌≡◌, ◌≢◌, ◌∙◌, some, List, [], ◌∷◌, All, arith,
}
use opentherm_thermostat_fir.Policy.Text.{bytes}
use opentherm_thermostat_fir.Policy.Access.{same_iff}
use opentherm_thermostat_fir.Policy.Check.{
  HttpCtx, post, forbidden, check, check_unprovisioned, path_is,
}
use opentherm_thermostat_fir.Provision.Types.{Prov}
use opentherm_thermostat_fir.Provision.Retry.{
  set_action, note_failure, start_clock, arm_retry, take_action,
}
use opentherm_thermostat_fir.Provision.Events.{
  on_ap_started, on_associated, on_connected, on_disconnected, on_credentials_saved, on_client_seen,
  commit, judge,
}
use opentherm_thermostat_fir.Provision.Tick.{
  tick, close_window, leave_window, end_trial, roll_back, miss_address, nudge, try_again,
  raise_fallback, note_escape,
}
use opentherm_thermostat_fir.Provision.Questions.{is_provisioned}
use opentherm_thermostat_fir.Provision.Trace.{
  ProvOp, ap_started, associates, saved, client_seen, ticked, ap_stopped, connects, taken,
  disconnects, react, run,
}

-- The access point stays on the air.
abbrev pub NotStopped : ProvOp → Type 0
NotStopped ap_stopped = ⊥
NotStopped _ = Unit

later_steps-air : (s : Prov) (t : ℕ) → (note_escape (raise_fallback s t) t).ap_on_air ≡ s.ap_on_air
unfolding note_escape raise_fallback
later_steps-air s t = ground arith

try_again-air : (s : Prov) (t : ℕ) → (try_again s t).ap_on_air ≡ s.ap_on_air
unfolding try_again set_action
try_again-air s t = ground arith

miss_address-air : (s : Prov) (t : ℕ) → (miss_address s t).ap_on_air ≡ s.ap_on_air
unfolding miss_address nudge set_action note_failure start_clock
miss_address-air s t = ground arith

end_trial-air : (s : Prov) (t : ℕ) → (end_trial s t).ap_on_air ≡ s.ap_on_air
unfolding end_trial roll_back set_action
end_trial-air s t = ground arith

close_window-air : (s : Prov) (t : ℕ) → (close_window s t).ap_on_air ≡ s.ap_on_air
unfolding close_window leave_window
close_window-air s t = ground arith

tick-air : (s : Prov) (t : ℕ) → (tick s t).ap_on_air ≡ s.ap_on_air
unfolding tick
tick-air s t = cc (
  later_steps-air (try_again (miss_address (end_trial (close_window s t) t) t) t) t,
  try_again-air (miss_address (end_trial (close_window s t) t) t) t,
  miss_address-air (end_trial (close_window s t) t) t,
  end_trial-air (close_window s t) t,
  close_window-air s t,
)

react-air :
    (s : Prov) (o : ProvOp) → NotStopped o → s.ap_on_air ≡ true → (react s o).ap_on_air ≡ true
unfolding react
react-air s (ap_started t) n h = unfold on_ap_started in ground (arith, h)
react-air s ap_stopped n h = absurd n
react-air s (associates t) n h = unfold on_associated in ground (arith, h)
react-air s connects n h = unfold on_connected commit set_action in ground (arith, h)
react-air s (disconnects t reason) n h =
    unfold on_disconnected arm_retry judge note_failure start_clock in ground (arith, h)
react-air s (saved t) n h = unfold on_credentials_saved in ground (arith, h)
react-air s (client_seen t) n h = unfold on_client_seen in ground (arith, h)
react-air s taken n h = unfold take_action in ground (arith, h)
react-air s (ticked t) n h = tick-air s t ∙ h

run-air :
    (s : Prov) (os : List ProvOp)
    → All NotStopped os
    → s.ap_on_air ≡ true
    → (run s os).ap_on_air ≡ true
unfolding run
run-air s [] n h = h
run-air s (o ∷ os) n h = run-air (react s o) os n.1 (react-air s o n.0 h)

started-air : (s : Prov) (t : ℕ) → (on_ap_started s t).ap_on_air ≡ true
unfolding on_ap_started
started-air s t = ground arith

unclaimed : (s : Prov) → s.ap_on_air ≡ true → is_provisioned s ≡ false
unfolding is_provisioned
unclaimed s h = ground (arith, h)

closed_door :
    (path : List ℕ) (ctx : HttpCtx)
    → path ≢ bytes "/api/provision"
    → ctx.provisioned ≡ false
    → check post (some path) ctx ≡ forbidden
unfolding check check_unprovisioned path_is
closed_door path ctx other h = ground (arith, other, h, same_iff path (bytes "/api/provision"))

-- In the setup mode only the provisioning form is open for writing: from the start of the access
-- point, after any events, ticks and saved credentials, until the access point stops, a POST to
-- any other path is forbidden, whatever the password and the session.
pub only_the_form :
    (s : Prov) (t : ℕ) (os : List ProvOp) (path : List ℕ) (password_set authenticated : Bool)
    → All NotStopped os
    → path ≢ bytes "/api/provision"
    → check post (some path) record {
      provisioned = is_provisioned (run (on_ap_started s t) os);
      password_set = password_set;
      authenticated = authenticated;
    }
      ≡ forbidden
only_the_form s t os path password_set authenticated n other =
    closed_door path _ other (unclaimed _ (run-air (on_ap_started s t) os n (started-air s t)))
