-- ===== src/Provision/Exposure.antt =====
-- How long the access point of a window stays open.
use opentherm_thermostat_fir.Prelude.{
  ℕ, ◌≤◌, ◌≡◌, ◌≢◌, Bool, true, false, ◌&&◌, List, [], ◌∷◌, All, arith,
}
use opentherm_thermostat_fir.Prelude.Word.{sub32}
use opentherm_thermostat_fir.Provision.Types.{Prov, ProvConfig}
use opentherm_thermostat_fir.Provision.Window.{
  elapsed, window_length, window_open_at, window_is_open,
}
use opentherm_thermostat_fir.Provision.Retry.{
  set_action, note_failure, start_clock, arm_retry, take_action,
}
use opentherm_thermostat_fir.Provision.Events.{
  on_ap_started, on_ap_stopped, on_associated, on_connected, on_disconnected, on_credentials_saved,
  on_client_seen, commit, judge,
}
use opentherm_thermostat_fir.Provision.Tick.{
  tick, close_window, leave_window, end_trial, roll_back, miss_address, nudge, try_again,
  raise_fallback, note_escape,
}
use opentherm_thermostat_fir.Provision.Trace.{
  ProvOp, ap_started, associates, saved, client_seen, ticked, ap_stopped, connects, taken,
  disconnects, react, run,
}

-- No new access point.
abbrev pub NotStarted : ProvOp → Type 0
NotStarted (ap_started t) = ⊥
NotStarted _ = Unit

-- The window, where one is open, is the one that opened at `since`, and one may be open.
abbrev pub Since : Prov → ProvConfig → ℕ → Bool → Type 0
Since s c since may_run =
    (s.ap_on_air && s.window_running ≡ true → (s.window_opened_at ≡ since) × (may_run ≡ true))
    × (s.cfg ≡ c)

later_steps-Since :
    (s : Prov) (c : ProvConfig) (since t : ℕ) (m : Bool)
    → Since s c since m
    → Since (note_escape (raise_fallback s t) t) c since m
unfolding note_escape raise_fallback
later_steps-Since s c since t m v = ground (arith, v)

try_again-Since :
    (s : Prov) (c : ProvConfig) (since t : ℕ) (m : Bool)
    → Since s c since m
    → Since (try_again s t) c since m
unfolding try_again set_action
try_again-Since s c since t m v = ground (arith, v)

miss_address-Since :
    (s : Prov) (c : ProvConfig) (since t : ℕ) (m : Bool)
    → Since s c since m
    → Since (miss_address s t) c since m
unfolding miss_address nudge set_action note_failure start_clock
miss_address-Since s c since t m v = ground (arith, v)

end_trial-Since :
    (s : Prov) (c : ProvConfig) (since t : ℕ) (m : Bool)
    → Since s c since m
    → Since (end_trial s t) c since m
unfolding end_trial roll_back set_action
end_trial-Since s c since t m v = ground (arith, v)

close_window-Since :
    (s : Prov) (c : ProvConfig) (since t : ℕ) (m : Bool)
    → Since s c since m
    → Since (close_window s t) c since m
unfolding close_window leave_window
close_window-Since s c since t m v = ground (arith, v)

after_window-Since :
    (s : Prov) (c : ProvConfig) (since t : ℕ) (m : Bool)
    → Since (close_window s t) c since m
    → Since (tick s t) c since m
unfolding tick
after_window-Since s c since t m v = later_steps-Since _ c since t m (
    try_again-Since _ c since t m
      (miss_address-Since _ c since t m (end_trial-Since _ c since t m v)))

react-Since :
    (s : Prov) (c : ProvConfig) (since : ℕ) (m : Bool) (o : ProvOp)
    → NotStarted o
    → Since s c since m
    → Since (react s o) c since m
unfolding react
react-Since s c since m (ap_started t) n v = absurd n
react-Since s c since m ap_stopped n v = unfold on_ap_stopped in ground (arith, v)
react-Since s c since m (associates t) n v = unfold on_associated in ground (arith, v)
react-Since s c since m connects n v = unfold on_connected commit set_action in ground (arith, v)
react-Since s c since m (disconnects t reason) n v =
    unfold on_disconnected arm_retry judge note_failure start_clock in ground (arith, v)
react-Since s c since m (saved t) n v = unfold on_credentials_saved in ground (arith, v)
react-Since s c since m (client_seen t) n v = unfold on_client_seen in ground (arith, v)
react-Since s c since m taken n v = unfold take_action in ground (arith, v)
react-Since s c since m (ticked t) n v =
    after_window-Since s c since t m (close_window-Since s c since t m v)

run-Since :
    (s : Prov) (c : ProvConfig) (since : ℕ) (m : Bool) (os : List ProvOp)
    → All NotStarted os
    → Since s c since m
    → Since (run s os) c since m
unfolding run
run-Since s c since m [] n v = v
run-Since s c since m (o ∷ os) n v =
    run-Since (react s o) c since m os n.1 (react-Since s c since m o n.0 v)

-- A configuration in which every window closes.
pub record IsBounded (c : ProvConfig) : Type 0 where
  pub first : c.setup_window_ms ≢ 0
  pub later : c.reopen_window_ms ≢ 0
  pub ceiling : c.setup_window_ceiling_ms ≢ 0

ceiling_closes :
    (s : Prov) (c : ProvConfig) (since t : ℕ)
    → IsBounded c
    → c.setup_window_ceiling_ms ≤ sub32 t since
    → Since s c since true
    → Since (close_window s t) c since false
unfolding close_window leave_window window_open_at window_length elapsed
ceiling_closes s c since t b late v = ground (arith, b.first, b.later, b.ceiling, late, v)

started-Since : (s : Prov) (t : ℕ) → s.ap_on_air ≡ false → Since (on_ap_started s t) s.cfg t true
unfolding on_ap_started
started-Since s t off = ground (arith, off)

shut : (s : Prov) (c : ProvConfig) (since : ℕ) → Since s c since false → window_is_open s ≡ false
unfolding window_is_open
shut s c since v = ground (arith, v)

-- The setup window closes at its ceiling whatever happens in it: in a configuration whose two
-- windows and ceiling are not 0, an access point that starts at `t0` where none was on the air is
-- no longer in an open window from the first tick at which the ceiling has passed, after any
-- sequence of events and questions before that tick and any sequence after it (the
-- portal's clients, attempts, saved credentials and rollbacks included) in which no access point
-- starts again.
pub bounded_exposure :
    (s : Prov) (t0 t : ℕ) (before after : List ProvOp)
    → s.ap_on_air ≡ false
    → IsBounded s.cfg
    → s.cfg.setup_window_ceiling_ms ≤ sub32 t t0
    → All NotStarted before
    → All NotStarted after
    → window_is_open (run (tick (run (on_ap_started s t0) before) t) after) ≡ false
bounded_exposure s t0 t before after off b late nb na = shut _ s.cfg t0 (
    run-Since _ s.cfg t0 false after na (
      after_window-Since _ s.cfg t0 t false (
        ceiling_closes _ s.cfg t0 t b late
          (run-Since _ s.cfg t0 true before nb (started-Since s t0 off)))))
