-- ===== src/Provision/Examples.antt =====
-- Runs of the provisioning machine.
use opentherm_thermostat_fir.Prelude.{
  ℕ, ◌≡◌, ◌≤◌, ◌≢◌, ◌⊎◌, true, false, Option, none, some, List, [], ◌∷◌, refl, arith,
}
use opentherm_thermostat_fir.Prelude.Word.{sub32}
use opentherm_thermostat_fir.Policy.Text.{bytes}
use opentherm_thermostat_fir.Policy.Check.{post, forbidden, check}
use opentherm_thermostat_fir.Provision.Types.{
  Prov, ProvBoot, ProvConfig, ProvState, ProvAction, ProvFailure, config_defaults, earns,
}
use opentherm_thermostat_fir.Provision.Window.{window_is_open, elapsed}
use opentherm_thermostat_fir.Provision.Retry.{
  set_action, note_failure, start_clock, take_action, arm_retry, classify,
}
use opentherm_thermostat_fir.Provision.Events.{
  blank, init, on_ap_started, on_credentials_saved, booted, judge, on_disconnected,
}
use opentherm_thermostat_fir.Provision.Tick.{
  tick, close_window, end_trial, miss_address, try_again, raise_fallback, note_escape, leave_window,
  roll_back, nudge,
}
use opentherm_thermostat_fir.Provision.Questions.{is_provisioned, should_roll_back}
use opentherm_thermostat_fir.Provision.Trace.{
  ProvOp, associates, saved, client_seen, ticked, connects, taken, disconnects, react, run,
  under_way,
}
use opentherm_thermostat_fir.Provision.Alive.{HasNextStep, never_stranded}
use opentherm_thermostat_fir.Provision.Trial.{typo_is_undone}
use opentherm_thermostat_fir.Provision.Fallback.{
  IsEarned, IsRecorded, calls, after_call, fallback_has_cause,
}
use opentherm_thermostat_fir.Provision.Exposure.{IsBounded, bounded_exposure}
use opentherm_thermostat_fir.Provision.Claim.{only_the_form}

abbrev after_reboot : Option ProvBoot
after_reboot = some record {
  has_credentials = true;
  has_known_good = true;
  window_closed_before = true;
  address_never_arrived = false;
}

-- An attempt fails, its backoff passes, the next one gets an address.
abbrev one_failure : List ProvOp
one_failure =
    taken
    ∷ disconnects 500 201
    ∷ ticked 1500
    ∷ taken
    ∷ associates 1700
    ∷ ticked 1800
    ∷ connects
    ∷ []

abbrev at_home : Prov
at_home = record (blank config_defaults) {
  state = ProvState.connected;
  has_credentials = true;
  has_known_good = true;
  credentials_committed = true;
}

abbrev refused_long : Prov
refused_long = record (blank config_defaults) {
  has_credentials = true;
  state = ProvState.retrying;
  failing = true;
  failing_at = 1000;
  failure = ProvFailure.wrong_password;
  action = ProvAction.none;
}

early_enough : config_defaults.trial_timeout_ms ≤ sub32 100000 10000
unfolding config_defaults
early_enough = ground arith

not_yet : refused_long.state ≢ ProvState.fallback_ap
not_yet = ground arith

raised : (after_call refused_long (calls (ticked 1801000))).state ≡ ProvState.fallback_ap
unfolding after_call react tick close_window end_trial miss_address try_again raise_fallback
    note_escape set_action elapsed config_defaults earns leave_window roll_back nudge note_failure
    start_clock
raised = refl

default-IsBounded : IsBounded config_defaults
unfolding config_defaults
default-IsBounded = record { first = ground arith; later = ground arith; ceiling = ground arith }

ceiling_passed : config_defaults.setup_window_ceiling_ms ≤ sub32 3601000 1000
unfolding config_defaults
ceiling_passed = ground arith

small_max : config_defaults.retry_backoff_max_ms ≤ 2147483648
unfolding config_defaults
small_max = ground arith

other_path : bytes "/api/ota" ≢ bytes "/api/provision"
other_path = ground arith

still_has_network :
    (run (init none after_reboot) (taken ∷ disconnects 500 201 ∷ [])).has_credentials ≡ true
unfolding run react init booted take_action on_disconnected arm_retry judge note_failure start_clock
    classify
still_has_network = refl

never_stranded_example :
    HasNextStep
      (run (init none after_reboot) (taken ∷ disconnects 500 201 ∷ []))
      (under_way (init none after_reboot) false (taken ∷ disconnects 500 201 ∷ []))
never_stranded_example =
    never_stranded none after_reboot (taken ∷ disconnects 500 201 ∷ []) still_has_network

typo_is_undone_example :
    let s = run (on_credentials_saved at_home 10000) (taken ∷ disconnects 12000 202 ∷ []) in
    (should_roll_back s ≡ false)
    × (should_roll_back (tick s 100000) ≡ true)
    × ((tick s 100000).trialling ≡ false)
typo_is_undone_example =
    typo_is_undone at_home 10000 100000 (taken ∷ disconnects 12000 202 ∷ []) refl (tt, (tt, tt))
      early_enough

fallback_has_cause_example :
    ((cfg : Option ProvConfig) × (b : ProvBoot) × IsRecorded (calls (ticked 1801000)) cfg b)
    ⊎ ((t : ℕ) × (calls (ticked 1801000) ≡ calls (ticked t))
        × IsEarned (after_call refused_long (calls (ticked 1801000))) t)
fallback_has_cause_example = fallback_has_cause refused_long (calls (ticked 1801000)) not_yet raised

bounded_exposure_example :
    window_is_open (
      run
        (tick
          (run (on_ap_started (blank config_defaults) 1000) (client_seen 5000 ∷ saved 6000 ∷ []))
          3601000)
        (client_seen 3601500 ∷ ticked 3602000 ∷ []))
    ≡ false
bounded_exposure_example =
    bounded_exposure (blank config_defaults) 1000 3601000 (client_seen 5000 ∷ saved 6000 ∷ [])
      (client_seen 3601500 ∷ ticked 3602000 ∷ []) refl default-IsBounded ceiling_passed
      (tt, (tt, tt)) (tt, (tt, tt))

only_the_form_example :
    check post (some (bytes "/api/ota")) record {
      provisioned =
          is_provisioned (run (on_ap_started (blank config_defaults) 0) (saved 6000 ∷ taken ∷ []));
      password_set = false;
      authenticated = false;
    }
    ≡ forbidden
only_the_form_example =
    only_the_form (blank config_defaults) 0 (saved 6000 ∷ taken ∷ []) (bytes "/api/ota") false false
      (tt, (tt, tt)) other_path
