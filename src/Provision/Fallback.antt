-- ===== src/Provision/Fallback.antt =====
-- When the access point comes back by itself.
use opentherm_thermostat_fir.Prelude.{
  ℕ, ◌≤◌, ◌≡◌, ◌≢◌, ◌⊎◌, inl, inr, true, false, arith, refl, ap, Option, none, some,
}
use opentherm_thermostat_fir.Prelude.Word.{sub32}
use opentherm_thermostat_fir.Provision.Types.{
  Prov, ProvConfig, ProvBoot, ProvState, ProvFailure, earns,
}
use opentherm_thermostat_fir.Provision.Window.{elapsed}
use opentherm_thermostat_fir.Provision.Retry.{
  set_action, note_failure, start_clock, arm_retry, take_action,
}
use opentherm_thermostat_fir.Provision.Events.{
  init, booted, on_ap_started, on_ap_stopped, on_associated, on_connected, on_disconnected,
  on_credentials_saved, on_client_seen, commit, judge,
}
use opentherm_thermostat_fir.Provision.Tick.{
  tick, close_window, leave_window, end_trial, roll_back, miss_address, nudge, try_again,
  raise_fallback, note_escape,
}
use opentherm_thermostat_fir.Provision.Trace.{
  ProvOp, ap_started, associates, saved, client_seen, ticked, ap_stopped, connects, taken,
  disconnects, react,
}

-- The state is not FALLBACK_AP unless it was.
abbrev pub NotRaised : Prov → Prov → Type 0
NotRaised s s' = s'.state ≡ ProvState.fallback_ap → s.state ≡ ProvState.fallback_ap

close_window-NotRaised : (s : Prov) (t : ℕ) → NotRaised s (close_window s t)
unfolding close_window leave_window
close_window-NotRaised s t = ground arith

end_trial-NotRaised : (s : Prov) (t : ℕ) → NotRaised s (end_trial s t)
unfolding end_trial roll_back set_action
end_trial-NotRaised s t = ground arith

miss_address-NotRaised : (s : Prov) (t : ℕ) → NotRaised s (miss_address s t)
unfolding miss_address nudge set_action note_failure start_clock
miss_address-NotRaised s t = ground arith

try_again-NotRaised : (s : Prov) (t : ℕ) → NotRaised s (try_again s t)
unfolding try_again set_action
try_again-NotRaised s t = ground arith

-- What earns the access point at the moment `t`.
pub record IsEarned (s : Prov) (t : ℕ) : Type 0 where
  pub has_network : s.has_credentials ≡ true
  pub still_failing : s.failing ≡ true
  pub right_kind :
      (s.failure ≡ ProvFailure.network_absent)
      ⊎ (s.failure ≡ ProvFailure.wrong_password)
      ⊎ (s.failure ≡ ProvFailure.refused)
  pub off_air : s.ap_on_air ≡ false
  pub enabled : s.cfg.fallback_after_ms ≢ 0
  pub sustained : s.cfg.fallback_after_ms ≤ sub32 t s.failing_at

earns_kind :
    (f : ProvFailure)
    → earns f ≡ true
    → (f ≡ ProvFailure.network_absent)
      ⊎ (f ≡ ProvFailure.wrong_password)
      ⊎ (f ≡ ProvFailure.refused)
unfolding earns
earns_kind ProvFailure.none e = cc
earns_kind ProvFailure.network_absent e = inl refl
earns_kind ProvFailure.wrong_password e = inr (inl refl)
earns_kind ProvFailure.refused e = inr (inr refl)
earns_kind ProvFailure.no_address e = cc

raised-IsEarned :
    (s : Prov) (t : ℕ)
    → s.state ≢ ProvState.fallback_ap
    → (note_escape (raise_fallback s t) t).state ≡ ProvState.fallback_ap
    → IsEarned (note_escape (raise_fallback s t) t) t
unfolding note_escape raise_fallback elapsed
raised-IsEarned s t n e = ground (arith, n, e, earns_kind s.failure)

raised_by_tick :
    (s : Prov) (o : ProvOp)
    → s.state ≢ ProvState.fallback_ap
    → (react s o).state ≡ ProvState.fallback_ap
    → (t : ℕ) × (o ≡ ticked t) × IsEarned (react s o) t
unfolding react tick
raised_by_tick s (ap_started t) n e = absurd (unfold on_ap_started in ground (arith, n, e))
raised_by_tick s ap_stopped n e = absurd (unfold on_ap_stopped in ground (arith, n, e))
raised_by_tick s (associates t) n e = absurd (unfold on_associated in ground (arith, n, e))
raised_by_tick s connects n e =
    absurd (unfold on_connected commit set_action in ground (arith, n, e))
raised_by_tick s (disconnects t reason) n e =
    absurd (unfold on_disconnected arm_retry judge note_failure start_clock in ground (arith, n, e))
raised_by_tick s (saved t) n e = absurd (unfold on_credentials_saved in ground (arith, n, e))
raised_by_tick s (client_seen t) n e = absurd (unfold on_client_seen in ground (arith, n, e))
raised_by_tick s taken n e = absurd (unfold take_action in ground (arith, n, e))
raised_by_tick s (ticked t) n e =
    let closed = close_window s t in
    let ended = end_trial closed t in
    let missed = miss_address ended t in
    let tried = try_again missed t in
    let before : tried.state ≢ ProvState.fallback_ap = λ raised. n (
      close_window-NotRaised s t (
        end_trial-NotRaised closed t
          (miss_address-NotRaised ended t (try_again-NotRaised missed t raised)))) in
    (t, refl, raised-IsEarned tried t before e)

-- A call of the machine, its start included.
pub data ProvCall : Type 0 where
  starts : Option ProvConfig → Option ProvBoot → ProvCall
  calls : ProvOp → ProvCall

-- The state after a call; a start forgets the one before.
unfoldable pub after_call : Prov → ProvCall → Prov
after_call s (starts cfg boot) = init cfg boot
after_call s (calls o) = react s o

-- The start found in the boot record that a network is stored and that no address ever came of it.
pub record IsRecorded (x : ProvCall) (cfg : Option ProvConfig) (b : ProvBoot) : Type 0 where
  pub is_start : x ≡ starts cfg (some b)
  pub has_network : b.has_credentials ≡ true
  pub no_address : b.address_never_arrived ≡ true

recorded :
    (cfg : Option ProvConfig) (boot : Option ProvBoot)
    → (init cfg boot).state ≡ ProvState.fallback_ap
    → (b : ProvBoot) × IsRecorded (starts cfg boot) cfg b
unfolding init booted
recorded cfg none e = absurd (ground (arith, e))
recorded cfg (some b) e =
    (b, record { is_start = refl; has_network = ground (arith, e); no_address = ground (arith, e) })

-- FALLBACK_AP is entered in two ways only, whatever is called: by ot_prov_init() after a boot whose
-- record says that a network is stored and that an address never arrived on it; or by a tick, on a
-- device that has a network and no access point on the air, whose standing failure is that the
-- network is absent, refuses the key or refuses the station, for at least fallback_after_ms, where
-- that time is not 0. A missing address raises it at a start only, never while running.
pub fallback_has_cause :
    (s : Prov) (x : ProvCall)
    → s.state ≢ ProvState.fallback_ap
    → (after_call s x).state ≡ ProvState.fallback_ap
    → ((cfg : Option ProvConfig) × (b : ProvBoot) × IsRecorded x cfg b)
      ⊎ ((t : ℕ) × (x ≡ calls (ticked t)) × IsEarned (after_call s x) t)
unfolding after_call
fallback_has_cause s (starts cfg boot) n e =
    let (b, from_record) = recorded cfg boot e in inl (cfg, b, from_record)
fallback_has_cause s (calls o) n e =
    let (t, is_tick, earned) = raised_by_tick s o n e in inr (t, ap calls is_tick, earned)
