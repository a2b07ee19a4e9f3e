-- ===== src/Control/Ladder.antt =====
-- The ladder on the whole step: which state, and what it tells the boiler.
use opentherm_thermostat_fir.Prelude.{
  ℕ, ◌≡◌, ◌%◌, ◌<◌, ◌≢◌, ◌↔◌, ◌∙◌, ◌*◌, Bool, true, false, ◌||◌, arith, if◌then◌else◌,
}
use opentherm_thermostat_fir.Control.Types.{
  Mode, Cfg, Control, ControlIn, ControlState, Reason, season_off, boost, ha_waiting, failsafe,
  is_ha, is_failsafe,
}
use opentherm_thermostat_fir.Control.Bound.{bound}
use opentherm_thermostat_fir.Control.Clock.{advance, advance_ages, count_hours, heat_limit_h}
use opentherm_thermostat_fir.Control.Boost.{boost_cancel, boost_expire}
use opentherm_thermostat_fir.Control.Edges.{forget_ha, see_mode, observe}
use opentherm_thermostat_fir.Control.Failsafe.{ladder, enter_failsafe, track_failsafe, failsafe_ch}
use opentherm_thermostat_fir.Control.Step.{
  prepare, is_expired, decide, hold, gate, set_ch, status_byte, act, step,
}
use opentherm_thermostat_fir.Control.Frames.{
  SameOwner, SameOwner-trans, track_failsafe-SameOwner, act-SameOwner, act-SameLatch,
  dhw_due-SameBit,
}

-- The step's own observation of the mode and the season.
prepare_seen :
    (c : Control) (cfg : Cfg) (inp : ControlIn) (now_ms : ℕ)
    → let ready = (prepare c cfg inp now_ms).0 in
      (ready.seen_ha ≡ is_ha cfg.mode)
      × (ready.seen_season ≡ cfg.heating_season)
      × (ready.blind ≡ inp.ha_forwarded_stale)
unfolding prepare observe see_mode forget_ha boost_cancel boost_expire
prepare_seen c cfg inp now_ms = ground arith

pub prepare-last :
    (c : Control) (cfg : Cfg) (inp : ControlIn) (now_ms : ℕ)
    → (prepare c cfg inp now_ms).0.last_step_ms ≡ now_ms
unfolding prepare advance advance_ages count_hours observe see_mode forget_ha boost_cancel
    boost_expire
prepare-last c cfg inp now_ms = ground arith

-- The CH bit of the status byte is the bit in force.
abbrev pub ch_bit : ℕ → ℕ
ch_bit status = status % 2

act-status :
    (c : Control) (cfg : Cfg) (inp : ControlIn) (s : ControlState) (done : Bool)
    → let (c', out) = act c cfg inp s done in
      (out.state ≡ s) × (c'.state ≡ s) × (ch_bit out.status_high ≡ (if c'.ch_out then 1 else 0))
unfolding act status_byte set_ch
act-status c cfg inp s done =
    let w = decide c cfg inp s in
    let kept = hold w.core inp (bound cfg w.target) in
    ground (arith, dhw_due-SameBit (set_ch kept (gate kept w.want w.reason).0) cfg inp)

-- The bit in force never exceeds what the state wants.
act-want :
    (c : Control) (cfg : Cfg) (inp : ControlIn) (s : ControlState) (done : Bool)
    → (act c cfg inp s done).0.ch_out ≡ true
    → (decide c cfg inp s).want ≡ true
unfolding act gate set_ch
act-want c cfg inp s done h =
    let w = decide c cfg inp s in
    let kept = hold w.core inp (bound cfg w.target) in
    ground (arith, dhw_due-SameBit (set_ch kept (gate kept w.want w.reason).0) cfg inp)

-- What a state may want, and from what.
abbrev pub Wanted : Control → Cfg → ControlState → Type 0
Wanted c cfg season_off = ⊥
Wanted c cfg boost = (c.boost_active ≡ true) × (cfg.mode ≡ Mode.local)
Wanted c cfg ControlState.local = (cfg.local_ch_enable ≡ true) × (cfg.mode ≡ Mode.local)
Wanted c cfg ha_waiting = ⊥
Wanted c cfg failsafe = (c.heat_hours < heat_limit_h cfg) × (cfg.mode ≡ Mode.ha)
Wanted c cfg ControlState.ha = (c.ha_ch_enable ≡ true) × (c.ha_heard ≡ true) × (cfg.mode ≡ Mode.ha)

decide-Wanted :
    (c : Control) (cfg : Cfg) (inp : ControlIn) (e : Bool)
    → c.seen_ha ≡ is_ha cfg.mode
    → (decide c cfg inp (ladder c cfg e)).want ≡ true
    → Wanted c cfg (ladder c cfg e)
unfolding decide ladder failsafe_ch
decide-Wanted c cfg inp e seen h = ground arith

Wanted-same :
    {c d : Control}
    → SameOwner c d
    → (cfg : Cfg) (s : ControlState) → Wanted c cfg s
    → Wanted d cfg s
Wanted-same p cfg boost w = ground arith
Wanted-same p cfg _ w = ground arith

-- The step, by the state that its clocks and edges leave.
module _ (c : Control) (cfg : Cfg) (inp : ControlIn) (now_ms : ℕ) where
  abbrev ready : Control
  ready = (prepare c cfg inp now_ms).0

  abbrev expired : Bool
  expired = is_expired ready cfg

  abbrev found : ControlState
  found = ladder ready cfg expired

  abbrev tracked : Control
  tracked = track_failsafe ready ready.state found expired

  pub step-SameOwner : SameOwner ready (step c cfg inp now_ms).0
  unfolding step
  step-SameOwner =
      SameOwner-trans (track_failsafe-SameOwner ready ready.state found expired)
        (act-SameOwner tracked cfg inp found (prepare c cfg inp now_ms).1)

  pub step-state :
      let (c', out) = step c cfg inp now_ms in
      (out.state ≡ found)
      × (c'.state ≡ found)
      × (ch_bit out.status_high ≡ (if c'.ch_out then 1 else 0))
  unfolding step
  step-state = act-status tracked cfg inp found (prepare c cfg inp now_ms).1

  -- The latch and the cause that the step leaves and announces.
  pub step-latch :
      let (c', out) = step c cfg inp now_ms in
      (c'.fs_latched ≡ (is_failsafe found || ready.fs_latched))
      × (out.cause ≡ (
          if is_failsafe found
          then (if expired
              then Reason.watchdog
              else (if ready.blind then Reason.ha_blind else Reason.none))
          else Reason.none))
  unfolding step act track_failsafe enter_failsafe
  step-latch = ground (arith, act-SameLatch tracked cfg inp found (prepare c cfg inp now_ms).1)

  ladder-tracked : ladder tracked cfg expired ≡ found
  unfolding ladder track_failsafe enter_failsafe
  ladder-tracked = ground arith

  bit-Wanted : (step c cfg inp now_ms).0.ch_out ≡ true → Wanted (step c cfg inp now_ms).0 cfg found
  unfolding step
  bit-Wanted h =
      let want = act-want tracked cfg inp found (prepare c cfg inp now_ms).1 h in
      let seen = prepare_seen c cfg inp now_ms in
      let same = track_failsafe-SameOwner ready ready.state found expired in
      let w =
        decide-Wanted tracked cfg inp expired (same.seen_ha ∙ seen.0) (rw ladder-tracked want) in
      Wanted-same (act-SameOwner tracked cfg inp found (prepare c cfg inp now_ms).1) cfg found
        (rw ladder-tracked at w)

-- The boiler is told to heat only in season and for a cause of the state in force: a running boost
-- or the stored switch in LOCAL mode, an armed failsafe, or Home Assistant's own command, heard
-- since it owns the boiler, in HA mode. So with the season off, or while HA is waited for, the CH
-- bit of the status byte is 0.
pub heat_needs_cause :
    (c : Control) (cfg : Cfg) (inp : ControlIn) (now_ms : ℕ)
    → let (c', out) = step c cfg inp now_ms in
      ch_bit out.status_high ≢ 0 → (cfg.heating_season ≡ true) × Wanted c' cfg out.state
unfolding ladder
heat_needs_cause c cfg inp now_ms h =
    let st = step-state c cfg inp now_ms in
    let b : (step c cfg inp now_ms).0.ch_out ≡ true = ground arith in
    let w = bit-Wanted c cfg inp now_ms b in (ground (arith, w), rw st.0 w)

-- Home Assistant's command is in force after a step exactly when the season is on, the mode is HA,
-- a command of its ownership has been heard, no failsafe is latched, its room source is not stale
-- and its last command is younger than the watchdog.
pub ha_in_force :
    (c : Control) (cfg : Cfg) (inp : ControlIn) (now_ms : ℕ)
    → let ready = (prepare c cfg inp now_ms).0 in
      let (c', out) = step c cfg inp now_ms in
      (out.state ≡ ControlState.ha) ↔ (
        (cfg.heating_season ≡ true)
        × (cfg.mode ≡ Mode.ha)
        × (c'.ha_heard ≡ true)
        × (ready.fs_latched ≡ false)
        × (inp.ha_forwarded_stale ≡ false)
        × (c'.overdue_ms < cfg.watchdog_s * 1000))
unfolding ladder is_expired
ha_in_force c cfg inp now_ms =
    let st = step-state c cfg inp now_ms in
    let seen = prepare_seen c cfg inp now_ms in
    let same = step-SameOwner c cfg inp now_ms in
    ((λ e. ground (arith, e, st, seen, same)), (λ e. ground (arith, e, st, seen, same)))
