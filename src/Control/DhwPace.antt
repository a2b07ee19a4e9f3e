-- ===== src/Control/DhwPace.antt =====
-- The ID 56 reconciliation over the steps: what a write needs, how many there are, how far apart.
use opentherm_thermostat_fir.Prelude.{
  ℕ, ◌+◌, ◌≤◌, ◌<◌, ◌≡◌, ◌≢◌, ◌⊎◌, ◌∙◌, Bool, true, false, arith, refl, if◌then◌else◌,
}
use opentherm_thermostat_fir.Prelude.Word.{sub32, add_sat}
use opentherm_thermostat_fir.Prelude.Int.{ℤ, eqb_ℤ-iff}
use opentherm_thermostat_fir.Control.Types.{Cfg, Control, ControlIn, ControlState}
use opentherm_thermostat_fir.Control.Bound.{bound}
use opentherm_thermostat_fir.Control.Clock.{advance, advance_ages, count_hours}
use opentherm_thermostat_fir.Control.Boost.{boost_cancel, boost_expire}
use opentherm_thermostat_fir.Control.Edges.{forget_ha, see_mode, observe}
use opentherm_thermostat_fir.Control.Failsafe.{ladder, track_failsafe, enter_failsafe, failsafe_ch}
use opentherm_thermostat_fir.Control.Dhw.{dhw_retarget, dhw_take_reopen, dhw_reconcile, dhw_due}
use opentherm_thermostat_fir.Control.Step.{
  prepare, is_expired, decide, hold, gate, set_ch, act, step,
}

-- The target of the reconciliation and its count are the same.
pub record SameDhw (c d : Control) : Type 0 where
  pub target : d.dhw_target_dc ≡ c.dhw_target_dc
  pub tries : d.dhw_tries ≡ c.dhw_tries
  pub reopen : d.dhw_reopen ≡ c.dhw_reopen
  pub reopen_dc : d.dhw_reopen_dc ≡ c.dhw_reopen_dc
  pub unread_once : d.dhw_unread_once ≡ c.dhw_unread_once

prepare-SameDhw :
    (c : Control) (cfg : Cfg) (inp : ControlIn) (now_ms : ℕ)
    → SameDhw c (prepare c cfg inp now_ms).0
unfolding prepare advance advance_ages count_hours observe see_mode forget_ha boost_cancel
    boost_expire
prepare-SameDhw c cfg inp now_ms = ground arith

prepare-dhw_age :
    (c : Control) (cfg : Cfg) (inp : ControlIn) (now_ms : ℕ)
    → (prepare c cfg inp now_ms).0.dhw_age_ms ≡ add_sat c.dhw_age_ms (sub32 now_ms c.last_step_ms)
unfolding prepare advance advance_ages count_hours observe see_mode forget_ha boost_cancel
    boost_expire
prepare-dhw_age c cfg inp now_ms = ground arith

track-SameDhw :
    (c : Control) (prev s : ControlState) (e : Bool)
    → SameDhw c (track_failsafe c prev s e)
      × ((track_failsafe c prev s e).dhw_age_ms ≡ c.dhw_age_ms)
unfolding track_failsafe enter_failsafe
track-SameDhw c prev s e = ground arith

decide-SameDhw :
    (c : Control) (cfg : Cfg) (inp : ControlIn) (s : ControlState)
    → SameDhw c (decide c cfg inp s).core × ((decide c cfg inp s).core.dhw_age_ms ≡ c.dhw_age_ms)
unfolding decide failsafe_ch
decide-SameDhw c cfg inp s = ground arith

hold-SameDhw :
    (c : Control) (inp : ControlIn) (held : ℤ) (ch : Bool)
    → SameDhw c (set_ch (hold c inp held) ch)
      × ((set_ch (hold c inp held) ch).dhw_age_ms ≡ c.dhw_age_ms)
unfolding hold set_ch
hold-SameDhw c inp held ch = ground arith

-- The step asks dhw_due() once, in a state with the target, the count and the flags of the one
-- before, and its age grown by the time that passed.
pub step-dhw :
    (c : Control) (cfg : Cfg) (inp : ControlIn) (now_ms : ℕ)
    → (t : Control) × SameDhw c t
      × (t.dhw_age_ms ≡ add_sat c.dhw_age_ms (sub32 now_ms c.last_step_ms))
      × SameDhw (dhw_due t cfg inp).0 (step c cfg inp now_ms).0
      × ((step c cfg inp now_ms).0.dhw_age_ms ≡ (dhw_due t cfg inp).0.dhw_age_ms)
      × ((step c cfg inp now_ms).1.send_dhw_setpoint ≡ (dhw_due t cfg inp).1)
unfolding step act
step-dhw c cfg inp now_ms =
    let (ready, done) = prepare c cfg inp now_ms in
    let expired = is_expired ready cfg in
    let s = ladder ready cfg expired in
    let tracked = track_failsafe ready ready.state s expired in
    let w = decide tracked cfg inp s in
    let kept = hold w.core inp (bound cfg w.target) in
    let ch = (gate kept w.want w.reason).0 in
    let p = prepare-SameDhw c cfg inp now_ms in
    let q = track-SameDhw ready ready.state s expired in
    let r = decide-SameDhw tracked cfg inp s in
    let u = hold-SameDhw w.core inp (bound cfg w.target) ch in
    (
      set_ch kept ch,
      record {
        target = u.0.target ∙ r.0.target ∙ q.0.target ∙ p.target;
        tries = u.0.tries ∙ r.0.tries ∙ q.0.tries ∙ p.tries;
        reopen = u.0.reopen ∙ r.0.reopen ∙ q.0.reopen ∙ p.reopen;
        reopen_dc = u.0.reopen_dc ∙ r.0.reopen_dc ∙ q.0.reopen_dc ∙ p.reopen_dc;
        unread_once = u.0.unread_once ∙ r.0.unread_once ∙ q.0.unread_once ∙ p.unread_once;
      },
      u.1 ∙ r.1 ∙ q.1 ∙ prepare-dhw_age c cfg inp now_ms,
      record { target = refl; tries = refl; reopen = refl; reopen_dc = refl; unread_once = refl },
      refl,
      refl,
    )

-- The command of the present target has been taken.
abbrev pub Settled : Control → Cfg → Type 0
Settled c cfg = (c.dhw_target_dc ≡ cfg.dhw_setpoint_dc) × (c.dhw_reopen ≡ false)

-- The boiler has not read the stored setpoint back.
abbrev pub Disagrees : ControlIn → Cfg → Type 0
Disagrees inp cfg = (inp.dhw_readback_valid ≡ false) ⊎ (inp.dhw_readback_dc ≢ cfg.dhw_setpoint_dc)

pub due-Settled :
    (c : Control) (cfg : Cfg) (inp : ControlIn)
    → Settled c cfg
    → Disagrees inp cfg
    → let (c', due) = dhw_due c cfg inp in
      Settled c' cfg
      × (c'.dhw_tries ≡ c.dhw_tries + (if due then 1 else 0))
      × (due ≡ true
          → (cfg.dhw_setpoint_set ≡ true)
            × (c.dhw_tries < 3)
            × (60000 ≤ c.dhw_age_ms)
            × (c'.dhw_age_ms ≡ 0))
      × (due ≡ false → c'.dhw_age_ms ≡ c.dhw_age_ms)
unfolding dhw_due dhw_retarget dhw_take_reopen dhw_reconcile
due-Settled c cfg inp s n = ground (
  arith,
  eqb_ℤ-iff cfg.dhw_setpoint_dc c.dhw_target_dc,
  eqb_ℤ-iff inp.dhw_readback_dc c.dhw_target_dc,
)
