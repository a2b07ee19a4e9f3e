-- ===== src/Control/Frames.antt =====
-- What each part of the step leaves as it was. The proofs about the whole step go through these.
use opentherm_thermostat_fir.Prelude.{ℕ, ◌≡◌, Bool, arith}
use opentherm_thermostat_fir.Prelude.Int.{ℤ}
use opentherm_thermostat_fir.Control.Types.{Cfg, Control, ControlIn, ControlState}
use opentherm_thermostat_fir.Control.Bound.{bound}
use opentherm_thermostat_fir.Control.Clock.{advance_ages, count_hours, advance}
use opentherm_thermostat_fir.Control.Boost.{boost_cancel, boost_expire}
use opentherm_thermostat_fir.Control.Edges.{forget_ha, see_mode, observe}
use opentherm_thermostat_fir.Control.Failsafe.{enter_failsafe, track_failsafe, failsafe_ch}
use opentherm_thermostat_fir.Control.Dhw.{dhw_retarget, dhw_take_reopen, dhw_reconcile, dhw_due}
use opentherm_thermostat_fir.Control.Step.{prepare, decide, hold, gate, set_ch, act}

-- The held ID 1 and the CH bit are the same in both states.
pub record SameBit (c d : Control) : Type 0 where
  pub held_dc : d.held_dc ≡ c.held_dc
  pub confirmed : d.confirmed ≡ c.confirmed
  pub ch_out : d.ch_out ≡ c.ch_out

pub SameBit-trans : {c d e : Control} → SameBit c d → SameBit d e → SameBit c e
SameBit-trans p q = ground arith

pub advance-SameBit : (c : Control) (cfg : Cfg) (dt : ℕ) → SameBit c (advance c cfg dt).0
unfolding advance count_hours advance_ages
advance-SameBit c cfg dt = ground arith

pub observe-SameBit : (c : Control) (cfg : Cfg) → SameBit c (observe c cfg)
unfolding observe see_mode forget_ha boost_cancel
observe-SameBit c cfg = ground arith

pub boost_expire-SameBit : (c : Control) (now_ms : ℕ) → SameBit c (boost_expire c now_ms)
unfolding boost_expire boost_cancel
boost_expire-SameBit c now_ms = ground arith

pub prepare-SameBit :
    (c : Control) (cfg : Cfg) (inp : ControlIn) (now_ms : ℕ)
    → SameBit c (prepare c cfg inp now_ms).0
unfolding prepare
prepare-SameBit c cfg inp now_ms =
    grind (arith, advance-SameBit, observe-SameBit, boost_expire-SameBit)

pub track_failsafe-SameBit :
    (c : Control) (prev s : ControlState) (e : Bool) → SameBit c (track_failsafe c prev s e)
unfolding track_failsafe enter_failsafe
track_failsafe-SameBit c prev s e = ground arith

pub failsafe_ch-SameBit :
    (c : Control) (cfg : Cfg) (inp : ControlIn) → SameBit c (failsafe_ch c cfg inp).0
unfolding failsafe_ch
failsafe_ch-SameBit c cfg inp = ground arith

pub decide-SameBit :
    (c : Control) (cfg : Cfg) (inp : ControlIn) (s : ControlState)
    → SameBit c (decide c cfg inp s).core
unfolding decide
decide-SameBit c cfg inp s = ground (arith, failsafe_ch-SameBit c cfg inp)

pub dhw_due-SameBit : (c : Control) (cfg : Cfg) (inp : ControlIn) → SameBit c (dhw_due c cfg inp).0
unfolding dhw_due dhw_retarget dhw_take_reopen dhw_reconcile
dhw_due-SameBit c cfg inp = ground arith

-- Who owns the boiler, the command, the watchdog, the arm and the boost are the same.
pub record SameOwner (c d : Control) : Type 0 where
  pub seen_ha : d.seen_ha ≡ c.seen_ha
  pub seen_season : d.seen_season ≡ c.seen_season
  pub ha_heard : d.ha_heard ≡ c.ha_heard
  pub ha_ch_enable : d.ha_ch_enable ≡ c.ha_ch_enable
  pub ha_setpoint_dc : d.ha_setpoint_dc ≡ c.ha_setpoint_dc
  pub overdue_ms : d.overdue_ms ≡ c.overdue_ms
  pub blind : d.blind ≡ c.blind
  pub heat_hours : d.heat_hours ≡ c.heat_hours
  pub hh_ms : d.hh_ms ≡ c.hh_ms
  pub boost_active : d.boost_active ≡ c.boost_active
  pub boost_setpoint_dc : d.boost_setpoint_dc ≡ c.boost_setpoint_dc
  pub boost_expires_ms : d.boost_expires_ms ≡ c.boost_expires_ms
  pub last_step_ms : d.last_step_ms ≡ c.last_step_ms

pub SameOwner-trans : {c d e : Control} → SameOwner c d → SameOwner d e → SameOwner c e
SameOwner-trans p q = ground arith

pub track_failsafe-SameOwner :
    (c : Control) (prev s : ControlState) (e : Bool) → SameOwner c (track_failsafe c prev s e)
unfolding track_failsafe enter_failsafe
track_failsafe-SameOwner c prev s e = ground arith

failsafe_ch-SameOwner :
    (c : Control) (cfg : Cfg) (inp : ControlIn) → SameOwner c (failsafe_ch c cfg inp).0
unfolding failsafe_ch
failsafe_ch-SameOwner c cfg inp = ground arith

decide-SameOwner :
    (c : Control) (cfg : Cfg) (inp : ControlIn) (s : ControlState)
    → SameOwner c (decide c cfg inp s).core
unfolding decide
decide-SameOwner c cfg inp s = ground (arith, failsafe_ch-SameOwner c cfg inp)

dhw_due-SameOwner : (c : Control) (cfg : Cfg) (inp : ControlIn) → SameOwner c (dhw_due c cfg inp).0
unfolding dhw_due dhw_retarget dhw_take_reopen dhw_reconcile
dhw_due-SameOwner c cfg inp = ground arith

hold-SameOwner : (c : Control) (inp : ControlIn) (held : ℤ) → SameOwner c (hold c inp held)
unfolding hold
hold-SameOwner c inp held = ground arith

set_ch-SameOwner : (c : Control) (ch : Bool) → SameOwner c (set_ch c ch)
unfolding set_ch
set_ch-SameOwner c ch = ground arith

pub act-SameOwner :
    (c : Control) (cfg : Cfg) (inp : ControlIn) (s : ControlState) (done : Bool)
    → SameOwner c (act c cfg inp s done).0
unfolding act
act-SameOwner c cfg inp s done =
    let w = decide c cfg inp s in
    let kept = hold w.core inp (bound cfg w.target) in
    let ch = (gate kept w.want w.reason).0 in
    let p = decide-SameOwner c cfg inp s in
    let q = SameOwner-trans p (hold-SameOwner w.core inp (bound cfg w.target)) in
    let r = SameOwner-trans q (set_ch-SameOwner kept ch) in
    let t = SameOwner-trans r (dhw_due-SameOwner (set_ch kept ch) cfg inp) in ground (arith, t)

-- The record of the failsafe is the same.
pub record SameLatch (c d : Control) : Type 0 where
  pub fs_latched : d.fs_latched ≡ c.fs_latched
  pub fs_cause : d.fs_cause ≡ c.fs_cause
  pub fs_ms : d.fs_ms ≡ c.fs_ms
  pub failsafe_count : d.failsafe_count ≡ c.failsafe_count
  pub last_failsafe_duration_s : d.last_failsafe_duration_s ≡ c.last_failsafe_duration_s

decide-SameLatch :
    (c : Control) (cfg : Cfg) (inp : ControlIn) (s : ControlState)
    → SameLatch c (decide c cfg inp s).core
unfolding decide failsafe_ch
decide-SameLatch c cfg inp s = ground arith

hold-SameLatch : (c : Control) (inp : ControlIn) (held : ℤ) → SameLatch c (hold c inp held)
unfolding hold
hold-SameLatch c inp held = ground arith

set_ch-SameLatch : (c : Control) (ch : Bool) → SameLatch c (set_ch c ch)
unfolding set_ch
set_ch-SameLatch c ch = ground arith

dhw_due-SameLatch : (c : Control) (cfg : Cfg) (inp : ControlIn) → SameLatch c (dhw_due c cfg inp).0
unfolding dhw_due dhw_retarget dhw_take_reopen dhw_reconcile
dhw_due-SameLatch c cfg inp = ground arith

pub act-SameLatch :
    (c : Control) (cfg : Cfg) (inp : ControlIn) (s : ControlState) (done : Bool)
    → SameLatch c (act c cfg inp s done).0
unfolding act
act-SameLatch c cfg inp s done =
    let w = decide c cfg inp s in
    let kept = hold w.core inp (bound cfg w.target) in
    let ch = (gate kept w.want w.reason).0 in
    ground (
      arith,
      decide-SameLatch c cfg inp s,
      hold-SameLatch w.core inp (bound cfg w.target),
      set_ch-SameLatch kept ch,
      dhw_due-SameLatch (set_ch kept ch) cfg inp,
    )
