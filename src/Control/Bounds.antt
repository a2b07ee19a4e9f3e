-- ===== src/Control/Bounds.antt =====
-- The bounds of the held setpoint (ID 1): otc_bound() and every write of `held_dc`.
use opentherm_thermostat_fir.Prelude.{ℕ, ◌+◌, ◌≡◌, ◌%◌, ◌≤◌, Bool, arith}
use opentherm_thermostat_fir.Prelude.Int.{
  ℤ, pos, pos_part, neg_part, ◌≤ℤ◌, ◌+ℤ◌, ◌*ℤ◌, ◌/ℤ◌, eqb_ℤ-iff,
}
use opentherm_thermostat_fir.Control.Types.{Cfg, Control, ControlIn, ControlState}
use opentherm_thermostat_fir.Control.Bound.{quantise, bound}
use opentherm_thermostat_fir.Control.Failsafe.{ladder, track_failsafe}
use opentherm_thermostat_fir.Control.Step.{
  prepare, is_expired, decide, hold, gate, set_ch, act, step,
}
use opentherm_thermostat_fir.Control.Frames.{dhw_due-SameBit}

-- A multiple of 5 tenths of a degree.
abbrev pub IsOnGrid : ℤ → Type 0
IsOnGrid z = (pos_part z % 5 ≡ 0) × (neg_part z % 5 ≡ 0)

abbrev pub IsInFlow : Cfg → ℤ → Type 0
IsInFlow cfg z = (cfg.flow_min_dc ≤ℤ z) × (z ≤ℤ cfg.flow_max_dc)

quantise-IsOnGrid : (dc : ℤ) → IsOnGrid (quantise dc)
unfolding quantise ◌+ℤ◌ ◌*ℤ◌ ◌/ℤ◌
quantise-IsOnGrid dc = ground arith

-- From 0 up the grid is met at the nearest point, at most 2 tenths away.
quantise_near :
    (n : ℕ) → (pos_part (quantise (pos n)) ≤ n + 2) × (n ≤ pos_part (quantise (pos n)) + 2)
unfolding quantise ◌+ℤ◌ ◌*ℤ◌ ◌/ℤ◌
quantise_near n = ground arith

pub bound-IsInFlow :
    (cfg : Cfg) (dc : ℤ) → cfg.flow_min_dc ≤ℤ cfg.flow_max_dc → IsInFlow cfg (bound cfg dc)
unfolding bound
bound-IsInFlow cfg dc h = ground arith

pub bound-IsOnGrid :
    (cfg : Cfg) (dc : ℤ)
    → IsOnGrid cfg.flow_min_dc
    → IsOnGrid cfg.flow_max_dc
    → IsOnGrid (bound cfg dc)
unfolding bound
bound-IsOnGrid cfg dc lo hi = ground (arith, quantise-IsOnGrid dc)

hold-held : (c : Control) (inp : ControlIn) (held : ℤ) → (hold c inp held).held_dc ≡ held
unfolding hold
hold-held c inp held = ground (arith, eqb_ℤ-iff held c.held_dc)

-- What the step holds is what otc_bound() makes of the wish.
act-held :
    (c : Control) (cfg : Cfg) (inp : ControlIn) (s : ControlState) (done : Bool)
    → let (c', out) = act c cfg inp s done in
      (out.held_setpoint_dc ≡ bound cfg (decide c cfg inp s).target)
      × (c'.held_dc ≡ bound cfg (decide c cfg inp s).target)
unfolding act set_ch
act-held c cfg inp s done =
    let w = decide c cfg inp s in
    let kept = hold w.core inp (bound cfg w.target) in
    ground (
      arith,
      hold-held w.core inp (bound cfg w.target),
      dhw_due-SameBit (set_ch kept (gate kept w.want w.reason).0) cfg inp,
    )

step-held :
    (c : Control) (cfg : Cfg) (inp : ControlIn) (now_ms : ℕ)
    → let (c', out) = step c cfg inp now_ms in
      (dc : ℤ) × (out.held_setpoint_dc ≡ bound cfg dc) × (c'.held_dc ≡ bound cfg dc)
unfolding step
step-held c cfg inp now_ms =
    let (ready, done) = prepare c cfg inp now_ms in
    let expired = is_expired ready cfg in
    let s = ladder ready cfg expired in
    let t = track_failsafe ready ready.state s expired in
    let (out, kept) = act-held t cfg inp s done in ((decide t cfg inp s).target, out, kept)

-- In every state and for every input, a step under flow bounds that are in order holds and
-- announces one setpoint inside those bounds, and, if the bounds are multiples of half a degree,
-- on the half-degree grid.
pub held_setpoint_bounds :
    (c : Control) (cfg : Cfg) (inp : ControlIn) (now_ms : ℕ)
    → cfg.flow_min_dc ≤ℤ cfg.flow_max_dc
    → let (c', out) = step c cfg inp now_ms in
      (out.held_setpoint_dc ≡ c'.held_dc)
      × IsInFlow cfg out.held_setpoint_dc
      × (IsOnGrid cfg.flow_min_dc → IsOnGrid cfg.flow_max_dc → IsOnGrid out.held_setpoint_dc)
held_setpoint_bounds c cfg inp now_ms order =
    let (dc, out, kept) = step-held c cfg inp now_ms in
    rw out ((rw kept), bound-IsInFlow cfg dc order, bound-IsOnGrid cfg dc)
