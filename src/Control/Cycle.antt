-- ===== src/Control/Cycle.antt =====
-- The failsafe's CH bit in the whole step: otc_failsafe_ch() of components/ot_control.
use opentherm_thermostat_fir.Prelude.{
  ℕ, ◌*◌, ◌≤◌, ◌<◌, ◌≡◌, ◌&&◌, ◌||◌, ◌∙◌, Bool, true, false, arith,
}
use opentherm_thermostat_fir.Prelude.Word.{sub32, add_sat}
use opentherm_thermostat_fir.Prelude.Int.{ℤ, pos, ◌+ℤ◌, ◌-ℤ◌, ◌≤ℤ◌}
use opentherm_thermostat_fir.Control.Types.{Cfg, Control, ControlIn, ControlState, failsafe}
use opentherm_thermostat_fir.Control.Bound.{bound}
use opentherm_thermostat_fir.Control.Clock.{advance, advance_ages, count_hours, heat_limit_h}
use opentherm_thermostat_fir.Control.Boost.{boost_cancel, boost_expire}
use opentherm_thermostat_fir.Control.Edges.{forget_ha, see_mode, observe}
use opentherm_thermostat_fir.Control.Failsafe.{
  ladder, track_failsafe, enter_failsafe, failsafe_ch, hysteresis, cycled,
}
use opentherm_thermostat_fir.Control.Step.{
  prepare, is_expired, decide, hold, gate, set_ch, act, step,
}
use opentherm_thermostat_fir.Control.Frames.{
  prepare-SameBit, track_failsafe-SameBit, decide-SameBit, dhw_due-SameBit, act-SameOwner,
  track_failsafe-SameOwner,
}
use opentherm_thermostat_fir.Control.Ladder.{step-state}

hold-ch_out : (c : Control) (inp : ControlIn) (held : ℤ) → (hold c inp held).ch_out ≡ c.ch_out
unfolding hold
hold-ch_out c inp held = ground arith

-- The bit in force is what is wanted, unless it would rise unconfirmed.
act-bit :
    (c : Control) (cfg : Cfg) (inp : ControlIn) (s : ControlState) (done : Bool)
    → let c' = (act c cfg inp s done).0 in
      c'.ch_out ≡ (decide c cfg inp s).want && (c.ch_out || c'.confirmed)
unfolding act gate set_ch
act-bit c cfg inp s done =
    let w = decide c cfg inp s in
    let kept = hold w.core inp (bound cfg w.target) in
    ground (
      arith,
      dhw_due-SameBit (set_ch kept (gate kept w.want w.reason).0) cfg inp,
      hold-ch_out w.core inp (bound cfg w.target),
      decide-SameBit c cfg inp s,
    )

-- The age of the bit when the ladder is asked.
prepare-age :
    (c : Control) (cfg : Cfg) (inp : ControlIn) (now_ms : ℕ)
    → (prepare c cfg inp now_ms).0.ch_age_ms ≡ add_sat c.ch_age_ms (sub32 now_ms c.last_step_ms)
unfolding prepare advance advance_ages count_hours observe see_mode forget_ha boost_cancel
    boost_expire
prepare-age c cfg inp now_ms = ground arith

track-age :
    (c : Control) (prev s : ControlState) (e : Bool)
    → (track_failsafe c prev s e).ch_age_ms ≡ c.ch_age_ms
unfolding track_failsafe enter_failsafe
track-age c prev s e = ground arith

tracked-age :
    (c : Control) (cfg : Cfg) (inp : ControlIn) (now_ms : ℕ) (s : ControlState) (e : Bool)
    → let ready = (prepare c cfg inp now_ms).0 in
      let t = track_failsafe ready ready.state s e in
      (t.ch_age_ms ≡ add_sat c.ch_age_ms (sub32 now_ms c.last_step_ms))
      × (t.ch_out ≡ c.ch_out)
      × (t.heat_hours ≡ ready.heat_hours)
tracked-age c cfg inp now_ms s e =
    let ready = (prepare c cfg inp now_ms).0 in
    (
      track-age ready ready.state s e ∙ prepare-age c cfg inp now_ms,
      (track_failsafe-SameBit ready ready.state s e).ch_out
          ∙ (prepare-SameBit c cfg inp now_ms).ch_out,
      (track_failsafe-SameOwner ready ready.state s e).heat_hours,
    )

-- A step in failsafe, with the verdict that its bit follows.
failsafe_step :
    (c : Control) (cfg : Cfg) (inp : ControlIn) (now_ms : ℕ)
    → let (c', out) = step c cfg inp now_ms in
      out.state ≡ failsafe
      → (t : Control) × (c'.ch_out ≡ (failsafe_ch t cfg inp).1 && (c.ch_out || c'.confirmed))
        × (t.ch_age_ms ≡ add_sat c.ch_age_ms (sub32 now_ms c.last_step_ms))
        × (t.ch_out ≡ c.ch_out)
        × (t.heat_hours ≡ c'.heat_hours)
unfolding step decide
failsafe_step c cfg inp now_ms f =
    let (ready, done) = prepare c cfg inp now_ms in
    let expired = is_expired ready cfg in
    let s = ladder ready cfg expired in
    let t = track_failsafe ready ready.state s expired in
    (
      t,
      ground (
        arith,
        f,
        step-state c cfg inp now_ms,
        act-bit t cfg inp s done,
        tracked-age c cfg inp now_ms s expired,
      ),
      (tracked-age c cfg inp now_ms s expired).0,
      (tracked-age c cfg inp now_ms s expired).1,
      ground (arith, tracked-age c cfg inp now_ms s expired, act-SameOwner t cfg inp s done),
    )

hysteresis_cold :
    (t : Control) (cfg : Cfg) (inp : ControlIn)
    → inp.room_dc ≤ℤ cfg.failsafe_room_target_dc -ℤ pos 3
    → hysteresis t cfg inp ≡ true
unfolding hysteresis
hysteresis_cold t cfg inp h = ground arith

hysteresis_warm :
    (t : Control) (cfg : Cfg) (inp : ControlIn)
    → cfg.failsafe_room_target_dc +ℤ pos 3 ≤ℤ inp.room_dc
    → hysteresis t cfg inp ≡ false
unfolding hysteresis ◌+ℤ◌ ◌-ℤ◌
hysteresis_warm t cfg inp h = ground arith

verdict :
    (t : Control) (cfg : Cfg) (inp : ControlIn)
    → (heat_limit_h cfg ≤ t.heat_hours → (failsafe_ch t cfg inp).1 ≡ false)
      × (t.heat_hours < heat_limit_h cfg
          → inp.room_fresh ≡ false
          → (failsafe_ch t cfg inp).1 ≡ true)
      × (t.heat_hours < heat_limit_h cfg
          → inp.room_fresh ≡ true
          → t.ch_age_ms < cfg.failsafe_min_cycle_s * 1000
          → (failsafe_ch t cfg inp).1 ≡ t.ch_out)
      × (t.heat_hours < heat_limit_h cfg
          → inp.room_fresh ≡ true
          → cfg.failsafe_min_cycle_s * 1000 ≤ t.ch_age_ms
          → inp.room_dc ≤ℤ cfg.failsafe_room_target_dc -ℤ pos 3
          → (failsafe_ch t cfg inp).1 ≡ true)
      × (t.heat_hours < heat_limit_h cfg
          → inp.room_fresh ≡ true
          → cfg.failsafe_min_cycle_s * 1000 ≤ t.ch_age_ms
          → cfg.failsafe_room_target_dc +ℤ pos 3 ≤ℤ inp.room_dc
          → (failsafe_ch t cfg inp).1 ≡ false)
unfolding failsafe_ch cycled
verdict t cfg inp = (
  (λ off. ground arith),
  (λ armed blind. ground arith),
  (λ armed fresh young. ground arith),
  (λ armed fresh old cold. ground (arith, hysteresis_cold t cfg inp)),
  (λ armed fresh old warm. ground (arith, hysteresis_warm t cfg inp)),
)

-- The failsafe's bit, case by case. With the arm spent it is down. Armed, it is up with no fresh
-- room source; with a fresh one it is unchanged while it is younger than the minimum cycle, and
-- older than that it is up in a room at 0.3 K or more below the target and down at 0.3 K or more
-- above it. Up means: as soon as the bus has confirmed the held setpoint, and at once if it was up.
pub failsafe_bit :
    (c : Control) (cfg : Cfg) (inp : ControlIn) (now_ms : ℕ)
    → let (c', out) = step c cfg inp now_ms in
      let age = add_sat c.ch_age_ms (sub32 now_ms c.last_step_ms) in
      let cycle = cfg.failsafe_min_cycle_s * 1000 in
      out.state ≡ failsafe
      → (heat_limit_h cfg ≤ c'.heat_hours → c'.ch_out ≡ false)
        × (c'.heat_hours < heat_limit_h cfg
            → inp.room_fresh ≡ false
            → c'.ch_out ≡ (c.ch_out || c'.confirmed))
        × (c'.heat_hours < heat_limit_h cfg
            → inp.room_fresh ≡ true
            → age < cycle
            → c'.ch_out ≡ c.ch_out)
        × (c'.heat_hours < heat_limit_h cfg
            → inp.room_fresh ≡ true
            → cycle ≤ age
            → inp.room_dc ≤ℤ cfg.failsafe_room_target_dc -ℤ pos 3
            → c'.ch_out ≡ (c.ch_out || c'.confirmed))
        × (c'.heat_hours < heat_limit_h cfg
            → inp.room_fresh ≡ true
            → cycle ≤ age
            → cfg.failsafe_room_target_dc +ℤ pos 3 ≤ℤ inp.room_dc
            → c'.ch_out ≡ false)
failsafe_bit c cfg inp now_ms f =
    let (t, bit, age, out, hours) = failsafe_step c cfg inp now_ms f in
    let v = verdict t cfg inp in
    (
      (λ off. ground (arith, bit, v.0 (rw hours off))),
      (λ armed blind. ground (arith, bit, v.1 (rw hours armed) blind)),
      (λ armed fresh young. ground (arith, bit, out, v.2 (rw hours armed) fresh (rw age young))),
      (λ armed fresh old cold. ground (arith, bit, v.3 (rw hours armed) fresh (rw age old) cold)),
      (λ armed fresh old warm. ground (arith, bit, v.4 (rw hours armed) fresh (rw age old) warm)),
    )
