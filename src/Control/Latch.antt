-- ===== src/Control/Latch.antt =====
-- The latch of the failsafe: what keeps it, what ends it, and what a start carries over.
use opentherm_thermostat_fir.Prelude.{
  ℕ, ◌+◌, ◌*◌, ◌≤◌, ◌<◌, ◌≡◌, ◌⊎◌, Bool, true, false, List, [], ◌∷◌, All, arith, if◌then◌else◌,
}
use opentherm_thermostat_fir.Prelude.Word.{u32_max, sub32}
use opentherm_thermostat_fir.Prelude.Int.{pos}
use opentherm_thermostat_fir.Control.Types.{
  Origin, Cfg, Control, ControlIn, ControlState, ch_enable, failsafe, ha_waiting, ok,
}
use opentherm_thermostat_fir.Control.Boost.{boost_start, boost_cancel}
use opentherm_thermostat_fir.Control.Edges.{forget_ha}
use opentherm_thermostat_fir.Control.Failsafe.{ladder}
use opentherm_thermostat_fir.Control.Step.{prepare, is_expired, step}
use opentherm_thermostat_fir.Control.Command.{
  check, check_owner, check_value, heard, ha_enable, carry_out, apply,
}
use opentherm_thermostat_fir.Control.Ladder.{
  step-SameOwner, step-state, step-latch, heat_needs_cause, ch_bit,
}
use opentherm_thermostat_fir.Control.Trace.{
  Event, tick, command, start_boost, cancel_boost, react, run,
}
use opentherm_thermostat_fir.Control.Watchdog.{InHa, Owned, prepare-Owned, add_sat-min}

-- Home Assistant keeps the ownership and sends no CH_ENABLE; it may send all else. The watchdog is
-- not set above `w` seconds.
abbrev pub Unreleased : ℕ → Event → Type 0
Unreleased w (tick cfg _ _) = InHa cfg × (cfg.watchdog_s ≤ w)
Unreleased w (command _ Origin.ha ch_enable _) = ⊥
Unreleased w (command _ _ _ _) = Unit
Unreleased w (start_boost _ _ _ _) = Unit
Unreleased w cancel_boost = Unit

-- A latched failsafe whose watchdog of `w` seconds has expired, unless HA has been heard.
abbrev pub Latched : ℕ → Control → Type 0
Latched w c =
    Owned c
    × (c.fs_latched ≡ true)
    × (c.overdue_ms ≤ u32_max)
    × ((c.ha_heard ≡ true) ⊎ (w * 1000 ≤ c.overdue_ms))

ladder-Latched :
    (c : Control) (cfg : Cfg) (w : ℕ)
    → Latched w c
    → InHa cfg
    → cfg.watchdog_s ≤ w
    → ladder c cfg (is_expired c cfg) ≡ failsafe
unfolding ladder is_expired
ladder-Latched c cfg w l ha le = ground arith

prepare-Latched :
    (c : Control) (cfg : Cfg) (inp : ControlIn) (now_ms w : ℕ)
    → w ≤ 65535
    → Latched w c
    → InHa cfg
    → Latched w (prepare c cfg inp now_ms).0
prepare-Latched c cfg inp now_ms w small l ha = ground (
  arith,
  prepare-Owned c cfg inp now_ms l.0 ha,
  add_sat-min c.overdue_ms (sub32 now_ms c.last_step_ms) l.2 (omega arith),
)

step-Latched :
    (c : Control) (cfg : Cfg) (inp : ControlIn) (now_ms w : ℕ)
    → w ≤ 65535
    → Latched w c
    → InHa cfg
    → cfg.watchdog_s ≤ w
    → Latched w (step c cfg inp now_ms).0 × ((step c cfg inp now_ms).1.state ≡ failsafe)
step-Latched c cfg inp now_ms w small l ha le =
    let p = prepare-Latched c cfg inp now_ms w small l ha in
    ground (
      arith,
      p,
      ladder-Latched (prepare c cfg inp now_ms).0 cfg w p ha le,
      step-SameOwner c cfg inp now_ms,
      step-state c cfg inp now_ms,
      step-latch c cfg inp now_ms,
    )

react-Latched :
    (c : Control) (e : Event) (w : ℕ)
    → w ≤ 65535
    → Latched w c
    → Unreleased w e
    → Latched w (react c e)
unfolding react apply carry_out heard boost_start boost_cancel
react-Latched c (tick cfg inp now_ms) w small l u =
    (step-Latched c cfg inp now_ms w small l u.0 u.1).0
react-Latched c (command cfg Origin.web cmd value) w small l u = ground arith
react-Latched c (command cfg Origin.ha ch_enable value) w small l u = absurd u
react-Latched c (command cfg Origin.ha _ value) w small l u = ground arith
react-Latched c (start_boost cfg setpoint_dc minutes now_ms) w small l u = ground arith
react-Latched c cancel_boost w small l u = l

run-Latched :
    (c : Control) (es : List Event) (w : ℕ)
    → w ≤ 65535
    → Latched w c
    → All (Unreleased w) es
    → Latched w (run c es)
unfolding run
run-Latched c [] w small l u = l
run-Latched c (e ∷ es) w small l u =
    run-Latched (react c e) es w small (react-Latched c e w small l u.0) u.1

-- Once latched, a failsafe stays: whatever happens in HA mode with the season on, commands of HA
-- other than CH_ENABLE, fresh sources and web commands included, every later step is in failsafe,
-- as long as the watchdog is not set above the one that had expired, or HA has been heard.
pub failsafe_stays :
    (c : Control) (es : List Event) (cfg : Cfg) (inp : ControlIn) (now_ms w : ℕ)
    → w ≤ 65535
    → Latched w c
    → All (Unreleased w) es
    → InHa cfg
    → cfg.watchdog_s ≤ w
    → (step (run c es) cfg inp now_ms).1.state ≡ failsafe
failsafe_stays c es cfg inp now_ms w small l u ha le =
    (step-Latched (run c es) cfg inp now_ms w small (run-Latched c es w small l u) ha le).1

-- The gap in the latch: a latched failsafe of an HA that was never heard ends without any command
-- at the first step whose watchdog is set above the milliseconds counted. The state is then
-- "waiting for HA", and the CH bit of the status byte is 0.
pub longer_watchdog_unlatches :
    (c : Control) (cfg : Cfg) (inp : ControlIn) (now_ms : ℕ)
    → Owned c
    → c.fs_latched ≡ true
    → c.ha_heard ≡ false
    → c.overdue_ms ≤ u32_max
    → InHa cfg
    → c.overdue_ms + sub32 now_ms c.last_step_ms < cfg.watchdog_s * 1000
    → let out = (step c cfg inp now_ms).1 in (out.state ≡ ha_waiting) × (ch_bit out.status_high ≡ 0)
unfolding ladder is_expired
longer_watchdog_unlatches c cfg inp now_ms own latched deaf le ha longer =
    let p = prepare-Owned c cfg inp now_ms own ha in
    let sat = add_sat-min c.overdue_ms (sub32 now_ms c.last_step_ms) le (omega arith) in
    let w : (step c cfg inp now_ms).1.state ≡ ha_waiting =
      ground (arith, p, sat, step-state c cfg inp now_ms) in
    (w, ground (arith, w, heat_needs_cause c cfg inp now_ms))

-- HA's CH_ENABLE, 0 or 1, is accepted in HA mode and fed to the watchdog; it releases the latch
-- unless the executor is blind.
enable-accepted :
    (c : Control) (cfg : Cfg) (on : Bool)
    → Owned c
    → let (c', p, e) = apply c cfg Origin.ha ch_enable (if on then pos 1 else pos 0) in
      (e ≡ ok)
      × Owned c'
      × (c'.ha_heard ≡ true)
      × (c'.ha_ch_enable ≡ on)
      × (c'.overdue_ms ≡ 0)
      × (c'.last_step_ms ≡ c.last_step_ms)
      × (c.blind ≡ false → c'.fs_latched ≡ false)
unfolding apply carry_out ha_enable heard forget_ha check check_owner check_value
enable-accepted c cfg on own = ground arith

-- The way out: when the executor is not blind, one CH_ENABLE of Home Assistant brings its command
-- back at the next step, if that step is inside the watchdog and the room source is not stale.
pub enable_recovers :
    (c : Control) (cfg cfg' : Cfg) (on : Bool) (inp : ControlIn) (now_ms : ℕ)
    → Owned c
    → c.blind ≡ false
    → InHa cfg'
    → inp.ha_forwarded_stale ≡ false
    → sub32 now_ms c.last_step_ms < cfg'.watchdog_s * 1000
    → let c' = (apply c cfg Origin.ha ch_enable (if on then pos 1 else pos 0)).0 in
      let (d, out) = step c' cfg' inp now_ms in
      (out.state ≡ ControlState.ha) × (d.ha_ch_enable ≡ on)
unfolding ladder is_expired
enable_recovers c cfg cfg' on inp now_ms own seeing ha fresh soon =
    let c' = (apply c cfg Origin.ha ch_enable (if on then pos 1 else pos 0)).0 in
    let a = enable-accepted c cfg on own in
    let p = prepare-Owned c' cfg' inp now_ms a.1 ha in
    let sat =
      add_sat-min c'.overdue_ms (sub32 now_ms c'.last_step_ms) (omega (arith, a.4)) (omega arith) in
    ground (arith, a, p, sat, step-SameOwner c' cfg' inp now_ms, step-state c' cfg' inp now_ms)
