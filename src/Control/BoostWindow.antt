-- ===== src/Control/BoostWindow.antt =====
-- The boost: when it is granted, and the window in which it runs.
use opentherm_thermostat_fir.Prelude.{
  ℕ, ◌+◌, ◌*◌, ◌≤◌, ◌<◌, ◌≡◌, ◌≢◌, ◌↔◌, true, false, arith, not, leb, ltb, ◌-◌, Bool, ◌&&◌, ◌∙◌,
  List, [], ◌∷◌, All, if◌then◌else◌,
}
use opentherm_thermostat_fir.Prelude.Word.{sub32, u32, u32_mod}
use opentherm_thermostat_fir.Prelude.Int.{ℤ}
use opentherm_thermostat_fir.Control.Types.{Mode, Cfg, Control, ControlIn, ControlState, boost, ok}
use opentherm_thermostat_fir.Control.Clock.{advance, advance_ages, count_hours}
use opentherm_thermostat_fir.Control.Boost.{
  reached, boost_start, boost_cancel, boost_expire, boost_remaining_s, ms_per_minute,
}
use opentherm_thermostat_fir.Control.Edges.{forget_ha, see_mode, is_entry, observe}
use opentherm_thermostat_fir.Control.Failsafe.{ladder}
use opentherm_thermostat_fir.Control.Step.{prepare, step}
use opentherm_thermostat_fir.Control.Bounds.{IsInFlow}
use opentherm_thermostat_fir.Control.Ladder.{step-SameOwner, step-state}
use opentherm_thermostat_fir.Control.Ticks.{Tick, ticks}

-- A boost is granted exactly when the executor last saw LOCAL mode and the season on, for 1 to 480
-- minutes, at a setpoint inside the flow bounds. A refusal changes nothing.
pub boost_start_iff :
    (c : Control) (cfg : Cfg) (sp : ℤ) (minutes now_ms : ℕ)
    → let (c', e) = boost_start c cfg sp minutes now_ms in
      ((e ≡ ok) ↔ (
        (c.seen_ha ≡ false)
        × (c.seen_season ≡ true)
        × (1 ≤ minutes)
        × (minutes ≤ 480)
        × IsInFlow cfg sp))
      × (e ≢ ok → c' ≡ c)
unfolding boost_start
boost_start_iff c cfg sp minutes now_ms =
    ((λ h. ground (arith, h), λ h. ground (arith, h)), λ h. ground (arith, h))

-- The deadline that a grant stores is reached from `minutes` on, and not before, for 24 days.
reached_window :
    (start_ms now_ms minutes : ℕ)
    → start_ms < u32_mod
    → now_ms < u32_mod
    → minutes ≤ 480
    → sub32 now_ms start_ms < 2147483648
    → reached now_ms (u32 (start_ms + u32 (minutes * ms_per_minute)))
      ≡ leb (minutes * ms_per_minute) (sub32 now_ms start_ms)
unfolding reached
reached_window start_ms now_ms minutes hs hn hm hd = ground arith

granted :
    (c : Control) (cfg : Cfg) (sp : ℤ) (minutes now_ms : ℕ)
    → let (c', e) = boost_start c cfg sp minutes now_ms in
      e ≡ ok
      → (c'.boost_active ≡ true)
        × (c'.boost_setpoint_dc ≡ sp)
        × (c'.boost_expires_ms ≡ u32 (now_ms + u32 (minutes * ms_per_minute)))
        × (c'.seen_ha ≡ false)
        × (c'.seen_season ≡ true)
        × (minutes ≤ 480)
unfolding boost_start
granted c cfg sp minutes now_ms h = ground arith

prepare_local :
    (c : Control) (cfg : Cfg) (inp : ControlIn) (now_ms : ℕ)
    → c.seen_ha ≡ false
    → cfg.mode ≡ Mode.local
    → let ready = (prepare c cfg inp now_ms).0 in
      (ready.seen_ha ≡ false)
      × (ready.boost_active ≡ (c.boost_active && not (reached now_ms c.boost_expires_ms)))
      × (ready.boost_active ≡ true → ready.boost_expires_ms ≡ c.boost_expires_ms)
unfolding prepare advance advance_ages count_hours observe see_mode is_entry forget_ha boost_cancel
    boost_expire
prepare_local c cfg inp now_ms h m = ground (arith, h, m)

-- A boost may be running, until the moment `deadline` and not beyond.
record RunsUntil (deadline : ℕ) (on : Bool) (c : Control) : Type 0 where
  local_mode : c.seen_ha ≡ false
  running : on ≡ true → c.boost_active ≡ true
  deadline_kept : c.boost_active ≡ true → c.boost_expires_ms ≡ deadline

step-RunsUntil :
    (deadline : ℕ) (on : Bool) (c : Control) (cfg : Cfg) (inp : ControlIn) (now_ms : ℕ)
    → cfg.mode ≡ Mode.local
    → (on ≡ true → reached now_ms deadline ≡ false)
    → RunsUntil deadline on c
    → RunsUntil deadline on (step c cfg inp now_ms).0
step-RunsUntil deadline on c cfg inp now_ms m early r =
    let p = prepare_local c cfg inp now_ms r.local_mode m in
    let same = step-SameOwner c cfg inp now_ms in
    record {
      local_mode = same.seen_ha ∙ p.0;
      running = λ h. ground (arith, p, same, r.running h, r.deadline_kept, early h);
      deadline_kept = λ h. ground (arith, h, p, same, r.deadline_kept);
    }

-- A tick in LOCAL mode, not later after the moment `start_ms` than the offset `within`.
abbrev pub IsLocalBy : ℕ → ℕ → Tick → Type 0
IsLocalBy start_ms within (cfg, inp, now_ms) =
    (cfg.mode ≡ Mode.local) × (now_ms < u32_mod) × (sub32 now_ms start_ms ≤ within)

ticks-RunsUntil :
    (start_ms minutes within : ℕ) (on : Bool) (c : Control) (l : List Tick)
    → start_ms < u32_mod
    → minutes ≤ 480
    → within < 2147483648
    → (on ≡ true → within < minutes * ms_per_minute)
    → All (IsLocalBy start_ms within) l
    → RunsUntil (u32 (start_ms + u32 (minutes * ms_per_minute))) on c
    → RunsUntil (u32 (start_ms + u32 (minutes * ms_per_minute))) on (ticks c l)
unfolding ticks
ticks-RunsUntil start_ms minutes within on c [] hs hm hw early p r = r
ticks-RunsUntil start_ms minutes within on c ((cfg, inp, now_ms) ∷ l) hs hm hw early p r =
    let deadline = u32 (start_ms + u32 (minutes * ms_per_minute)) in
    let window = reached_window start_ms now_ms minutes hs p.0.1 hm (omega (arith, p.0.2, hw)) in
    ticks-RunsUntil start_ms minutes within on (step c cfg inp now_ms).0 l hs hm hw early p.1 (
      step-RunsUntil deadline on c cfg inp now_ms p.0.0
        (λ h. ground (arith, window, p.0.2, early h)) r)

-- A boost runs for exactly the minutes that it was granted for, also across the wrap of the
-- millisecond clock: after the grant and any number of steps in LOCAL mode, a step in LOCAL mode
-- with the season on, within 2^31 ms of the start and no earlier after it than the steps before, is
-- in the state "boost" before the deadline and in the state "local" from the deadline on.
pub boost_window :
    (c : Control) (cfg cfg' : Cfg) (sp : ℤ) (minutes start_ms now_ms : ℕ) (l : List Tick)
    (inp : ControlIn)
    → start_ms < u32_mod
    → now_ms < u32_mod
    → sub32 now_ms start_ms < 2147483648
    → All (IsLocalBy start_ms (sub32 now_ms start_ms)) l
    → cfg'.mode ≡ Mode.local
    → cfg'.heating_season ≡ true
    → (boost_start c cfg sp minutes start_ms).1 ≡ ok
    → (step (ticks (boost_start c cfg sp minutes start_ms).0 l) cfg' inp now_ms).1.state ≡ (
        if ltb (sub32 now_ms start_ms) (minutes * ms_per_minute) then boost else ControlState.local)
unfolding ladder
boost_window c cfg cfg' sp minutes start_ms now_ms l inp hs hn hd p m on e =
    let b = (boost_start c cfg sp minutes start_ms).0 in
    let g = granted c cfg sp minutes start_ms e in
    let within = sub32 now_ms start_ms in
    let before = ltb within (minutes * ms_per_minute) in
    let r =
      ticks-RunsUntil start_ms minutes within before b l hs g.5 hd (λ h. ground (arith, h)) p
        record { local_mode = g.3; running = λ h. g.0; deadline_kept = λ h. g.2 } in
    ground (
      arith,
      r.local_mode,
      r.running,
      r.deadline_kept,
      reached_window start_ms now_ms minutes hs hn g.5 hd,
      prepare_local (ticks b l) cfg' inp now_ms r.local_mode m,
      step-state (ticks b l) cfg' inp now_ms,
    )

-- The seconds left that a running boost reports are those to its deadline, rounded up; 0 only from
-- the deadline on.
pub remaining_rounds_up :
    (c : Control) (cfg : Cfg) (sp : ℤ) (minutes start_ms now_ms : ℕ)
    → start_ms < u32_mod
    → now_ms < u32_mod
    → sub32 now_ms start_ms < 2147483648
    → (boost_start c cfg sp minutes start_ms).1 ≡ ok
    → let left = minutes * ms_per_minute - sub32 now_ms start_ms in
      let shown = boost_remaining_s (boost_start c cfg sp minutes start_ms).0 now_ms in
      (left ≤ shown * 1000) × (shown * 1000 < left + 1000)
unfolding boost_remaining_s
remaining_rounds_up c cfg sp minutes start_ms now_ms hs hn hd e =
    let g = granted c cfg sp minutes start_ms e in
    ground (arith, g, reached_window start_ms now_ms minutes hs hn g.5 hd)
