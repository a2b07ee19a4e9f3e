-- ===== src/Control/Watchdog.antt =====
-- The watchdog and the latch over every sequence of events: when the failsafe comes, how long it
-- stays, and what ends it.
use opentherm_thermostat_fir.Prelude.{
  ℕ, ◌+◌, ◌*◌, ◌≤◌, ◌≡◌, ap, true, List, [], ◌∷◌, All, arith, refl, min, leb, le→leb,
}
use opentherm_thermostat_fir.Prelude.Word.{u32_max, sub32, add_sat}
use opentherm_thermostat_fir.Prelude.Int.{ℤ}
use opentherm_thermostat_fir.Control.Types.{
  Mode, Origin, Cmd, Cfg, Control, ControlIn, Reason, ch_enable, ch_setpoint, failsafe,
}
use opentherm_thermostat_fir.Control.Clock.{advance, advance_ages, count_hours}
use opentherm_thermostat_fir.Control.Boost.{boost_start, boost_cancel, boost_expire}
use opentherm_thermostat_fir.Control.Edges.{forget_ha, see_mode, is_entry, observe}
use opentherm_thermostat_fir.Control.Failsafe.{ladder}
use opentherm_thermostat_fir.Control.Step.{prepare, is_expired, step}
use opentherm_thermostat_fir.Control.Command.{carry_out, apply}
use opentherm_thermostat_fir.Control.Ladder.{step-SameOwner, step-state, step-latch}
use opentherm_thermostat_fir.Control.Trace.{
  Event, tick, command, start_boost, cancel_boost, react, run,
}

-- A step whose snapshot says HA mode and season on.
abbrev pub InHa : Cfg → Type 0
InHa cfg = (cfg.mode ≡ Mode.ha) × (cfg.heating_season ≡ true)

-- Home Assistant says nothing about heat, and keeps the ownership: anybody may send anything else.
abbrev pub Quiet : Event → Type 0
Quiet (tick cfg _ _) = InHa cfg
Quiet (command _ Origin.ha ch_enable _) = ⊥
Quiet (command _ Origin.ha ch_setpoint _) = ⊥
Quiet (command _ _ _ _) = Unit
Quiet (start_boost _ _ _ _) = Unit
Quiet cancel_boost = Unit

-- The milliseconds that the steps of a trace count, the first from `last`.
unfoldable pub elapsed : ℕ → List Event → ℕ
elapsed last [] = 0
elapsed last (tick cfg inp now_ms ∷ es) = sub32 now_ms last + elapsed now_ms es
elapsed last (command _ _ _ _ ∷ es) = elapsed last es
elapsed last (start_boost _ _ _ _ ∷ es) = elapsed last es
elapsed last (cancel_boost ∷ es) = elapsed last es

-- The executor has seen HA mode and the season on.
abbrev pub Owned : Control → Type 0
Owned c = (c.seen_ha ≡ true) × (c.seen_season ≡ true)

pub prepare-Owned :
    (c : Control) (cfg : Cfg) (inp : ControlIn) (now_ms : ℕ)
    → Owned c
    → InHa cfg
    → let ready = (prepare c cfg inp now_ms).0 in
      Owned ready
      × (ready.overdue_ms ≡ add_sat c.overdue_ms (sub32 now_ms c.last_step_ms))
      × (ready.last_step_ms ≡ now_ms)
      × (ready.fs_latched ≡ c.fs_latched)
      × (ready.ha_heard ≡ c.ha_heard)
      × (ready.ha_ch_enable ≡ c.ha_ch_enable)
      × (ready.blind ≡ inp.ha_forwarded_stale)
unfolding prepare advance advance_ages count_hours observe see_mode is_entry forget_ha boost_cancel
    boost_expire
prepare-Owned c cfg inp now_ms own ha = ground arith

pub add_sat-min : (a b : ℕ) → a ≤ u32_max → b ≤ u32_max → add_sat a b ≡ min u32_max (a + b)
unfolding add_sat
add_sat-min a b p q = ground arith

step-Owned :
    (c : Control) (cfg : Cfg) (inp : ControlIn) (now_ms : ℕ)
    → Owned c
    → InHa cfg
    → let c' = (step c cfg inp now_ms).0 in
      Owned c'
      × (c'.overdue_ms ≡ add_sat c.overdue_ms (sub32 now_ms c.last_step_ms))
      × (c'.last_step_ms ≡ now_ms)
step-Owned c cfg inp now_ms own ha =
    ground (arith, prepare-Owned c cfg inp now_ms own ha, step-SameOwner c cfg inp now_ms)

-- What a quiet event that is no step leaves alone.
apply-Quiet :
    (c : Control) (cfg : Cfg) (origin : Origin) (cmd : Cmd) (value : ℤ)
    → Quiet (command cfg origin cmd value)
    → let c' = (apply c cfg origin cmd value).0 in
      (c'.seen_ha ≡ c.seen_ha)
      × (c'.seen_season ≡ c.seen_season)
      × (c'.overdue_ms ≡ c.overdue_ms)
      × (c'.last_step_ms ≡ c.last_step_ms)
unfolding apply carry_out
apply-Quiet c cfg Origin.web cmd value q = ground arith
apply-Quiet c cfg Origin.ha ch_enable value q = absurd q
apply-Quiet c cfg Origin.ha ch_setpoint value q = absurd q
apply-Quiet c cfg Origin.ha _ value q = ground arith

boost_start-quiet :
    (c : Control) (cfg : Cfg) (setpoint_dc : ℤ) (minutes now_ms : ℕ)
    → let c' = (boost_start c cfg setpoint_dc minutes now_ms).0 in
      (c'.seen_ha ≡ c.seen_ha)
      × (c'.seen_season ≡ c.seen_season)
      × (c'.overdue_ms ≡ c.overdue_ms)
      × (c'.last_step_ms ≡ c.last_step_ms)
unfolding boost_start
boost_start-quiet c cfg setpoint_dc minutes now_ms = ground arith

boost_cancel-quiet :
    (c : Control)
    → let c' = boost_cancel c in
      (c'.seen_ha ≡ c.seen_ha)
      × (c'.seen_season ≡ c.seen_season)
      × (c'.overdue_ms ≡ c.overdue_ms)
      × (c'.last_step_ms ≡ c.last_step_ms)
unfolding boost_cancel
boost_cancel-quiet c = (refl, refl, refl, refl)

-- The watchdog counts every millisecond of a quiet trace, and stops at the largest uint32_t.
overdue-run :
    (c : Control) (es : List Event)
    → Owned c
    → c.overdue_ms ≤ u32_max
    → All Quiet es
    → Owned (run c es)
      × ((run c es).overdue_ms ≡ min u32_max (c.overdue_ms + elapsed c.last_step_ms es))
unfolding run react elapsed
overdue-run c [] own le q = (own, omega arith)
overdue-run c (tick cfg inp now_ms ∷ es) own le q =
    let dt = sub32 now_ms c.last_step_ms in
    let (own', od, last) = step-Owned c cfg inp now_ms own q.0 in
    let sat = add_sat-min c.overdue_ms dt le (omega arith) in
    let ih = overdue-run (step c cfg inp now_ms).0 es own' (omega (arith, od, sat)) q.1 in
    (ih.0, omega (arith, od, sat, ih.1, ap (λ m. elapsed m es) last))
overdue-run c (command cfg origin cmd value ∷ es) own le q =
    let same = apply-Quiet c cfg origin cmd value q.0 in
    let ih =
      overdue-run (apply c cfg origin cmd value).0 es (ground (arith, same, own))
        (omega (arith, same)) q.1 in
    (ih.0, omega (arith, same, ih.1, ap (λ m. elapsed m es) same.3))
overdue-run c (start_boost cfg setpoint_dc minutes now_ms ∷ es) own le q =
    let same = boost_start-quiet c cfg setpoint_dc minutes now_ms in
    let ih =
      overdue-run (boost_start c cfg setpoint_dc minutes now_ms).0 es (ground (arith, same, own))
        (omega (arith, same)) q.1 in
    (ih.0, omega (arith, same, ih.1, ap (λ m. elapsed m es) same.3))
overdue-run c (cancel_boost ∷ es) own le q =
    let same = boost_cancel-quiet c in
    let ih =
      overdue-run (boost_cancel c) es (ground (arith, same, own)) (omega (arith, same)) q.1 in
    (ih.0, omega (arith, same, ih.1, ap (λ m. elapsed m es) same.3))

-- A controller that falls silent is replaced: after any trace in which Home Assistant owns the
-- boiler and sends no CH command, a step at which the milliseconds counted since its last one reach
-- the watchdog is in failsafe, for the cause "watchdog". Commands of the web, boosts and HA's
-- other commands in between change nothing.
pub silence_is_failsafe :
    (c : Control) (es : List Event) (cfg : Cfg) (inp : ControlIn) (now_ms : ℕ)
    → Owned c
    → c.overdue_ms ≤ u32_max
    → All Quiet es
    → InHa cfg
    → cfg.watchdog_s ≤ 65535
    → cfg.watchdog_s * 1000
      ≤ c.overdue_ms + elapsed c.last_step_ms es + sub32 now_ms (run c es).last_step_ms
    → let out = (step (run c es) cfg inp now_ms).1 in
      (out.state ≡ failsafe) × (out.cause ≡ Reason.watchdog)
unfolding ladder is_expired
silence_is_failsafe c es cfg inp now_ms own le q ha w late =
    let d = run c es in
    let dt = sub32 now_ms d.last_step_ms in
    let (own', od) = overdue-run c es own le q in
    let ready = prepare-Owned d cfg inp now_ms own' ha in
    let sat = add_sat-min d.overdue_ms dt (omega (arith, od)) (omega arith) in
    let e : leb (cfg.watchdog_s * 1000) (prepare d cfg inp now_ms).0.overdue_ms ≡ true =
      le→leb _ _ (omega (arith, od, sat, ready.1)) in
    (
      ground (arith, ready, e, ha, step-state d cfg inp now_ms),
      ground (arith, ready, e, ha, step-latch d cfg inp now_ms),
    )
