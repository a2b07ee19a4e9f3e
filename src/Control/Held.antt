-- ===== src/Control/Held.antt =====
-- The invariant of the CH bit: it does not rise before the bus has carried the held ID 1.
use opentherm_thermostat_fir.Prelude.{
  ℕ, ◌≡◌, ◌⊎◌, Bool, true, false, Option, none, some, List, [], ◌∷◌, arith,
}
use opentherm_thermostat_fir.Prelude.Int.{ℤ, eqb_ℤ-iff}
use opentherm_thermostat_fir.Control.Types.{
  Cfg, Control, ControlIn, ControlState, Reason, Origin, Cmd, Restore,
}
use opentherm_thermostat_fir.Control.Bound.{bound}
use opentherm_thermostat_fir.Control.Boost.{boost_start, boost_cancel}
use opentherm_thermostat_fir.Control.Edges.{forget_ha, restore, init}
use opentherm_thermostat_fir.Control.Failsafe.{track_failsafe, ladder}
use opentherm_thermostat_fir.Control.Step.{
  Wish, prepare, is_expired, decide, hold, gate, set_ch, act, step,
}
use opentherm_thermostat_fir.Control.Command.{heard, ha_enable, carry_out, apply}
use opentherm_thermostat_fir.Control.Frames.{
  SameBit, SameBit-trans, prepare-SameBit, track_failsafe-SameBit, decide-SameBit, dhw_due-SameBit,
}
use opentherm_thermostat_fir.Control.Trace.{
  Event, tick, command, start_boost, cancel_boost, react, run, report, reports,
}

-- `confirmed` means that the last ID 1 which the bus reported is the held one.
abbrev Carried : Option ℤ → Control → Type 0
Carried last c = c.confirmed ≡ true → last ≡ some c.held_dc

SameBit-Carried : {last : Option ℤ} {c d : Control} → SameBit c d → Carried last c → Carried last d
SameBit-Carried p h = λ e. ground (arith, h)

hold-Carried :
    (last : Option ℤ) (c : Control) (inp : ControlIn) (held : ℤ) (cfg : Cfg) (now_ms : ℕ)
    → Carried last c
    → Carried (report last (tick cfg inp now_ms)) (hold c inp held)
unfolding hold report
hold-Carried last c inp held cfg now_ms h =
    λ e. ground (arith, h, eqb_ℤ-iff held c.held_dc, eqb_ℤ-iff inp.confirmed_dc held)

-- A bit that the gate lets rise is confirmed.
set_ch-gate :
    (c : Control) (want : Bool) (reason : Reason)
    → (set_ch c (gate c want reason).0).ch_out ≡ true
    → (c.ch_out ≡ true) ⊎ ((set_ch c (gate c want reason).0).confirmed ≡ true)
unfolding set_ch gate
set_ch-gate c want reason h = ground arith

hold-ch_out : (c : Control) (inp : ControlIn) (held : ℤ) → (hold c inp held).ch_out ≡ c.ch_out
unfolding hold
hold-ch_out c inp held = ground arith

set_ch-held : (c : Control) (ch : Bool) → (set_ch c ch).held_dc ≡ c.held_dc
unfolding set_ch
set_ch-held c ch = ground arith

set_ch-confirmed : (c : Control) (ch : Bool) → (set_ch c ch).confirmed ≡ c.confirmed
unfolding set_ch
set_ch-confirmed c ch = ground arith

module _ (c : Control) (cfg : Cfg) (inp : ControlIn) (s : ControlState) (done : Bool) where
  abbrev wished : Wish
  wished = decide c cfg inp s

  abbrev kept : Control
  kept = hold wished.core inp (bound cfg wished.target)

  abbrev lit : Control
  lit = set_ch kept (gate kept wished.want wished.reason).0

  act-lit : SameBit lit (act c cfg inp s done).0
  unfolding act
  act-lit = ground (arith, dhw_due-SameBit lit cfg inp)

  act_rises :
      (act c cfg inp s done).0.ch_out ≡ true
      → (c.ch_out ≡ true) ⊎ ((act c cfg inp s done).0.confirmed ≡ true)
  act_rises h = ground (
    arith,
    act-lit,
    set_ch-gate kept wished.want wished.reason,
    hold-ch_out wished.core inp (bound cfg wished.target),
    decide-SameBit c cfg inp s,
  )

  act-Carried :
      (last : Option ℤ) (now_ms : ℕ)
      → Carried last c
      → Carried (report last (tick cfg inp now_ms)) (act c cfg inp s done).0
  act-Carried last now_ms h = SameBit-Carried act-lit (λ e. ground (
    arith,
    hold-Carried last wished.core inp (bound cfg wished.target) cfg now_ms
        (SameBit-Carried (decide-SameBit c cfg inp s) h),
    set_ch-held kept (gate kept wished.want wished.reason).0,
    set_ch-confirmed kept (gate kept wished.want wished.reason).0,
  ))

-- The state that the ladder's verdict is acted on from.
tracked-SameBit :
    (c : Control) (cfg : Cfg) (inp : ControlIn) (now_ms : ℕ) (s : ControlState) (e : Bool)
    → let ready = (prepare c cfg inp now_ms).0 in SameBit c (track_failsafe ready ready.state s e)
tracked-SameBit c cfg inp now_ms s e =
    let ready = (prepare c cfg inp now_ms).0 in
    SameBit-trans (prepare-SameBit c cfg inp now_ms) (track_failsafe-SameBit ready ready.state s e)

step-Carried :
    (last : Option ℤ) (c : Control) (cfg : Cfg) (inp : ControlIn) (now_ms : ℕ)
    → Carried last c
    → Carried (report last (tick cfg inp now_ms)) (step c cfg inp now_ms).0
unfolding step
step-Carried last c cfg inp now_ms h =
    let ready = (prepare c cfg inp now_ms).0 in
    let expired = is_expired ready cfg in
    let s = ladder ready cfg expired in
    act-Carried (track_failsafe ready ready.state s expired) cfg inp s (prepare c cfg inp now_ms).1
      last now_ms (SameBit-Carried (tracked-SameBit c cfg inp now_ms s expired) h)

step_rises :
    (c : Control) (cfg : Cfg) (inp : ControlIn) (now_ms : ℕ)
    → (step c cfg inp now_ms).0.ch_out ≡ true
    → (c.ch_out ≡ true) ⊎ ((step c cfg inp now_ms).0.confirmed ≡ true)
unfolding step
step_rises c cfg inp now_ms h =
    let ready = (prepare c cfg inp now_ms).0 in
    let expired = is_expired ready cfg in
    let s = ladder ready cfg expired in
    let r =
      act_rises (track_failsafe ready ready.state s expired) cfg inp s (prepare c cfg inp now_ms).1
        h in
    ground (arith, r, tracked-SameBit c cfg inp now_ms s expired)

apply-SameBit :
    (c : Control) (cfg : Cfg) (origin : Origin) (cmd : Cmd) (value : ℤ)
    → SameBit c (apply c cfg origin cmd value).0
unfolding apply carry_out ha_enable heard forget_ha
apply-SameBit c cfg origin cmd value = ground arith

boost_start-SameBit :
    (c : Control) (cfg : Cfg) (setpoint_dc : ℤ) (minutes now_ms : ℕ)
    → SameBit c (boost_start c cfg setpoint_dc minutes now_ms).0
unfolding boost_start
boost_start-SameBit c cfg setpoint_dc minutes now_ms = ground arith

boost_cancel-SameBit : (c : Control) → SameBit c (boost_cancel c)
unfolding boost_cancel
boost_cancel-SameBit c = ground arith

react-Carried :
    (last : Option ℤ) (c : Control) (e : Event)
    → Carried last c
    → Carried (report last e) (react c e)
unfolding react report
react-Carried last c (tick cfg inp now_ms) h = step-Carried last c cfg inp now_ms h
react-Carried last c (command cfg origin cmd value) h =
    SameBit-Carried (apply-SameBit c cfg origin cmd value) h
react-Carried last c (start_boost cfg setpoint_dc minutes now_ms) h =
    SameBit-Carried (boost_start-SameBit c cfg setpoint_dc minutes now_ms) h
react-Carried last c cancel_boost h = SameBit-Carried (boost_cancel-SameBit c) h

run-Carried :
    (last : Option ℤ) (c : Control) (es : List Event)
    → Carried last c
    → Carried (reports last es) (run c es)
unfolding run reports
run-Carried last c [] h = h
run-Carried last c (e ∷ es) h =
    run-Carried (report last e) (react c e) es (react-Carried last c e h)

init-unconfirmed :
    (cfg : Cfg) (r : Option Restore) (now_ms : ℕ) → (init cfg r now_ms).confirmed ≡ false
unfolding init restore forget_ha
init-unconfirmed cfg r now_ms = ground arith

-- After a start and any events, in any order, a step that raises the CH bit is one at which the
-- last ID 1 reported by the bus, in those events and this step's input, is the held setpoint.
pub rise_needs_report :
    (boot cfg : Cfg) (r : Option Restore) (start_ms : ℕ) (es : List Event) (inp : ControlIn)
    (now_ms : ℕ)
    → let c = run (init boot r start_ms) es in
      let c' = (step c cfg inp now_ms).0 in
      c.ch_out ≡ false
      → c'.ch_out ≡ true
      → report (reports none es) (tick cfg inp now_ms) ≡ some c'.held_dc
rise_needs_report boot cfg r start_ms es inp now_ms down up =
    let c = run (init boot r start_ms) es in
    let carried = step-Carried (reports none es) c cfg inp now_ms (
      run-Carried none (init boot r start_ms) es
        (λ e. ground (arith, init-unconfirmed boot r start_ms))) in
    ground (arith, carried, step_rises c cfg inp now_ms)
