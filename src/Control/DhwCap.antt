-- ===== src/Control/DhwCap.antt =====
-- The ID 56 writes of one target over any number of steps: the cap and the pace.
use opentherm_thermostat_fir.Prelude.{
  ℕ, ◌+◌, ◌≤◌, ◌<◌, ◌≡◌, ◌∙◌, true, false, ◌-◌, ◌&&◌, arith, List, [], ◌∷◌, All, if◌then◌else◌, sym,
  ap,
}
use opentherm_thermostat_fir.Prelude.Word.{sub32, add_sat}
use opentherm_thermostat_fir.Prelude.Int.{ℤ, eqb_ℤ, eqb_ℤ-iff}
use opentherm_thermostat_fir.Control.Types.{Cfg, Control, ControlIn}
use opentherm_thermostat_fir.Control.Step.{step}
use opentherm_thermostat_fir.Control.Ticks.{Tick, ticks, step-last}
use opentherm_thermostat_fir.Control.Dhw.{dhw_retarget, dhw_take_reopen, dhw_reconcile, dhw_due}
use opentherm_thermostat_fir.Control.DhwPace.{SameDhw, Settled, Disagrees, step-dhw, due-Settled}

-- One step that keeps the target, with a readback that has not agreed with it.
step-Settled :
    (c : Control) (cfg : Cfg) (inp : ControlIn) (now_ms : ℕ)
    → Settled c cfg
    → Disagrees inp cfg
    → let (c', out) = step c cfg inp now_ms in
      let age = add_sat c.dhw_age_ms (sub32 now_ms c.last_step_ms) in
      Settled c' cfg
      × (c'.dhw_tries ≡ c.dhw_tries + (if out.send_dhw_setpoint then 1 else 0))
      × (out.send_dhw_setpoint ≡ true
          → (cfg.dhw_setpoint_set ≡ true) × (c.dhw_tries < 3) × (60000 ≤ age) × (c'.dhw_age_ms ≡ 0))
      × (out.send_dhw_setpoint ≡ false → c'.dhw_age_ms ≡ age)
step-Settled c cfg inp now_ms s n =
    let (t, same, age, after, age', sent) = step-dhw c cfg inp now_ms in
    let d = due-Settled t cfg inp (ground (arith, same, s)) n in
    ground (arith, d, same, age, after, age', sent)

unfoldable pub sends : Control → List Tick → ℕ
sends c [] = 0
sends c ((cfg, inp, now_ms) ∷ l) =
    let (c', out) = step c cfg inp now_ms in (if out.send_dhw_setpoint then 1 else 0) + sends c' l

unfoldable pub passed : ℕ → List Tick → ℕ
passed last [] = 0
passed last ((cfg, inp, now_ms) ∷ l) = sub32 now_ms last + passed now_ms l

-- The stored DHW setpoint is `dc` and the boiler has not read it back.
abbrev pub Pursues : ℤ → Tick → Type 0
Pursues dc (cfg, inp, now_ms) = (cfg.dhw_setpoint_dc ≡ dc) × Disagrees inp cfg

-- The writes that the setpoint `dc` may still cost: the rest of its three tries, or all three where
-- it is not the target yet, and three more where a command for it waits to reopen it.
abbrev pub writes_left : Control → ℤ → ℕ
writes_left c dc =
    (if eqb_ℤ c.dhw_target_dc dc then 3 - c.dhw_tries else 3)
    + (if c.dhw_reopen && eqb_ℤ c.dhw_reopen_dc dc then 3 else 0)

due-writes_left :
    (c : Control) (cfg : Cfg) (inp : ControlIn) (dc : ℤ)
    → cfg.dhw_setpoint_dc ≡ dc
    → Disagrees inp cfg
    → let (c', due) = dhw_due c cfg inp in
      (if due then 1 else 0) + writes_left c' dc ≤ writes_left c dc
unfolding dhw_due dhw_retarget dhw_take_reopen dhw_reconcile
due-writes_left c cfg inp dc e n = ground (
  arith,
  e,
  n,
  eqb_ℤ-iff cfg.dhw_setpoint_dc c.dhw_target_dc,
  eqb_ℤ-iff inp.dhw_readback_dc c.dhw_target_dc,
  eqb_ℤ-iff inp.dhw_readback_dc cfg.dhw_setpoint_dc,
  eqb_ℤ-iff c.dhw_reopen_dc c.dhw_target_dc,
  eqb_ℤ-iff c.dhw_reopen_dc dc,
  eqb_ℤ-iff c.dhw_target_dc dc,
  eqb_ℤ-iff dc dc,
)

writes_left-same : (c d : Control) (dc : ℤ) → SameDhw c d → writes_left d dc ≡ writes_left c dc
writes_left-same c d dc p = ground (arith, p)

-- One DHW setpoint costs the boiler a limited number of unanswered writes: over any number of
-- steps with the same stored setpoint `dc`, from any state, and a readback that never agrees with
-- it or never comes, at most the tries that are left of three are written, or three where `dc` is
-- not the target yet; where a command of the same value waits to reopen it, at most three more,
-- once and not at every step.
pub dhw_writes_capped :
    (c : Control) (dc : ℤ) (l : List Tick) → All (Pursues dc) l → sends c l ≤ writes_left c dc
unfolding sends
dhw_writes_capped c dc [] p = omega arith
dhw_writes_capped c dc ((cfg, inp, now_ms) ∷ l) p =
    let (c', out) = step c cfg inp now_ms in
    let (t, same, age, after, age', sent) = step-dhw c cfg inp now_ms in
    let (t', due) = dhw_due t cfg inp in
    let once = due-writes_left t cfg inp dc p.0.0 p.0.1 in
    let rest = dhw_writes_capped c' dc l p.1 in
    ground (arith, once, rest, sent, writes_left-same c t dc same, writes_left-same t' c' dc after)

add_sat-le : (a b : ℕ) → add_sat a b ≤ a + b
unfolding add_sat
add_sat-le a b = ground arith

ticks-age :
    (c : Control) (dc : ℤ) (l : List Tick)
    → c.dhw_target_dc ≡ dc
    → c.dhw_reopen ≡ false
    → All (Pursues dc) l
    → sends c l ≡ 0
    → let d = ticks c l in
      (d.dhw_target_dc ≡ dc)
      × (d.dhw_reopen ≡ false)
      × (d.dhw_age_ms ≤ c.dhw_age_ms + passed c.last_step_ms l)
unfolding sends ticks passed
ticks-age c dc [] t r p n = (t, r, omega arith)
ticks-age c dc ((cfg, inp, now_ms) ∷ l) t r p n =
    let (c', out) = step c cfg inp now_ms in
    let s = step-Settled c cfg inp now_ms (t ∙ sym p.0.0, r) p.0.1 in
    let quiet : out.send_dhw_setpoint ≡ false = ground arith in
    let ih = ticks-age c' dc l (s.0.0 ∙ p.0.0) s.0.1 p.1 (omega arith) in
    (
      ih.0,
      ih.1,
      omega (
        arith,
        ih.2,
        s.3 quiet,
        add_sat-le c.dhw_age_ms (sub32 now_ms c.last_step_ms),
        ap (λ m. passed m l) (step-last c cfg inp now_ms),
      ),
    )

-- Two writes of one target are at least 60 s apart: after a write, which leaves the age 0, and any
-- steps that write nothing, the next write comes when 60000 ms have been counted.
pub dhw_writes_spaced :
    (c : Control) (dc : ℤ) (l : List Tick) (cfg : Cfg) (inp : ControlIn) (now_ms : ℕ)
    → c.dhw_target_dc ≡ dc
    → c.dhw_reopen ≡ false
    → c.dhw_age_ms ≡ 0
    → All (Pursues dc) l
    → Pursues dc (cfg, inp, now_ms)
    → sends c l ≡ 0
    → (step (ticks c l) cfg inp now_ms).1.send_dhw_setpoint ≡ true
    → 60000 ≤ passed c.last_step_ms l + sub32 now_ms (ticks c l).last_step_ms
dhw_writes_spaced c dc l cfg inp now_ms t r zero_age p q none_sent due =
    let (t', r', age) = ticks-age c dc l t r p none_sent in
    let s = step-Settled (ticks c l) cfg inp now_ms (t' ∙ sym q.0, r') q.1 in
    omega (
      arith,
      age,
      (s.2 due).2,
      add_sat-le (ticks c l).dhw_age_ms (sub32 now_ms (ticks c l).last_step_ms),
    )
