-- ===== src/BusSched/Timing.antt =====
-- The pace of the bus: ot_bus_sched_step() against the OpenTherm timing rules.
use opentherm_thermostat_fir.Prelude.{
  ℕ, ◌+◌, ◌≤◌, ◌<◌, ◌≡◌, Bool, true, false, arith, refl, ◌↔◌, ◌⊎◌, inr, ltb,
}
use opentherm_thermostat_fir.Prelude.Word.{sub32, u32, u32_mod}
use opentherm_thermostat_fir.BusSched.{Sched, Verb, wait, talk, step, slot}

-- The moments of the last conversation and of this call lie in order, less than 24 days apart.
pub record InOrder (s : Sched) (now_ms : ℕ) : Type 0 where
  pub word : now_ms < u32_mod
  pub start_word : s.last_start_ms < u32_mod
  pub end_word : s.last_end_ms < u32_mod
  pub gap : sub32 now_ms s.last_end_ms ≤ sub32 now_ms s.last_start_ms
  pub recent : sub32 now_ms s.last_start_ms < 2147483648

slot-talk : (s : Sched) (late : Bool) → ((slot s late).verb ≡ talk) × ((slot s late).overdue ≡ late)
unfolding slot
slot-talk s late = ground arith

-- The master speaks at once when it has never spoken, and otherwise exactly when at least 950 ms
-- have passed since the start of the last conversation and at least 100 ms since its end.
pub talk_iff :
    (s : Sched) (now_ms : ℕ)
    → ((step s now_ms).verb ≡ talk) ↔ (
        (s.started ≡ false)
        ⊎ ((950 ≤ sub32 now_ms s.last_start_ms) × (100 ≤ sub32 now_ms s.last_end_ms)))
unfolding step
talk_iff s now_ms = (
  (λ h. ground (arith, h)),
  (λ h.
      ground (arith, h, slot-talk s false, slot-talk s (ltb 1150 (sub32 now_ms s.last_start_ms)))),
)

-- What a wait says, in the milliseconds since the last conversation.
wait_delay :
    (s : Sched) (now_ms e : ℕ)
    → (step s now_ms).verb ≡ wait
    → let d = (step s now_ms).delay_ms in
      (s.started ≡ true)
      × (1 ≤ d)
      × (d ≤ 950)
      × (950 ≤ sub32 now_ms s.last_start_ms + d)
      × (100 ≤ sub32 now_ms s.last_end_ms + d)
      × (e < d → (sub32 now_ms s.last_start_ms + e < 950) ⊎ (sub32 now_ms s.last_end_ms + e < 100))
unfolding step
wait_delay s now_ms e w =
    ground (arith, w, slot-talk s false, slot-talk s (ltb 1150 (sub32 now_ms s.last_start_ms)))

-- Time goes on: the difference to a past moment grows with the clock.
sub32-later :
    (now_ms past e : ℕ)
    → now_ms < u32_mod
    → past < u32_mod
    → sub32 now_ms past + e < u32_mod
    → sub32 (u32 (now_ms + e)) past ≡ sub32 now_ms past + e
sub32-later now_ms past e hn hp small = omega arith

not_talk : (v : Verb) → ¬ (v ≡ talk) → v ≡ wait
not_talk wait h = refl
not_talk talk h = absurd (h refl)

still_waits :
    (s : Sched) (now_ms e : ℕ)
    → InOrder s now_ms
    → (step s now_ms).verb ≡ wait
    → e < (step s now_ms).delay_ms
    → ¬ (
        (s.started ≡ false)
        ⊎ ((950 ≤ sub32 (u32 (now_ms + e)) s.last_start_ms)
            × (100 ≤ sub32 (u32 (now_ms + e)) s.last_end_ms)))
still_waits s now_ms e o w early talks =
    let f = wait_delay s now_ms e w in
    ground (
      arith,
      f,
      talks,
      sub32-later now_ms s.last_start_ms e o.word o.start_word (omega (arith, f)),
      sub32-later now_ms s.last_end_ms e o.word o.end_word (omega (arith, f)),
    )

-- The delay of a wait is exact, also across the wrap of the clock: it is at least 1 and at most
-- 950 ms, after it the master speaks, and at every moment before it the master still waits.
pub delay_exact :
    (s : Sched) (now_ms e : ℕ)
    → InOrder s now_ms
    → (step s now_ms).verb ≡ wait
    → let d = (step s now_ms).delay_ms in
      (1 ≤ d)
      × (d ≤ 950)
      × ((step s (u32 (now_ms + d))).verb ≡ talk)
      × (e < d → (step s (u32 (now_ms + e))).verb ≡ wait)
delay_exact s now_ms e o w =
    let d = (step s now_ms).delay_ms in
    let f = wait_delay s now_ms e w in
    let later_start = sub32-later now_ms s.last_start_ms d o.word o.start_word (omega (arith, f)) in
    let later_end = sub32-later now_ms s.last_end_ms d o.word o.end_word (omega (arith, f)) in
    (
      f.1,
      f.2,
      (talk_iff s (u32 (now_ms + d))).1
          (inr (omega (arith, f, later_start), omega (arith, f, later_end))),
      λ early.
          not_talk _
            (λ talks. still_waits s now_ms e o w early ((talk_iff s (u32 (now_ms + e))).0 talks)),
    )

-- The 1150 ms deadline is kept: after an exchange that took at most 1050 ms the master speaks 1150
-- ms after its start at the latest, and that conversation is not marked overdue.
pub deadline_kept :
    (s : Sched) (now_ms : ℕ)
    → s.started ≡ true
    → now_ms < u32_mod
    → s.last_start_ms < u32_mod
    → s.last_end_ms < u32_mod
    → sub32 s.last_end_ms s.last_start_ms ≤ 1050
    → sub32 now_ms s.last_start_ms ≡ 1150
    → ((step s now_ms).verb ≡ talk) × ((step s now_ms).overdue ≡ false)
unfolding step
deadline_kept s now_ms begun hn hs he short late =
    ground (arith, slot-talk s (ltb 1150 (sub32 now_ms s.last_start_ms)))
