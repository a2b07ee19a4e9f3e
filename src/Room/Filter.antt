-- ===== src/Room/Filter.antt =====
-- The filter and the clock of one source, over sequences of its calls.
use opentherm_thermostat_fir.Prelude.{
  ℕ, ◌+◌, ◌≤◌, ◌<◌, ◌≡◌, ◌↔◌, true, false, List, [], ◌∷◌, length, arith, refl, ap, min,
}
use opentherm_thermostat_fir.Prelude.Word.{sub32, add_sat, u32_max}
use opentherm_thermostat_fir.Room.Floats.{Floats}
use opentherm_thermostat_fir.Room.Sensor.{Sensor, stale, advance, tick, in_range, update, state}

-- The calls that an owner makes.
pub data Event (fl : Floats) : Type 0 where
  ticked : ℕ → Event fl
  offered : fl.Float → ℕ → Event fl

module _ (fl : Floats) where
  unfoldable pub react : Sensor fl → Event fl → Sensor fl
  react s (ticked now_ms) = tick fl s now_ms
  react s (offered celsius now_ms) = (update fl s celsius now_ms).0

  unfoldable pub run : Sensor fl → List (Event fl) → Sensor fl
  run s [] = s
  run s (e ∷ es) = run (react s e) es

  -- No measurement among the events is accepted.
  unfoldable pub NoneTaken : Sensor fl → List (Event fl) → Type 0
  NoneTaken s [] = Unit
  NoneTaken s (ticked now_ms ∷ es) = NoneTaken (tick fl s now_ms) es
  NoneTaken s (offered celsius now_ms ∷ es) =
      ((update fl s celsius now_ms).1 ≡ false) × NoneTaken (update fl s celsius now_ms).0 es

  -- Every event is a measurement in range.
  unfoldable pub AllInRange : List (Event fl) → Type 0
  AllInRange [] = Unit
  AllInRange (ticked now_ms ∷ es) = ⊥
  AllInRange (offered celsius now_ms ∷ es) = (in_range fl celsius ≡ true) × AllInRange es

  abbrev pub moment : Event fl → ℕ
  moment (ticked now_ms) = now_ms
  moment (offered celsius now_ms) = now_ms

  -- The time that the events take, summed without a wrap.
  unfoldable pub elapsed : ℕ → List (Event fl) → ℕ
  elapsed past [] = 0
  elapsed past (e ∷ es) = sub32 (moment e) past + elapsed (moment e) es

  refused_streak :
      (s : Sensor fl) (celsius : fl.Float) (now_ms : ℕ)
      → (update fl s celsius now_ms).1 ≡ false
      → in_range fl celsius ≡ true
      → (s.reject_streak < 3) × ((update fl s celsius now_ms).0.reject_streak ≡ s.reject_streak + 1)
  unfolding update advance
  refused_streak s celsius now_ms refused fine = ground arith

  -- A source that insists is heard: of measurements in range, one after the other, at most three
  -- are refused in a row, and fewer if some have been refused before.
  pub refusals_bounded :
      (s : Sensor fl) (es : List (Event fl))
      → s.reject_streak ≤ 3
      → AllInRange es
      → NoneTaken s es
      → s.reject_streak + length es ≤ 3
  unfolding AllInRange NoneTaken
  refusals_bounded s [] low fine refused = omega arith
  refusals_bounded s (ticked now_ms ∷ es) low fine refused = absurd fine
  refusals_bounded s (offered celsius now_ms ∷ es) low fine refused =
      let here = refused_streak s celsius now_ms refused.0 fine.0 in
      omega (
        arith,
        here,
        refusals_bounded (update fl s celsius now_ms).0 es (omega (arith, here)) fine.1 refused.1,
      )

  -- What an event that is not an accepted measurement does.
  abbrev pub Waited : Sensor fl → Sensor fl → ℕ → Type 0
  Waited s s' now_ms =
      (s'.overdue_ms ≡ add_sat s.overdue_ms (sub32 now_ms s.last_tick_ms))
      × (s'.last_tick_ms ≡ now_ms)
      × (s'.tick_seeded ≡ true)
      × (s'.have_value ≡ s.have_value)
      × (s'.stale_after_ms ≡ s.stale_after_ms)

  tick-Waited :
      (s : Sensor fl) (now_ms : ℕ) → s.tick_seeded ≡ true → Waited s (tick fl s now_ms) now_ms
  unfolding tick advance
  tick-Waited s now_ms seeded = ground arith

  update-Waited :
      (s : Sensor fl) (celsius : fl.Float) (now_ms : ℕ)
      → s.tick_seeded ≡ true
      → (update fl s celsius now_ms).1 ≡ false
      → Waited s (update fl s celsius now_ms).0 now_ms
  unfolding update advance
  update-Waited s celsius now_ms seeded refused = ground arith

  -- The overdue time of a source that has sent nothing acceptable.
  abbrev pub Aged : Sensor fl → Sensor fl → ℕ → Type 0
  Aged s s' waited =
      (s'.overdue_ms ≡ min (s.overdue_ms + waited) u32_max)
      × (s'.have_value ≡ s.have_value)
      × (s'.stale_after_ms ≡ s.stale_after_ms)

  Aged-step :
      (s s1 s2 : Sensor fl) (now_ms waited : ℕ)
      → s.overdue_ms ≤ u32_max
      → Waited s s1 now_ms
      → Aged s1 s2 waited
      → Aged s s2 (sub32 now_ms s.last_tick_ms + waited)
  unfolding add_sat
  Aged-step s s1 s2 now_ms waited small w a = ground arith

  Waited-small :
      (s s1 : Sensor fl) (now_ms : ℕ)
      → s.overdue_ms ≤ u32_max
      → Waited s s1 now_ms
      → s1.overdue_ms ≤ u32_max
  unfolding add_sat
  Waited-small s s1 now_ms small w = ground arith

  run-Aged :
      (s : Sensor fl) (es : List (Event fl))
      → s.tick_seeded ≡ true
      → s.overdue_ms ≤ u32_max
      → NoneTaken s es
      → Aged s (run s es) (elapsed s.last_tick_ms es)
  unfolding run react NoneTaken elapsed
  run-Aged s [] seeded small refused = (omega arith, refl, refl)
  run-Aged s (ticked now_ms ∷ es) seeded small refused =
      let s1 = tick fl s now_ms in
      let w = tick-Waited s now_ms seeded in
      let ih = run-Aged s1 es w.2 (Waited-small s s1 now_ms small w) refused in
      Aged-step s s1 (run s1 es) now_ms (elapsed now_ms es) small w
        (rw (ap (λ t. elapsed t es) w.1) at ih)
  run-Aged s (offered celsius now_ms ∷ es) seeded small refused =
      let s1 = (update fl s celsius now_ms).0 in
      let w = update-Waited s celsius now_ms seeded refused.0 in
      let ih = run-Aged s1 es w.2 (Waited-small s s1 now_ms small w) refused.1 in
      Aged-step s s1 (run s1 es) now_ms (elapsed now_ms es) small w
        (rw (ap (λ t. elapsed t es) w.1) at ih)

  -- The verdict STALE rests on the true time: over any events of which none is an accepted
  -- measurement, a source with a value is STALE exactly when the time that it was overdue before
  -- and the time since, summed without a wrap, reach its limit. The 49 days after which the clock
  -- wraps bring no source back.
  pub stale_iff_elapsed :
      (s : Sensor fl) (es : List (Event fl))
      → s.have_value ≡ true
      → s.tick_seeded ≡ true
      → s.overdue_ms ≤ u32_max
      → s.stale_after_ms ≤ u32_max
      → NoneTaken s es
      → (state fl (run s es) ≡ stale)
        ↔ (s.stale_after_ms ≤ s.overdue_ms + elapsed s.last_tick_ms es)
  unfolding state
  stale_iff_elapsed s es have seeded small limit refused =
      let a = run-Aged s es seeded small refused in ground (arith, a)
