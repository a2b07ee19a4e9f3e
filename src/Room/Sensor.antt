-- ===== src/Room/Sensor.antt =====
-- components/ot_sensor/ot_sensor.c.
use opentherm_thermostat_fir.Prelude.{
  ℕ, ◌+◌, Bool, true, false, not, ◌&&◌, ◌||◌, ltb, leb, if◌then◌else◌,
}
use opentherm_thermostat_fir.Prelude.Word.{sub32, add_sat}
use opentherm_thermostat_fir.Room.Floats.{Floats}

abbrev pub max_jump_rejects : ℕ
max_jump_rejects = 3

-- `ot_sensor_state_t`.
pub data Freshness : Type 0 where
  never fresh stale : Freshness

-- `ot_sensor_t`.
pub record Sensor (fl : Floats) : Type 0 where
  pub stale_after_ms : ℕ
  pub value : fl.Float
  pub have_value : Bool
  pub overdue_ms : ℕ
  pub last_tick_ms : ℕ
  pub tick_seeded : Bool
  pub reject_streak : ℕ

module _ (fl : Floats) where
  unfoldable pub advance : Sensor fl → ℕ → Sensor fl
  advance s now_ms =
      if not s.tick_seeded
      then record s { tick_seeded = true; last_tick_ms = now_ms }
      else record s {
        overdue_ms = add_sat s.overdue_ms (sub32 now_ms s.last_tick_ms);
        last_tick_ms = now_ms;
      }

  unfoldable pub init : ℕ → Sensor fl
  init stale_after = record {
    stale_after_ms = stale_after;
    value = fl.nan;
    have_value = false;
    overdue_ms = 0;
    last_tick_ms = 0;
    tick_seeded = false;
    reject_streak = 0;
  }

  unfoldable pub tick : Sensor fl → ℕ → Sensor fl
  tick s now_ms = advance s now_ms

  -- The range check: not finite, or outside the two bounds.
  unfoldable pub in_range : fl.Float → Bool
  in_range celsius =
      fl.isfinite celsius && not (fl.less celsius fl.min_c || fl.less fl.max_c celsius)

  unfoldable pub is_jump : Sensor fl → fl.Float → Bool
  is_jump s celsius = s.have_value && fl.less fl.max_jump_c (fl.fabsf (fl.minus celsius s.value))

  -- The four assignments of an accepted value.
  unfoldable pub accept : Sensor fl → fl.Float → Sensor fl
  accept s celsius = record s {
    value = celsius;
    have_value = true;
    overdue_ms = 0;
    reject_streak = 0;
  }

  unfoldable pub update : Sensor fl → fl.Float → ℕ → Sensor fl × Bool
  update s celsius now_ms =
      let moved = advance s now_ms in
      if not (in_range celsius)
      then (moved, false)
      else if is_jump moved celsius && ltb moved.reject_streak max_jump_rejects
      then (record moved { reject_streak = moved.reject_streak + 1 }, false)
      else (accept moved celsius, true)

  unfoldable pub state : Sensor fl → Freshness
  state s =
      if not s.have_value then never else if leb s.stale_after_ms s.overdue_ms then stale else fresh

  unfoldable pub reading : Sensor fl → fl.Float
  reading s = if s.have_value then s.value else fl.nan
