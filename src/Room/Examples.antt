-- ===== src/Room/Examples.antt =====
-- Runs of the room sources, with whole degrees for the floating-point numbers.
use opentherm_thermostat_fir.Prelude.{
  ◌+◌, ◌≤◌, ◌≡◌, ◌↔◌, inl, inr, Bool, true, false, Option, none, some, List, [], ◌∷◌, arith, refl,
}
use opentherm_thermostat_fir.Prelude.Int.{ℤ, pos, negsuc, ◌-ℤ◌, ◌*ℤ◌, ltb_ℤ}
use opentherm_thermostat_fir.Room.Floats.{Floats}
use opentherm_thermostat_fir.Room.Sensor.{Sensor, stale, state, advance, update, in_range, is_jump}
use opentherm_thermostat_fir.Room.Select.{Slot, ambient, room, select_steer}
use opentherm_thermostat_fir.Room.Filter.{
  Event, ticked, offered, run, elapsed, NoneTaken, stale_iff_elapsed,
}
use opentherm_thermostat_fir.Room.Steer.{SameRooms, ambient_never_steers}

-- A number, or none for one that is not finite.
abbrev finite_of : Option ℤ → Bool
finite_of none = false
finite_of (some z) = true

abbrev less_of : Option ℤ → Option ℤ → Bool
less_of (some a) (some b) = ltb_ℤ a b
less_of none b = false
less_of (some a) none = false

abbrev combined : (ℤ → ℤ → ℤ) → Option ℤ → Option ℤ → Option ℤ
combined f (some a) (some b) = some (f a b)
combined f none b = none
combined f (some a) none = none

abbrev magnitude : Option ℤ → Option ℤ
magnitude none = none
magnitude (some (pos n)) = some (pos n)
magnitude (some (negsuc n)) = some (pos (n + 1))

abbrev rounded : Option ℤ → ℤ
rounded none = pos 0
rounded (some z) = z

abbrev degrees : Floats
degrees = record {
  Float = Option ℤ;
  nan = none;
  min_c = some (negsuc 39);
  max_c = some (pos 60);
  max_jump_c = some (pos 5);
  ten = some (pos 10);
  isfinite = finite_of;
  less = less_of;
  minus = combined (λ a b. a -ℤ b);
  times = combined (λ a b. a *ℤ b);
  fabsf = magnitude;
  lroundf = rounded;
}

-- A source at 20 degrees, fresh for a minute.
abbrev source : Sensor degrees
source = record {
  stale_after_ms = 60000;
  value = some (pos 20);
  have_value = true;
  overdue_ms = 0;
  last_tick_ms = 1000;
  tick_seeded = true;
  reject_streak = 0;
}

abbrev jumps : List (Event degrees)
jumps = offered (some (pos 40)) 2000 ∷ offered (some (pos 41)) 3000 ∷ []

-- A jump, and then ticks across the wrap of the clock.
abbrev silent : List (Event degrees)
silent = offered (some (pos 40)) 2000 ∷ ticked 4294967000 ∷ ticked 5000 ∷ []

stale_iff_elapsed_example :
    (state degrees (run degrees source silent) ≡ stale)
    ↔ (source.stale_after_ms ≤ source.overdue_ms + elapsed degrees source.last_tick_ms silent)
unfolding NoneTaken in_range update advance is_jump ◌-ℤ◌
stale_iff_elapsed_example =
    stale_iff_elapsed degrees source silent refl refl (omega arith) (omega arith) (refl, tt)

abbrev boiler_room : Slot degrees
boiler_room = record {
  sensor = source;
  cfg = record { role = ambient; ha_forwarded = false; stale_after_ms = 60000 };
}

abbrev living_room : Slot degrees
living_room = record {
  sensor = source;
  cfg = record { role = room; ha_forwarded = true; stale_after_ms = 60000 };
}

abbrev house : List (Slot degrees)
house = boiler_room ∷ living_room ∷ []

abbrev warmer : Slot degrees
warmer = record boiler_room { sensor = record source { value = some (pos 55) } }

ambient_never_steers_example :
    select_steer degrees house ≡ select_steer degrees (warmer ∷ living_room ∷ [])
unfolding SameRooms
ambient_never_steers_example =
    ambient_never_steers degrees house (warmer ∷ living_room ∷ [])
      (inr (refl, refl), (inl refl, tt))
