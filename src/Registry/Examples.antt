-- ===== src/Registry/Examples.antt =====
-- Lookups in the list of the firmware.
use opentherm_thermostat_fir.Prelude.{
  ◌∷◌, ℕ, ◌<◌, ◌≡◌, ◌≢◌, ◌↔◌, refl, arith, true, false, length, none, some,
}
use opentherm_thermostat_fir.Prelude.Int.{pos, negsuc}
use opentherm_thermostat_fir.Policy.Text.{bytes}
use opentherm_thermostat_fir.Frame.Fixed.{fixed}
use opentherm_thermostat_fir.Registry.Types.{Entity, EntityKind, CodecKind, row}
use opentherm_thermostat_fir.Registry.Lookup.{get_elem?}
use opentherm_thermostat_fir.Registry.Options.{split, split_options}
use opentherm_thermostat_fir.Registry.Table.{entities, poll_count, poll_at}
use opentherm_thermostat_fir.Registry.Facts.{IsSound, row_facts}
use opentherm_thermostat_fir.Registry.Polls.{IsRead, polls_cover}

abbrev room_source : Entity fixed
room_source =
    row (bytes "room_source") (bytes "Room temperature source") EntityKind.enum (negsuc 0)
      CodecKind.none false 0 false false 0 (negsuc 0) (negsuc 0) none none none none none
      (some (bytes "none|shield|mqtt")) none none none

abbrev ch_setpoint : Entity fixed
ch_setpoint =
    row (bytes "ch_setpoint") (bytes "CH setpoint") EntityKind.number (pos 1) CodecKind.f88 false 0
      false true 2 (negsuc 0) (negsuc 0) (some (194 ∷ 176 ∷ bytes "C")) (some (bytes "temperature"))
      none (some (bytes "mdi:thermometer")) none none (fixed.of_int (pos 10))
      (fixed.of_int (pos 90)) (fixed.of_int (pos 40))

few_options : length (split_options (bytes "none|shield|mqtt")) < 256
unfolding split
few_options = omega arith

first_row : get_elem? (entities fixed) 0 ≡ some ch_setpoint
unfolding get_elem?
first_row = refl

row_facts_example : IsSound ch_setpoint
row_facts_example = row_facts fixed 0 ch_setpoint first_row

polls_cover_example :
    ((k : ℕ) × (k < poll_count) × (poll_at k ≡ 48))
    ↔ (IsRead (entities fixed) 48 × ◌≢◌ {A = ℕ} 48 0)
polls_cover_example = polls_cover fixed 48
