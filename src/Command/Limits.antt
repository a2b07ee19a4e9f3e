-- ===== src/Command/Limits.antt =====
-- Where a write of an entity goes and which bounds are in force, told by ordinary arithmetic.
use opentherm_thermostat_fir.Prelude.{
  ℕ, ◌≡◌, ◌∙◌, refl, sym, arith, ◌||◌, ◌&&◌, ◌/◌, ◌%◌, if◌then◌else◌, List, Option, none, some,
}
use opentherm_thermostat_fir.Prelude.Int.{pos, leb_ℤ, pos_part}
use opentherm_thermostat_fir.Frame.Numbers.{Numbers}
use opentherm_thermostat_fir.Registry.Types.{Entity}
use opentherm_thermostat_fir.Registry.Lookup.{get_elem?, index_of, by_key}
use opentherm_thermostat_fir.State.Model.{State}
use opentherm_thermostat_fir.State.Virtual.{bounds, entity_bounds}
use opentherm_thermostat_fir.State.Reading.{signed, signed_byte}
use opentherm_thermostat_fir.Frame.Codec.{s8_hb, s8_lb}
use opentherm_thermostat_fir.Frame.CodecLaws.{low_byte}
use opentherm_thermostat_fir.Command.Encode.{write_id}

-- The identifier that a write of an entity goes to, as a byte: its own, or else its Data-ID.
abbrev pub write_target : {fl : Numbers} → Entity fl → ℕ
write_target e =
    (if leb_ℤ (pos 0) e.write_id then pos_part e.write_id else pos_part e.data_id) % 256

-- The bounds in force of an entity that declares a range: the two signed bytes that the boiler
-- gave, the upper bound in the high byte, once it has given them; before that, its own range.
abbrev pub in_force : {fl : Numbers} → State fl → Entity fl → Option (fl.Float × fl.Float)
in_force {fl} s e =
    let raw = s.bounds_raw (pos_part e.bounds_from) in
    if fl.isnan e.min_value || fl.isnan e.max_value
    then none
    else if leb_ℤ (pos 0) e.bounds_from && s.bounds_seen (pos_part e.bounds_from)
    then some (fl.of_int (signed 256 (raw % 256)), fl.of_int (signed 256 (raw / 256 % 256)))
    else some (e.min_value, e.max_value)

pub write_id-write_target : {fl : Numbers} (e : Entity fl) → write_id e ≡ write_target e
unfolding write_id
write_id-write_target e = ground arith

pub entity_bounds-in_force :
    {fl : Numbers} (s : State fl) (e : Entity fl) → entity_bounds s e ≡ in_force s e
unfolding entity_bounds s8_hb s8_lb
entity_bounds-in_force s e =
    let raw = s.bounds_raw (pos_part e.bounds_from) in
    ground (
      arith,
      low_byte raw,
      signed_byte (raw % 256) (omega arith),
      signed_byte (raw / 256 % 256) (omega arith),
    )

pub bounds_at :
    {fl : Numbers} (table : List (Entity fl)) (s : State fl) (e : Entity fl) (i : Option ℕ)
    (key : List ℕ)
    → index_of table (some key) ≡ i
    → by_key table (some key) ≡ some e
    → bounds table s (some key) ≡ entity_bounds s e
unfolding by_key bounds
bounds_at table s e none key at g =
    let missing : by_key table (some key) ≡ none = rw (at, by_key) refl in cc
bounds_at table s e (some i) key at g =
    let here : get_elem? table i ≡ some e =
      let found : by_key table (some key) ≡ get_elem? table i = rw (at, by_key) refl in
      sym found ∙ g in
    rw (at, here, bounds) refl
