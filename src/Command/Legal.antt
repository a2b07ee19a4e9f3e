-- ===== src/Command/Legal.antt =====
-- What a write must be to leave ot_command_check() as a frame or as a command.
use opentherm_thermostat_fir.Prelude.{
  ℕ, ◌≡◌, ◌≢◌, ◌∙◌, refl, sym, ap, arith, true, false, List, Option, none, some,
}
use opentherm_thermostat_fir.Prelude.Int.{ℤ, pos, leb_ℤ}
use opentherm_thermostat_fir.Frame.Numbers.{Numbers}
use opentherm_thermostat_fir.Registry.Types.{Entity, CodecKind}
use opentherm_thermostat_fir.Registry.Lookup.{index_of, by_key}
use opentherm_thermostat_fir.State.Model.{State}
use opentherm_thermostat_fir.State.Virtual.{bounds, is_unsupported}
use opentherm_thermostat_fir.Control.Types.{Cfg, Origin, Cmd}
use opentherm_thermostat_fir.Command.Limits.{
  write_target, in_force, write_id-write_target, entity_bounds-in_force, bounds_at,
}
use opentherm_thermostat_fir.Command.Encode.{
  encoded, encode, encode_found, encode_entity, encode_within, encode_raw, write_id,
}
use opentherm_thermostat_fir.Command.Check.{
  frame, cmd_of, to_control_value, from_control, as_frame, as_control, after_encode, check_command,
  check_entity, check_found, check,
}

-- The value lies within bounds, and they are known.
abbrev pub Within : (fl : Numbers) → Option (fl.Float × fl.Float) → fl.Float → Type 0
Within fl none value = ⊥
Within fl (some (lo, hi)) value = (fl.less value lo ≡ false) × (fl.less hi value ≡ false)

-- What a frame to `id` may be sent for.
pub record MaySend {fl : Numbers} (table : List (Entity fl)) (s : State fl) (key : List ℕ)
    (value : fl.Float) (e : Entity fl) (id : ℕ) : Type 0 where
  pub writable : e.writable ≡ true
  pub on_wire : leb_ℤ (pos 0) e.data_id ≡ true
  pub own_id : id ≡ write_target e
  pub supported : is_unsupported s id ≡ false
  pub finite : fl.isfinite value ≡ true
  pub within : Within fl (in_force s e) value

raw_id :
    (fl : Numbers) (codec : CodecKind) (value : fl.Float) (id id' raw : ℕ)
    → encode_raw fl codec value id ≡ encoded id' raw
    → id' ≡ id
unfolding encode_raw
raw_id fl codec value id id' raw e = ground (arith, e)

limits_kept :
    (fl : Numbers) (limits : Option (fl.Float × fl.Float)) (codec : CodecKind) (value : fl.Float)
    (id id' raw : ℕ)
    → encode_within fl limits codec value id ≡ encoded id' raw
    → Within fl limits value × (id' ≡ id)
unfolding encode_within
limits_kept fl none codec value id id' raw e = ground (arith, e)
limits_kept fl (some (lo, hi)) codec value id id' raw e =
    ground (arith, e, raw_id fl codec value id id' raw)

control_only :
    (cfg : Cfg) (origin : Origin) (cmd : Cmd) (v : ℤ) (id raw : ℕ)
    → as_control cfg origin cmd v ≢ frame id raw
unfolding as_control from_control
control_only cfg origin cmd v id raw e = ground (arith, e)

module _ {fl : Numbers} where
  pub entity-MaySend :
      (table : List (Entity fl)) (s : State fl) (key : List ℕ) (e : Entity fl) (value : fl.Float)
      (id raw : ℕ)
      → by_key table (some key) ≡ some e
      → encode_entity table s key e value ≡ encoded id raw
      → MaySend table s key value e id
  unfolding encode_entity
  entity-MaySend table s key e value id raw g h =
      let sent : encode_within fl (bounds table s (some key)) e.codec value (write_id e)
          ≡ encoded id raw =
        ground (arith, h) in
      let inner =
        limits_kept fl (bounds table s (some key)) e.codec value (write_id e) id raw sent in
      let limits : bounds table s (some key) ≡ in_force s e =
        bounds_at table s e (index_of table (some key)) key refl g ∙ entity_bounds-in_force s e in
      record {
        writable = ground (arith, h);
        on_wire = ground (arith, h);
        own_id = inner.1 ∙ write_id-write_target e;
        supported = ap (is_unsupported s) inner.1 ∙ ground (arith, h);
        finite = ground (arith, h);
        within = rw limits at inner.0;
      }

  pub encode_of :
      (table : List (Entity fl)) (s : State fl) (key : List ℕ) (e : Entity fl) (value : fl.Float)
      → by_key table (some key) ≡ some e
      → encode table s key value ≡ encode_entity table s key e value
  unfolding encode encode_found
  encode_of table s key e value g = rw (g, encode) refl

  command_is_no_frame :
      (table : List (Entity fl)) (s : State fl) (key : List ℕ) (origin : Origin) (cfg : Cfg)
      (cmd : Cmd) (v : Option ℤ) (id raw : ℕ)
      → check_command table s key origin cfg cmd v ≢ frame id raw
  unfolding check_command after_encode
  command_is_no_frame table s key origin cfg cmd none id raw e = ground (arith, e)
  command_is_no_frame table s key origin cfg cmd (some v) id raw e =
      ground (arith, e, control_only cfg origin cmd v id raw)

  frame_of :
      (table : List (Entity fl)) (s : State fl) (key : List ℕ) (e : Entity fl) (value : fl.Float)
      (origin : Origin) (cfg : Cfg) (id raw : ℕ)
      → check_entity table s key e value origin cfg ≡ frame id raw
      → (origin ≡ Origin.web) × (e.control ≡ 0) × (encode table s key value ≡ encoded id raw)
  unfolding check_entity as_frame
  frame_of table s key e value origin cfg id raw h = ground (
    arith,
    h,
    command_is_no_frame table s key origin cfg (cmd_of e.control)
        (to_control_value fl (cmd_of e.control) value) id raw,
  )

  found_lawful :
      (table : List (Entity fl)) (s : State fl) (key : List ℕ) (found : Option (Entity fl))
      (value : fl.Float) (origin : Origin) (cfg : Cfg) (id raw : ℕ)
      → by_key table (some key) ≡ found
      → check_found table s key found value origin cfg ≡ frame id raw
      → (origin ≡ Origin.web)
        × ((e : Entity fl) × (by_key table (some key) ≡ some e)
            × (e.control ≡ 0)
            × MaySend table s key value e id)
  unfolding check_found
  found_lawful table s key none value origin cfg id raw g h = ground (arith, h)
  found_lawful table s key (some e) value origin cfg id raw g h =
      let (web, no_input, sent) = frame_of table s key e value origin cfg id raw h in
      (
        web,
        (
          e,
          g,
          no_input,
          entity-MaySend table s key e value id raw g
              (sym (encode_of table s key e value g) ∙ sent),
        ),
      )

  -- Only a lawful frame leaves: what ot_command_check() lets through as a frame comes from the web,
  -- for an entity that is writable, has a Data-ID and is no input of the executor; it
  -- carries that entity's own write identifier, or else its Data-ID, which the boiler has not
  -- refused twice; and the value is a number within the bounds in force, the boiler's own where it
  -- has named them.
  pub only_lawful_sent :
      (table : List (Entity fl)) (s : State fl) (key : List ℕ) (value : fl.Float) (origin : Origin)
      (cfg : Cfg) (id raw : ℕ)
      → check table s key value origin cfg ≡ frame id raw
      → (origin ≡ Origin.web)
        × ((e : Entity fl) × (by_key table (some key) ≡ some e)
            × (e.control ≡ 0)
            × MaySend table s key value e id)
  unfolding check
  only_lawful_sent table s key value origin cfg id raw h =
      found_lawful table s key (by_key table (some key)) value origin cfg id raw refl h
