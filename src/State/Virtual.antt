-- ===== src/State/Virtual.antt =====
-- components/ot_state/ot_state.c: the values of the synthetic entities, and the questions.
use opentherm_thermostat_fir.Prelude.{
  ℕ, Bool, true, false, not, ◌&&◌, ◌||◌, ltb, List, Option, none, some, if◌then◌else◌,
}
use opentherm_thermostat_fir.Prelude.Int.{pos, leb_ℤ, pos_part}
use opentherm_thermostat_fir.Frame.Numbers.{Numbers}
use opentherm_thermostat_fir.Frame.Codec
use opentherm_thermostat_fir.Registry.Types.{Entity, is_enum}
use opentherm_thermostat_fir.Registry.Lookup.{get_elem?, index_of, is_boolean, option_count}
use opentherm_thermostat_fir.State.Model.{State, Value, ok, store, data_ids}

-- `value != 0.0f`
unfoldable pub is_set : (fl : Numbers) → fl.Float → Bool
is_set fl value = not (fl.equal value (fl.of_int (pos 0)))

module _ {fl : Numbers} where
  unfoldable pub is_option_index : Entity fl → fl.Float → Bool
  is_option_index e value = not (
      fl.less value (fl.of_int (pos 0))
      || (not (fl.less value (fl.of_int (pos (option_count e))))
          || not (fl.equal value (fl.floorf value))))

  -- The value of the entity at position `i`.
  unfoldable pub set_entity : State fl → ℕ → Entity fl → fl.Float → ℕ → State fl × Bool
  set_entity s i e value now_ms =
      if leb_ℤ (pos 0) e.data_id || not (fl.isfinite value)
      then (s, false)
      else if is_boolean e
      then (
        store i ok (if is_set fl value then fl.of_int (pos 1) else fl.of_int (pos 0))
            (is_set fl value) now_ms s,
        true,
      )
      else if is_enum e.kind && not (is_option_index e value)
      then (s, false)
      else (store i ok value false now_ms s, true)

  unfoldable pub set_found : State fl → ℕ → Option (Entity fl) → fl.Float → ℕ → State fl × Bool
  set_found s i none value now_ms = (s, false)
  set_found s i (some e) value now_ms = set_entity s i e value now_ms

  -- The entity at the index that was found.
  unfoldable pub set_index : List (Entity fl) → State fl → Option ℕ → fl.Float → ℕ → State fl × Bool
  set_index table s none value now_ms = (s, false)
  set_index table s (some i) value now_ms = set_found s i (get_elem? table i) value now_ms

  unfoldable pub set_virtual :
      List (Entity fl) → State fl → Option (List ℕ) → fl.Float → ℕ → State fl × Bool
  set_virtual table s key value now_ms = set_index table s (index_of table key) value now_ms

  -- `none` for false, where `*out` is left as it was.
  unfoldable pub get : List (Entity fl) → State fl → Option (List ℕ) → Option (Value fl)
  get table s key = elim (index_of table key) [ none ↦ none | some i ↦ some (s.values i) ]

  -- The bounds of an entity that declares a range: those that were read, or those of the table.
  unfoldable pub entity_bounds : State fl → Entity fl → Option (fl.Float × fl.Float)
  entity_bounds s e =
      let raw = s.bounds_raw (pos_part e.bounds_from) in
      if fl.isnan e.min_value || fl.isnan e.max_value
      then none
      else if leb_ℤ (pos 0) e.bounds_from && s.bounds_seen (pos_part e.bounds_from)
      then some (fl.of_int (Codec.s8_lb raw), fl.of_int (Codec.s8_hb raw))
      else some (e.min_value, e.max_value)

  unfoldable pub bounds :
      List (Entity fl) → State fl → Option (List ℕ) → Option (fl.Float × fl.Float)
  bounds table s key = elim (index_of table key) [
    | none ↦ none
    | some i ↦ elim (get_elem? table i) [ none ↦ none | some e ↦ entity_bounds s e ]
  ]

  unfoldable pub is_unsupported : State fl → ℕ → Bool
  is_unsupported s data_id = ltb data_id data_ids && s.unsupported data_id
