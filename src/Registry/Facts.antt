-- ===== src/Registry/Facts.antt =====
-- What the list of the entities keeps to.
use opentherm_thermostat_fir.Prelude.{
  ℕ, zero, suc, ◌+◌, ◌<◌, ◌≡◌, ◌≢◌, ◌↔◌, refl, arith, Bool, true, false, not, ◌&&◌, ◌||◌, ltb, ◌==◌,
  differ, List, [], ◌∷◌, Option, none, some,
}
use opentherm_thermostat_fir.Prelude.Int.{pos, leb_ℤ, pos_part}
use opentherm_thermostat_fir.Policy.Text.{same}
use opentherm_thermostat_fir.Policy.Access.{same_iff}
use opentherm_thermostat_fir.Frame.Numbers.{Numbers}
use opentherm_thermostat_fir.Registry.Types.{Entity, EntityKind, CodecKind, is_enum}
use opentherm_thermostat_fir.Registry.Lookup.{get_elem?, find_key, index_of}
use opentherm_thermostat_fir.Registry.Table.{entities}

abbrev is_none_codec : CodecKind → Bool
is_none_codec CodecKind.none = true
is_none_codec _ = false

abbrev has_options : Option (List ℕ) → Bool
has_options none = false
has_options (some text) = true

module _ {fl : Numbers} where
  unfoldable no_key : List ℕ → List (Entity fl) → Bool
  no_key key [] = true
  no_key key (e ∷ es) = not (same e.key key) && no_key key es

  -- No two rows have one key.
  unfoldable unique_keys : List (Entity fl) → Bool
  unique_keys [] = true
  unique_keys (e ∷ es) = no_key e.key es && unique_keys es

  no_key-at :
      (key : List ℕ) (es : List (Entity fl)) (i : ℕ) (e : Entity fl)
      → no_key key es ≡ true
      → get_elem? es i ≡ some e
      → key ≢ e.key
  unfolding no_key get_elem?
  no_key-at key [] i e n g = ground (arith, g)
  no_key-at key (x ∷ es) zero e n g = ground (arith, n, g, same_iff e.key key, same_iff x.key key)
  no_key-at key (x ∷ es) (suc i) e n g = no_key-at key es i e (ground (arith, n)) g

  find_own_key :
      (es : List (Entity fl)) (i j : ℕ) (e : Entity fl)
      → unique_keys es ≡ true
      → get_elem? es i ≡ some e
      → find_key es e.key j ≡ some (j + i)
  unfolding unique_keys get_elem? find_key
  find_own_key [] i j e u g = ground (arith, g)
  find_own_key (x ∷ es) zero j e u g = ground (arith, g, same_iff x.key e.key)
  find_own_key (x ∷ es) (suc i) j e u g =
      let rest = find_own_key es i (suc j) e (ground (arith, u)) g in
      let other = no_key-at x.key es i e (ground (arith, u)) g in
      ground (arith, rest, other, same_iff x.key e.key)

  -- What the arrays of ot_state.c and ot_observe.c, and the renderers, rely on in a row.
  pub record IsSound (e : Entity fl) : Type 0 where
    pub id_in_range : pos_part e.data_id < 128
    pub bounds_in_range : pos_part e.bounds_from < 128
    pub bit_in_byte : e.flag_bit < 8
    pub synthetic_has_no_codec : (leb_ℤ (pos 0) e.data_id ≡ false) ↔ (e.codec ≡ CodecKind.none)
    pub wire_only_is_read : e.readable ≡ true → leb_ℤ (pos 0) e.data_id ≡ true
    pub enum_has_options : (e.kind ≡ EntityKind.enum) ↔ (e.options ≢ none)
    pub command_is_writable : e.control ≢ 0 → e.writable ≡ true

  unfoldable row_ok : Entity fl → Bool
  row_ok e =
      let wire = leb_ℤ (pos 0) e.data_id in
      (ltb (pos_part e.data_id) 128 && (ltb (pos_part e.bounds_from) 128 && ltb e.flag_bit 8))
      && (differ wire (is_none_codec e.codec)
          && ((not e.readable || wire)
              && (not (differ (is_enum e.kind) (has_options e.options))
                  && (e.control == 0 || e.writable))))

  unfoldable all_ok : List (Entity fl) → Bool
  all_ok [] = true
  all_ok (e ∷ es) = row_ok e && all_ok es

  row_ok-IsSound : (e : Entity fl) → row_ok e ≡ true → IsSound e
  unfolding row_ok
  row_ok-IsSound e h = record {
    id_in_range = ground (arith, h);
    bounds_in_range = ground (arith, h);
    bit_in_byte = ground (arith, h);
    synthetic_has_no_codec = ground (arith, h);
    wire_only_is_read = ground (arith, h);
    enum_has_options = ground (arith, h);
    command_is_writable = ground (arith, h);
  }

  all_ok-at :
      (es : List (Entity fl)) (i : ℕ) (e : Entity fl)
      → all_ok es ≡ true
      → get_elem? es i ≡ some e
      → row_ok e ≡ true
  unfolding all_ok get_elem?
  all_ok-at [] i e a g = ground (arith, g)
  all_ok-at (x ∷ es) zero e a g = ground (arith, a, g)
  all_ok-at (x ∷ es) (suc i) e a g = all_ok-at es i e (ground (arith, a)) g

keys_unique : (fl : Numbers) → unique_keys (entities fl) ≡ true
unfolding unique_keys no_key same
keys_unique fl = refl

rows_ok : (fl : Numbers) → all_ok (entities fl) ≡ true
unfolding all_ok row_ok
rows_ok fl = refl

-- Every entity of the firmware is found under its own key, at its own position.
pub own_key_found :
    (fl : Numbers) (i : ℕ) (e : Entity fl)
    → get_elem? (entities fl) i ≡ some e
    → index_of (entities fl) (some e.key) ≡ some i
unfolding index_of
own_key_found fl i e g = ground (arith, find_own_key (entities fl) i 0 e (keys_unique fl) g)

-- Every row of the list is sound: its Data-ID and that of its bounds lie within the arrays of 128,
-- its flag within a byte; it has no codec exactly when it has no Data-ID, and is then not
-- polled; it has options exactly when it is an enum; and a row with a control command is writable.
pub row_facts :
    (fl : Numbers) (i : ℕ) (e : Entity fl) → get_elem? (entities fl) i ≡ some e → IsSound e
row_facts fl i e g = row_ok-IsSound e (all_ok-at (entities fl) i e (rows_ok fl) g)
