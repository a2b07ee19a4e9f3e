-- ===== src/State/NoValue.antt =====
-- What a value holds where the boiler gave none.
use opentherm_thermostat_fir.Prelude.{
  ℕ, ◌≡◌, ◌≢◌, refl, arith, Bool, false, List, [], ◌∷◌, Option, none, some,
}
use opentherm_thermostat_fir.Frame.Numbers.{Numbers}
use opentherm_thermostat_fir.Registry.Types.{Entity}
use opentherm_thermostat_fir.Registry.Lookup.{get_elem?, index_of}
use opentherm_thermostat_fir.Registry.Visits.{visits_keep}
use opentherm_thermostat_fir.State.Model.{
  State, Value, Availability, ok, set_at, store, reset, note_streak, availability_of, keep_bounds,
  fill, fill_found, number_of, boolean_of, fill_all, apply_dataid,
}
use opentherm_thermostat_fir.State.Unsupported.{Answer}
use opentherm_thermostat_fir.State.Sources.{StateOp, answers, sets, run_ops}
use opentherm_thermostat_fir.State.Virtual.{set_virtual, set_found, set_index, set_entity}

module _ {fl : Numbers} where
  abbrev pub IsHonest : Value fl → Type 0
  IsHonest v = v.availability ≢ ok → (v.number ≡ fl.nan) × (v.boolean ≡ false)

  abbrev AllHonest : State fl → Type 0
  AllHonest s = (i : ℕ) → IsHonest (s.values i)

  empty_answer :
      (e : Entity fl) (avail : Availability) (raw : ℕ)
      → avail ≢ ok
      → (number_of e avail raw ≡ fl.nan) × (boolean_of e avail raw ≡ false)
  unfolding number_of boolean_of
  empty_answer e avail raw n = ground (arith, n)

  store-AllHonest :
      (j : ℕ) (avail : Availability) (number : fl.Float) (boolean : Bool) (now_ms : ℕ)
      (s : State fl)
      → (avail ≢ ok → (number ≡ fl.nan) × (boolean ≡ false))
      → AllHonest s
      → AllHonest (store j avail number boolean now_ms s)
  unfolding store set_at
  store-AllHonest j avail number boolean now_ms s v h i = ground (arith, v, h i)

  found-AllHonest :
      (found : Option (Entity fl)) (avail : Availability) (raw now_ms j : ℕ) (s : State fl)
      → AllHonest s
      → AllHonest (fill_found found avail raw now_ms j s)
  unfolding fill_found
  found-AllHonest none avail raw now_ms j s h = h
  found-AllHonest (some e) avail raw now_ms j s h =
      store-AllHonest j avail (number_of e avail raw) (boolean_of e avail raw) now_ms s
        (empty_answer e avail raw) h

  fill_all-AllHonest :
      (table : List (Entity fl)) (s : State fl) (data_id : ℕ) (avail : Option Availability)
      (raw now_ms : ℕ)
      → AllHonest s
      → AllHonest (fill_all table s data_id avail raw now_ms)
  unfolding fill_all fill keep_bounds
  fill_all-AllHonest table s data_id none raw now_ms h = h
  fill_all-AllHonest table s data_id (some avail) raw now_ms h =
      visits_keep AllHonest table data_id (fill table avail raw now_ms)
        (keep_bounds s data_id avail raw)
        (λ j t p. found-AllHonest (get_elem? table j) avail raw now_ms j t p)
        (λ i. ground (arith, h i))

  apply-AllHonest :
      (table : List (Entity fl)) (s : State fl) (a : Answer)
      → AllHonest s
      → AllHonest (apply_dataid table s a.data_id a.type a.raw a.now_ms)
  unfolding apply_dataid note_streak
  apply-AllHonest table s a h i =
      let n = note_streak s a.data_id a.type in
      let filled =
        fill_all-AllHonest table n a.data_id (availability_of n a.data_id a.type) a.raw a.now_ms
          (λ k. ground (arith, h k)) i in
      ground (arith, h i, filled)

  set_entity-AllHonest :
      (s : State fl) (j : ℕ) (e : Entity fl) (value : fl.Float) (now_ms : ℕ)
      → AllHonest s
      → AllHonest (set_entity s j e value now_ms).0
  unfolding set_entity store set_at
  set_entity-AllHonest s j e value now_ms h i = ground (arith, h i)

  set_found-AllHonest :
      (s : State fl) (j : ℕ) (found : Option (Entity fl)) (value : fl.Float) (now_ms : ℕ)
      → AllHonest s
      → AllHonest (set_found s j found value now_ms).0
  unfolding set_found
  set_found-AllHonest s j none value now_ms h = h
  set_found-AllHonest s j (some e) value now_ms h = set_entity-AllHonest s j e value now_ms h

  set_index-AllHonest :
      (table : List (Entity fl)) (s : State fl) (index : Option ℕ) (value : fl.Float) (now_ms : ℕ)
      → AllHonest s
      → AllHonest (set_index table s index value now_ms).0
  unfolding set_index
  set_index-AllHonest table s none value now_ms h = h
  set_index-AllHonest table s (some j) value now_ms h =
      set_found-AllHonest s j (get_elem? table j) value now_ms h

  run-AllHonest :
      (table : List (Entity fl)) (s : State fl) (os : List (StateOp fl))
      → AllHonest s
      → AllHonest (run_ops table s os)
  unfolding run_ops set_virtual
  run-AllHonest table s [] h = h
  run-AllHonest table s (answers a ∷ os) h =
      run-AllHonest table (apply_dataid table s a.data_id a.type a.raw a.now_ms) os
        (apply-AllHonest table s a h)
  run-AllHonest table s (sets key value now_ms ∷ os) h =
      run-AllHonest table (set_virtual table s key value now_ms).0 os
        (set_index-AllHonest table s (index_of table key) value now_ms h)

  -- No value is shown that was not given: from the reset on, after any answers and any settings of
  -- virtual values, an entity whose availability is not OK holds NaN and false, so that neither a
  -- data-invalid nor an unknown-dataid answer leaves a number behind it.
  pub no_value_unless_ok :
      (table : List (Entity fl)) (os : List (StateOp fl)) (i : ℕ)
      → let v = (run_ops table reset os).values i in
        v.availability ≢ ok → (v.number ≡ fl.nan) × (v.boolean ≡ false)
  unfolding reset
  no_value_unless_ok table os i = run-AllHonest table reset os (λ k n. (refl, refl)) i
