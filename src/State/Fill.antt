-- ===== src/State/Fill.antt =====
-- ot_state_apply_dataid() of components/ot_state/ot_state.c, entity by entity: the loop over the
-- entities of a Data-ID as one change of each value.
use opentherm_thermostat_fir.Prelude.{
  ℕ, zero, suc, ◌≤◌, ◌≡◌, ◌≢◌, ◌∙◌, refl, ap, arith, ltb, ◌==◌, drop, List, [], ◌∷◌, none, some,
  if◌then◌else◌,
}
use opentherm_thermostat_fir.Frame.{MsgType}
use opentherm_thermostat_fir.Frame.Numbers.{Numbers}
use opentherm_thermostat_fir.Registry.Types.{Entity}
use opentherm_thermostat_fir.Registry.Lookup.{get_elem?, reads_id}
use opentherm_thermostat_fir.Registry.Visits.{over_all, visits_each}
use opentherm_thermostat_fir.State.Model.{
  State, Value, Availability, set_at, store, note_streak, keep_bounds, number_of, boolean_of, fill,
  fill_found, fill_all,
}

get_elem?-drop {ℓ} :
    {A : Type ℓ} (xs : List A) (j : ℕ) (y : A) (ys : List A)
    → drop j xs ≡ y ∷ ys
    → (get_elem? xs j ≡ some y) × (drop (suc j) xs ≡ ys)
unfolding get_elem?
get_elem?-drop [] zero y ys e = ground (arith, e)
get_elem?-drop [] (suc j) y ys e = ground (arith, e)
get_elem?-drop (x ∷ xs) zero y ys e = ground (arith, e)
get_elem?-drop (x ∷ xs) (suc j) y ys e = get_elem?-drop xs j y ys e

get_elem?-past {ℓ} :
    {A : Type ℓ} (xs : List A) (j i : ℕ) → drop j xs ≡ [] → j ≤ i → get_elem? xs i ≡ none
unfolding get_elem?
get_elem?-past [] j i e h = refl
get_elem?-past (x ∷ xs) zero i e h = ground (arith, e)
get_elem?-past (x ∷ xs) (suc j) zero e h = absurd (omega (arith, h))
get_elem?-past (x ∷ xs) (suc j) (suc i) e h = get_elem?-past xs j i e (omega (arith, h))

module _ {fl : Numbers} where
  -- The value of an entity after an answer about `data_id`.
  unfoldable pub entity_after : Entity fl → ℕ → Availability → ℕ → ℕ → Value fl → Value fl
  entity_after e data_id avail raw now_ms old =
      if reads_id e data_id
      then record {
        availability = avail;
        number = number_of e avail raw;
        boolean = boolean_of e avail raw;
        updated_ms = now_ms;
      }
      else old

  unfoldable pub value_after : List (Entity fl) → ℕ → Availability → ℕ → ℕ → ℕ → Value fl → Value fl
  value_after table data_id avail raw now_ms i old = elim (get_elem? table i) [
    | none ↦ old
    | some e ↦ entity_after e data_id avail raw now_ms old
  ]

  module _ (table : List (Entity fl)) (data_id : ℕ) (avail : Availability) (raw now_ms : ℕ) where
    fill-value :
        (e : Entity fl) (j i : ℕ) (s : State fl)
        → get_elem? table j ≡ some e
        → (if reads_id e data_id then fill table avail raw now_ms j s else s).values i
          ≡ (if i == j then entity_after e data_id avail raw now_ms (s.values i) else s.values i)
    unfolding fill fill_found store set_at entity_after
    fill-value e j i s g = rw (g, fill) (ground arith)

    found :
        (e : Entity fl) (i : ℕ) (old : Value fl)
        → get_elem? table i ≡ some e
        → value_after table data_id avail raw now_ms i old
          ≡ entity_after e data_id avail raw now_ms old
    unfolding value_after
    found e i old g = rw (g, value_after) refl

    not_found :
        (i : ℕ) (old : Value fl)
        → get_elem? table i ≡ none
        → value_after table data_id avail raw now_ms i old ≡ old
    unfolding value_after
    not_found i old g = rw (g, value_after) refl

    pass-value :
        (es : List (Entity fl)) (j i : ℕ) (s : State fl)
        → drop j table ≡ es
        → (over_all es data_id (fill table avail raw now_ms) j s).values i ≡ (
            if ltb i j
            then s.values i
            else value_after table data_id avail raw now_ms i (s.values i))
    unfolding over_all
    pass-value [] j i s d = ground (arith, get_elem?-past table j i d, not_found i (s.values i))
    pass-value (e ∷ es) j i s d =
        let here = get_elem?-drop table j e es d in
        let s' = if reads_id e data_id then fill table avail raw now_ms j s else s in
        let rest = pass-value es (suc j) i s' here.1 in
        let now = fill-value e j i s here.0 in
        let at_j : i ≡ j
            → value_after table data_id avail raw now_ms i (s.values i)
              ≡ entity_after e data_id avail raw now_ms (s.values i) =
          λ same. found e i (s.values i) (ap (get_elem? table) same ∙ here.0) in
        let off_j : i ≢ j
            → value_after table data_id avail raw now_ms i (s'.values i)
              ≡ value_after table data_id avail raw now_ms i (s.values i) =
          λ other. ap (value_after table data_id avail raw now_ms i) (ground (arith, now, other)) in
        ground (arith, rest, now, at_j, off_j)

    keep_bounds-values : (s : State fl) → (keep_bounds s data_id avail raw).values ≡ s.values
    unfolding keep_bounds
    keep_bounds-values s = ground arith

    whole :
        (s : State fl) (i : ℕ)
        → let kept = keep_bounds s data_id avail raw in
          (over_all table data_id (fill table avail raw now_ms) 0 kept).values i
          ≡ value_after table data_id avail raw now_ms i (kept.values i)
    whole s i = ground (arith, pass-value table 0 i (keep_bounds s data_id avail raw) refl)

    pub fill_all-value :
        (s : State fl) (i : ℕ)
        → (fill_all table s data_id (some avail) raw now_ms).values i
          ≡ value_after table data_id avail raw now_ms i (s.values i)
    unfolding fill_all
    fill_all-value s i =
        let kept = keep_bounds s data_id avail raw in
        ap (λ t. t.values i) (visits_each table data_id (fill table avail raw now_ms) kept)
        ∙ whole s i
        ∙ ap (λ vs. value_after table data_id avail raw now_ms i (vs i)) (keep_bounds-values s)

pub note_streak-values :
    {fl : Numbers} (s : State fl) (data_id : ℕ) (type : MsgType)
    → (note_streak s data_id type).values ≡ s.values
unfolding note_streak
note_streak-values s data_id type = ground arith
