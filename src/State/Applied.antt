-- ===== src/State/Applied.antt =====
-- What an answer of the boiler does to the value of each entity.
use opentherm_thermostat_fir.Prelude.{
  ℕ, ◌<◌, ◌≡◌, ◌∙◌, refl, ap, arith, List, Option, none, some, ◌⊎◌, inl, inr, sym,
}
use opentherm_thermostat_fir.Frame.{MsgType}
use opentherm_thermostat_fir.Frame.Numbers.{Numbers}
use opentherm_thermostat_fir.Registry.Types.{Entity}
use opentherm_thermostat_fir.Registry.Lookup.{get_elem?}
use opentherm_thermostat_fir.State.Model.{
  State, Value, Availability, ok, data_ids, note_streak, availability_of, fill_all, apply_dataid,
}
use opentherm_thermostat_fir.State.Reading.{
  shown, meaning, availability_of-meaning, reads_own, number_of-given, boolean_of-given,
}
use opentherm_thermostat_fir.State.Fill.{
  value_after, entity_after, fill_all-value, note_streak-values,
}

entity_after-given :
    {fl : Numbers} (e : Entity fl) (data_id : ℕ) (avail : Availability) (raw now_ms : ℕ)
    (old : Value fl)
    → raw < 65536
    → entity_after e data_id avail raw now_ms old
      ≡ shown (some e) data_id (some avail) raw now_ms old
unfolding entity_after
entity_after-given e data_id ok raw now_ms old h = ground (
  arith,
  reads_own e data_id,
  number_of-given e ok raw now_ms h,
  boolean_of-given e ok raw now_ms h,
)
entity_after-given e data_id avail raw now_ms old h = ground (
  arith,
  reads_own e data_id,
  number_of-given e avail raw now_ms h,
  boolean_of-given e avail raw now_ms h,
)

found_or_not {ℓ} : {A : Type ℓ} (x : Option A) → (x ≡ none) ⊎ ((e : A) × (x ≡ some e))
found_or_not none = inl refl
found_or_not (some e) = inr (e, refl)

shown_nothing :
    {fl : Numbers} (x : Option (Entity fl)) (data_id raw now_ms : ℕ) (old : Value fl)
    → shown x data_id none raw now_ms old ≡ old
shown_nothing none data_id raw now_ms old = refl
shown_nothing (some e) data_id raw now_ms old = refl

value_after-shown :
    {fl : Numbers} (table : List (Entity fl)) (data_id : ℕ) (avail : Availability)
    (raw now_ms i : ℕ) (old : Value fl)
    → raw < 65536
    → value_after table data_id avail raw now_ms i old
      ≡ shown (get_elem? table i) data_id (some avail) raw now_ms old
unfolding value_after
value_after-shown table data_id avail raw now_ms i old h = elim (found_or_not (get_elem? table i)) [
  | inl absent ↦ rw (absent, value_after) refl
  | inr (e, present) ↦
      rw (present, value_after) (entity_after-given e data_id avail raw now_ms old h)
]

filled_by :
    {fl : Numbers} (table : List (Entity fl)) (s : State fl) (data_id : ℕ)
    (avail : Option Availability) (raw now_ms i : ℕ)
    → raw < 65536
    → (fill_all table s data_id avail raw now_ms).values i
      ≡ shown (get_elem? table i) data_id avail raw now_ms (s.values i)
unfolding fill_all
filled_by table s data_id none raw now_ms i h =
    sym (shown_nothing (get_elem? table i) data_id raw now_ms (s.values i))
filled_by table s data_id (some avail) raw now_ms i h =
    fill_all-value table data_id avail raw now_ms s i
    ∙ value_after-shown table data_id avail raw now_ms i (s.values i) h

-- An answer about a Data-ID below 128, with sixteen bits of data, reaches every entity that reads its
-- Data-ID and no other. It gives each of them the availability of its type: OK for a read-ack
-- or a write-ack, invalid for a data-invalid, unsupported for an unknown-dataid that follows
-- another or comes where the Data-ID is flagged, unknown for any other unknown-dataid;
-- an answer of any other type changes no value. With OK comes the number or the bit that
-- the entity's codec reads, told by ordinary arithmetic on the sixteen bits; with anything
-- else comes NaN and false. Each also gets the moment, and every other entity keeps its value.
pub apply_fills :
    {fl : Numbers} (table : List (Entity fl)) (s : State fl) (data_id : ℕ) (type : MsgType)
    (raw now_ms i : ℕ)
    → data_id < data_ids
    → raw < 65536
    → (apply_dataid table s data_id type raw now_ms).values i
      ≡ shown (get_elem? table i) data_id (meaning s data_id type) raw now_ms (s.values i)
unfolding apply_dataid
apply_fills table s data_id type raw now_ms i h w =
    let noted = note_streak s data_id type in
    let answer = availability_of noted data_id type in
    let filled : (fill_all table noted data_id answer raw now_ms).values i
        ≡ shown (get_elem? table i) data_id (meaning s data_id type) raw now_ms (s.values i) =
      filled_by table noted data_id answer raw now_ms i w
      ∙ ap (λ m. shown (get_elem? table i) data_id m raw now_ms (noted.values i))
          (availability_of-meaning s data_id type)
      ∙ ap (λ vs. shown (get_elem? table i) data_id (meaning s data_id type) raw now_ms (vs i))
          (note_streak-values s data_id type) in
    ground (arith, h, filled)
