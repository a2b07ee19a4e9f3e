-- ===== src/State/Model.antt =====
-- components/ot_state/ot_state.c: the values, the answers of the boiler and the questions.
use opentherm_thermostat_fir.Prelude.{
  ℕ, ◌+◌, Bool, true, false, not, ◌&&◌, ◌||◌, ltb, leb, ◌==◌, differ, List, Option, none, some,
  if◌then◌else◌,
}
use opentherm_thermostat_fir.Prelude.Int.{pos}
use opentherm_thermostat_fir.Frame.{MsgType}
use opentherm_thermostat_fir.Frame.Numbers.{Numbers}
use opentherm_thermostat_fir.Frame.Codec
use opentherm_thermostat_fir.Registry.Types.{Entity, CodecKind, is_flag}
use opentherm_thermostat_fir.Registry.Lookup.{get_elem?}
use opentherm_thermostat_fir.Registry.Visits.{for_each_of_id}
use opentherm_thermostat_fir.State.Marks.{Dirty, mark_dirty}

abbrev pub unsupported_streak : ℕ
unsupported_streak = 2

abbrev pub data_ids : ℕ
data_ids = 128

-- `ot_availability_t`.
pub data Availability : Type 0 where
  unknown ok invalid unsupported : Availability

abbrev pub code : Availability → ℕ
code unknown = 0
code ok = 1
code invalid = 2
code unsupported = 3

abbrev pub is_ok : Availability → Bool
is_ok ok = true
is_ok _ = false

abbrev pub is_unknown_dataid : MsgType → Bool
is_unknown_dataid MsgType.unknown_dataid = true
is_unknown_dataid _ = false

-- An array with one place written.
unfoldable pub set_at {ℓ} : {A : Type ℓ} → (ℕ → A) → ℕ → A → ℕ → A
set_at array index x i = if i == index then x else array i

-- `ot_value_t`.
pub record Value (fl : Numbers) : Type 0 where
  pub availability : Availability
  pub number : fl.Float
  pub boolean : Bool
  pub updated_ms : ℕ

-- The arrays of the module.
pub record State (fl : Numbers) : Type 0 where
  pub values : ℕ → Value fl
  pub dirty : Dirty
  pub unknown_streak : ℕ → ℕ
  pub unsupported : ℕ → Bool
  pub bounds_raw : ℕ → ℕ
  pub bounds_seen : ℕ → Bool

unfoldable pub number_changed : (fl : Numbers) → fl.Float → fl.Float → Bool
number_changed fl old new =
    differ (fl.isnan old) (fl.isnan new)
    || (not (fl.isnan old) && (not (fl.isnan new) && not (fl.equal old new)))

module _ {fl : Numbers} where
  unfoldable pub reset : State fl
  reset = record {
    values =
        λ i. record { availability = unknown; number = fl.nan; boolean = false; updated_ms = 0 };
    dirty = λ c w. 0;
    unknown_streak = λ id. 0;
    unsupported = λ id. false;
    bounds_raw = λ id. 0;
    bounds_seen = λ id. false;
  }

  unfoldable pub decode : Entity fl → ℕ → fl.Float
  decode e raw = elim e.codec [
    | CodecKind.f88 ↦ Codec.f88_to_float fl raw
    | CodecKind.u16 ↦ fl.of_int (pos raw)
    | CodecKind.s16 ↦ fl.of_int (Codec.s16 raw)
    | CodecKind.u8_hb ↦ fl.of_int (pos (Codec.u8_hb raw))
    | CodecKind.u8_lb ↦ fl.of_int (pos (Codec.u8_lb raw))
    | CodecKind.s8_hb ↦ fl.of_int (Codec.s8_hb raw)
    | CodecKind.s8_lb ↦ fl.of_int (Codec.s8_lb raw)
    | CodecKind.flag ↦ fl.nan
    | CodecKind.none ↦ fl.nan
  ]

  unfoldable pub changed : Value fl → Availability → fl.Float → Bool → Bool
  changed v avail number boolean =
      not (code v.availability == code avail)
      || (number_changed fl v.number number || differ v.boolean boolean)

  unfoldable pub store : ℕ → Availability → fl.Float → Bool → ℕ → State fl → State fl
  store i avail number boolean now_ms s = record s {
    values =
        set_at s.values i
          record { availability = avail; number = number; boolean = boolean; updated_ms = now_ms };
    dirty = if changed (s.values i) avail number boolean then mark_dirty s.dirty i else s.dirty;
  }

  -- The run of unknown-dataid answers.
  unfoldable pub note_streak : State fl → ℕ → MsgType → State fl
  note_streak s data_id type =
      let streak =
        if ltb (s.unknown_streak data_id) unsupported_streak
        then s.unknown_streak data_id + 1
        else s.unknown_streak data_id in
      if is_unknown_dataid type
      then record s {
        unknown_streak = set_at s.unknown_streak data_id streak;
        unsupported =
            if leb unsupported_streak streak
            then set_at s.unsupported data_id true
            else s.unsupported;
      }
      else record s { unknown_streak = set_at s.unknown_streak data_id 0 }

  -- `none` for an answer of a type that the protocol does not provide for here.
  unfoldable pub availability_of : State fl → ℕ → MsgType → Option Availability
  availability_of s data_id MsgType.read_ack = some ok
  availability_of s data_id MsgType.write_ack = some ok
  availability_of s data_id MsgType.data_invalid = some invalid
  availability_of s data_id MsgType.unknown_dataid =
      some (if s.unsupported data_id then unsupported else unknown)
  availability_of s data_id _ = none

  unfoldable pub keep_bounds : State fl → ℕ → Availability → ℕ → State fl
  keep_bounds s data_id avail raw =
      if is_ok avail
      then record s {
        bounds_raw = set_at s.bounds_raw data_id raw;
        bounds_seen = set_at s.bounds_seen data_id true;
      }
      else s

  unfoldable pub number_of : Entity fl → Availability → ℕ → fl.Float
  number_of e avail raw = if is_ok avail && not (is_flag e.codec) then decode e raw else fl.nan

  unfoldable pub boolean_of : Entity fl → Availability → ℕ → Bool
  boolean_of e avail raw =
      is_ok avail && (is_flag e.codec && Codec.flag raw e.flag_high_byte e.flag_bit)

  unfoldable pub fill_found : Option (Entity fl) → Availability → ℕ → ℕ → ℕ → State fl → State fl
  fill_found none avail raw now_ms i s = s
  fill_found (some e) avail raw now_ms i s =
      store i avail (number_of e avail raw) (boolean_of e avail raw) now_ms s

  -- The body of the loop.
  unfoldable pub fill : List (Entity fl) → Availability → ℕ → ℕ → ℕ → State fl → State fl
  fill table avail raw now_ms i s = fill_found (get_elem? table i) avail raw now_ms i s

  unfoldable pub fill_all : List (Entity fl) → State fl → ℕ → Option Availability → ℕ → ℕ → State fl
  fill_all table s data_id none raw now_ms = s
  fill_all table s data_id (some avail) raw now_ms =
      for_each_of_id table data_id (fill table avail raw now_ms) (keep_bounds s data_id avail raw)

  unfoldable pub apply_dataid : List (Entity fl) → State fl → ℕ → MsgType → ℕ → ℕ → State fl
  apply_dataid table s data_id type raw now_ms =
      let noted = note_streak s data_id type in
      if leb data_ids data_id
      then s
      else fill_all table noted data_id (availability_of noted data_id type) raw now_ms
