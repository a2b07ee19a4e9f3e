-- ===== src/Registry/Types.antt =====
-- The types of components/ot_registry/include/registry_generated.h.
use opentherm_thermostat_fir.Prelude.{ℕ, Bool, true, false, List, Option}
use opentherm_thermostat_fir.Prelude.Int.{ℤ}
use opentherm_thermostat_fir.Frame.Numbers.{Numbers}

-- `ot_entity_kind_t`.
pub data EntityKind : Type 0 where
  sensor binary number switch enum : EntityKind

-- `ot_codec_kind_t`.
pub data CodecKind : Type 0 where
  f88 u16 s16 u8_hb u8_lb s8_hb s8_lb flag none : CodecKind

-- `ot_entity_t`; none for a NULL text.
pub record Entity (fl : Numbers) : Type 0 where
  pub key : List ℕ
  pub name : List ℕ
  pub kind : EntityKind
  pub data_id : ℤ
  pub codec : CodecKind
  pub flag_high_byte : Bool
  pub flag_bit : ℕ
  pub readable : Bool
  pub writable : Bool
  pub control : ℕ
  pub write_id : ℤ
  pub bounds_from : ℤ
  pub unit : Option (List ℕ)
  pub device_class : Option (List ℕ)
  pub state_class : Option (List ℕ)
  pub icon : Option (List ℕ)
  pub entity_category : Option (List ℕ)
  pub options : Option (List ℕ)
  pub min_value : fl.Float
  pub max_value : fl.Float
  pub default_value : fl.Float

abbrev pub option_sep : ℕ
option_sep = b'|'

abbrev pub is_enum : EntityKind → Bool
is_enum EntityKind.enum = true
is_enum _ = false

abbrev pub is_flag : CodecKind → Bool
is_flag CodecKind.flag = true
is_flag _ = false

-- A row of the list, in the order of the fields.
abbrev pub row :
    {fl : Numbers}
    → List ℕ
    → List ℕ
    → EntityKind
    → ℤ
    → CodecKind
    → Bool
    → ℕ
    → Bool
    → Bool
    → ℕ
    → ℤ
    → ℤ
    → Option (List ℕ)
    → Option (List ℕ)
    → Option (List ℕ)
    → Option (List ℕ)
    → Option (List ℕ)
    → Option (List ℕ)
    → fl.Float
    → fl.Float
    → fl.Float
    → Entity fl
row key name kind data_id codec high bit readable writable control write_id bounds_from unit
      device_class state_class icon category options low up default =
    record {
      key = key;
      name = name;
      kind = kind;
      data_id = data_id;
      codec = codec;
      flag_high_byte = high;
      flag_bit = bit;
      readable = readable;
      writable = writable;
      control = control;
      write_id = write_id;
      bounds_from = bounds_from;
      unit = unit;
      device_class = device_class;
      state_class = state_class;
      icon = icon;
      entity_category = category;
      options = options;
      min_value = low;
      max_value = up;
      default_value = default;
    }
