-- ===== src/State/Reading.antt =====
-- What an answer of the boiler means, told without the code: which availability its type gives, and
-- which number or bit an entity reads from the sixteen bits, by ordinary arithmetic.
use opentherm_thermostat_fir.Prelude.{
  ℕ, ◌+◌, ◌/◌, ◌%◌, ◌^◌, ◌<◌, ◌≡◌, arith, Bool, false, ◌||◌, ltb, leb, ◌==◌, Option, none, some,
  if◌then◌else◌,
}
use opentherm_thermostat_fir.Prelude.Bits.{bit_and, and_mask}
use opentherm_thermostat_fir.Prelude.Int.{ℤ, pos, sub_ℕ, eqb_ℤ}
use opentherm_thermostat_fir.Frame.{MsgType}
use opentherm_thermostat_fir.Frame.Numbers.{Numbers}
use opentherm_thermostat_fir.Frame.Codec
use opentherm_thermostat_fir.Frame.Codec.{s16, as_s8, u8_hb, u8_lb, s8_hb, s8_lb, f88_to_float}
use opentherm_thermostat_fir.Frame.CodecLaws.{low_byte}
use opentherm_thermostat_fir.Registry.Types.{Entity, CodecKind}
use opentherm_thermostat_fir.Registry.Lookup.{reads_id}
use opentherm_thermostat_fir.State.Model.{
  State, Value, Availability, ok, set_at, note_streak, availability_of, decode, number_of,
  boolean_of,
}

-- Two's complement: the upper half of the numbers below `modulus` is negative.
abbrev pub signed : ℕ → ℕ → ℤ
signed modulus n = if ltb (n + n) modulus then pos n else sub_ℕ n modulus

-- The number of a codec: a fixed point of eight binary digits, the word, or one of its bytes.
abbrev pub reading : (fl : Numbers) → CodecKind → ℕ → fl.Float
reading fl CodecKind.f88 raw = fl.div_256 (fl.of_int (signed 65536 raw))
reading fl CodecKind.u16 raw = fl.of_int (pos raw)
reading fl CodecKind.s16 raw = fl.of_int (signed 65536 raw)
reading fl CodecKind.u8_hb raw = fl.of_int (pos (raw / 256))
reading fl CodecKind.u8_lb raw = fl.of_int (pos (raw % 256))
reading fl CodecKind.s8_hb raw = fl.of_int (signed 256 (raw / 256))
reading fl CodecKind.s8_lb raw = fl.of_int (signed 256 (raw % 256))
reading fl CodecKind.flag raw = fl.nan
reading fl CodecKind.none raw = fl.nan

-- The bit of a flag, in the high or the low byte.
abbrev pub bit_reading : CodecKind → Bool → ℕ → ℕ → Bool
bit_reading CodecKind.flag high_byte bit raw =
    (if high_byte then raw / 256 else raw % 256) / 2 ^ (bit % 8) % 2 == 1
bit_reading _ high_byte bit raw = false

-- What the type of an answer says, in the state before it: an unknown-dataid answer means
-- "unsupported" where the answer before it was one too, or the Data-ID is flagged already.
abbrev pub meaning : {fl : Numbers} → State fl → ℕ → MsgType → Option Availability
meaning s data_id MsgType.read_ack = some ok
meaning s data_id MsgType.write_ack = some ok
meaning s data_id MsgType.data_invalid = some Availability.invalid
meaning s data_id MsgType.unknown_dataid = some (
    if s.unsupported data_id || leb 1 (s.unknown_streak data_id)
    then Availability.unsupported
    else Availability.unknown)
meaning s data_id _ = none

module _ {fl : Numbers} where
  -- The value that an answer gives to an entity: a number or a bit from an answer that carries data,
  -- and neither from any other.
  abbrev pub given : Entity fl → Availability → ℕ → ℕ → Value fl
  given e ok raw now_ms = record {
    availability = ok;
    number = reading fl e.codec raw;
    boolean = bit_reading e.codec e.flag_high_byte e.flag_bit raw;
    updated_ms = now_ms;
  }
  given e avail raw now_ms = record {
    availability = avail;
    number = fl.nan;
    boolean = false;
    updated_ms = now_ms;
  }

  -- The value at a position of the list: new for an entity of the Data-ID, the old one for any
  -- other and after an answer of no meaning.
  abbrev pub shown : Option (Entity fl) → ℕ → Option Availability → ℕ → ℕ → Value fl → Value fl
  shown (some e) data_id (some avail) raw now_ms old =
      if eqb_ℤ e.data_id (pos data_id) then given e avail raw now_ms else old
  shown _ data_id _ raw now_ms old = old

signed_word : (raw : ℕ) → raw < 65536 → s16 raw ≡ signed 65536 raw
unfolding s16
signed_word raw h = ground (arith, h)

pub signed_byte : (byte : ℕ) → byte < 256 → as_s8 byte ≡ signed 256 byte
unfolding as_s8
signed_byte byte h = ground (arith, h)

high_byte : (raw : ℕ) → raw < 65536 → raw / 256 % 256 ≡ raw / 256
high_byte raw h = omega (arith, h)

decode-reading :
    {fl : Numbers} (e : Entity fl) (raw : ℕ) → raw < 65536 → decode e raw ≡ reading fl e.codec raw
unfolding decode f88_to_float u8_hb u8_lb s8_hb s8_lb
decode-reading e raw h = ground (
  arith,
  signed_word raw h,
  high_byte raw h,
  low_byte raw,
  signed_byte (raw / 256) (omega (arith, h)),
  signed_byte (raw % 256) (omega arith),
)

flag-bit_reading :
    (high : Bool) (bit raw : ℕ)
    → raw < 65536
    → Codec.flag raw high bit ≡ bit_reading CodecKind.flag high bit raw
unfolding Codec.flag
flag-bit_reading high bit raw h =
    let place : bit_and bit 7 ≡ bit % 8 = and_mask 3 bit in
    let byte = if high then raw / 256 else raw % 256 in
    let lowest : bit_and (byte / 2 ^ (bit % 8)) 1 ≡ byte / 2 ^ (bit % 8) % 2 =
      and_mask 1 (byte / 2 ^ (bit % 8)) in
    rw (place, high_byte raw h, low_byte raw, lowest) (ground arith)

pub availability_of-meaning :
    {fl : Numbers} (s : State fl) (data_id : ℕ) (type : MsgType)
    → availability_of (note_streak s data_id type) data_id type ≡ meaning s data_id type
unfolding availability_of note_streak set_at
availability_of-meaning s data_id type = ground arith

pub reads_own :
    {fl : Numbers} (e : Entity fl) (data_id : ℕ)
    → reads_id e data_id ≡ eqb_ℤ e.data_id (pos data_id)
unfolding reads_id
reads_own e data_id = ground arith

pub number_of-given :
    {fl : Numbers} (e : Entity fl) (avail : Availability) (raw now_ms : ℕ)
    → raw < 65536
    → number_of e avail raw ≡ (given e avail raw now_ms).number
unfolding number_of
number_of-given e avail raw now_ms h = ground (arith, decode-reading e raw h)

pub boolean_of-given :
    {fl : Numbers} (e : Entity fl) (avail : Availability) (raw now_ms : ℕ)
    → raw < 65536
    → boolean_of e avail raw ≡ (given e avail raw now_ms).boolean
unfolding boolean_of
boolean_of-given e avail raw now_ms h =
    ground (arith, flag-bit_reading e.flag_high_byte e.flag_bit raw h)
