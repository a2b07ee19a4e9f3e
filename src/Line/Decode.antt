-- ===== src/Line/Decode.antt =====
-- components/ot_decode/ot_decode.c: reception by oversampling, one level of the line at a time.
use opentherm_thermostat_fir.Prelude.{
  ℕ, ◌+◌, ◌*◌, ◌/◌, ◌%◌, Bool, true, false, not, ◌&&◌, ◌==◌, ltb, leb, differ, List, [], ◌∷◌,
  if◌then◌else◌,
}
use opentherm_thermostat_fir.Prelude.Bits.{bit_and, bit_or}

-- `ot_decode_status_t`.
pub data DecodeStatus : Type 0 where
  idle busy done error : DecodeStatus

-- `ot_decode_error_t`.
pub data DecodeError : Type 0 where
  none timing stop_bit silence : DecodeError

-- PHASE_MID_ONLY and PHASE_ANY.
pub data Phase : Type 0 where
  mid_only any : Phase

abbrev pub decode_bits : ℕ
decode_bits = 34

-- `ot_decode_t`.
pub record Decoder : Type 0 where
  pub status : DecodeStatus
  pub fault : DecodeError
  pub armed : Bool
  pub last_level : Bool
  pub since : ℕ
  pub phase : Phase
  pub bits : ℕ
  pub shift : ℕ

abbrev pub is_half : ℕ → Bool
is_half n = leb 4 n && leb n 6

abbrev pub is_full : ℕ → Bool
is_full n = leb 9 n && leb n 12

unfoldable pub reset : Decoder
reset = record {
  status = idle;
  fault = DecodeError.none;
  armed = false;
  last_level = false;
  since = 0;
  phase = mid_only;
  bits = 0;
  shift = 0;
}

unfoldable pub fail : Decoder → DecodeError → Decoder
fail d e = record d { status = error; fault = e }

-- `shift` is a uint64_t and `bits` a uint8_t. The flag is false if the frame was rejected.
unfoldable pub record_bit : Decoder → Bool → Decoder × Bool
record_bit d to_idle =
    let taken = record d {
      shift = bit_or (d.shift * 2 % 18446744073709551616) (if to_idle then 1 else 0);
      bits = (d.bits + 1) % 256;
    } in
    if taken.bits == decode_bits
    then (if not to_idle
        then (fail taken stop_bit, false)
        else (record taken { status = done }, true))
    else (taken, true)

-- The phase is set only where the bit was not rejected.
unfoldable pub take_middle : Decoder → Bool → Decoder
take_middle d to_idle =
    let (taken, fine) = record_bit d to_idle in if fine then record taken { phase = any } else taken

-- While no frame is in progress.
unfoldable pub push_idle : Decoder → Bool → Decoder
push_idle d level =
    if not level
    then record d { armed = true; last_level = level }
    else if d.armed
    then record d {
      status = busy;
      phase = mid_only;
      since = 0;
      bits = 0;
      shift = 0;
      last_level = true;
    }
    else record d { last_level = level }

-- A transition, `n` samples after the one before it.
unfoldable pub transition : Decoder → ℕ → Bool → Decoder
transition d n to_idle = elim d.phase [
  | mid_only ↦ if not (is_half n) then fail d timing else take_middle d to_idle
  | any ↦
      if is_full n
      then take_middle d to_idle
      else if is_half n
      then record d { phase = mid_only }
      else fail d timing
]

-- `since` is a uint16_t.
unfoldable pub push_busy : Decoder → Bool → Decoder
push_busy d level =
    let n = (d.since + 1) % 65536 in
    if not (differ level d.last_level)
    then (let waited = record d { since = n } in if ltb 12 n then fail waited silence else waited)
    else transition (record d { since = 0; last_level = level }) n (d.last_level && not level)

unfoldable pub push : Decoder → Bool → Decoder
push d level = elim d.status [
  | done ↦ d
  | error ↦ d
  | idle ↦ push_idle d level
  | busy ↦ push_busy d level
]

-- The calls of ot_decode_push() on a sampled line.
unfoldable pub sample : Decoder → List Bool → Decoder
sample d [] = d
sample d (l ∷ ls) = sample (push d l) ls

unfoldable pub payload : Decoder → ℕ
payload d = bit_and (d.shift / 2) 4294967295 % 4294967296
