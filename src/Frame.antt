-- ===== src/Frame.antt =====
-- components/ot_frame/ot_frame.c: the 32-bit word of an OpenTherm conversation.
pub mod Numbers
pub mod Codec
pub mod CodecLaws
pub mod Fixed
pub mod Parity
pub mod Fields
mod Examples
use opentherm_thermostat_fir.Prelude.{
  ℕ, ◌+◌, ◌*◌, ◌/◌, ◌%◌, ◌^◌, Bool, not, List, [], ◌∷◌, get_or, Option, none, some, ◌==◌,
  if◌then◌else◌,
}
use opentherm_thermostat_fir.Prelude.Word.{u32}
use opentherm_thermostat_fir.Prelude.Bits.{bit_and, bit_or, bit_xor}

-- `ot_msg_type_t`, in its order.
pub data MsgType : Type 0 where
  read_data write_data invalid_data reserved read_ack write_ack data_invalid unknown_dataid :
      MsgType

unfoldable pub code : MsgType → ℕ
code read_data = 0
code write_data = 1
code invalid_data = 2
code reserved = 3
code read_ack = 4
code write_ack = 5
code data_invalid = 6
code unknown_dataid = 7

-- The cast of three bits to `ot_msg_type_t`.
unfoldable pub msg_type : ℕ → MsgType
msg_type n =
    get_or
      (read_data ∷ write_data ∷ invalid_data ∷ reserved ∷ read_ack ∷ write_ack ∷ data_invalid ∷ [])
      n unknown_dataid

-- `ot_frame_t`.
pub record Frame : Type 0 where
  pub kind : MsgType
  pub data_id : ℕ
  pub data_value : ℕ

-- `v ^= v >> n`.
unfoldable pub fold : ℕ → ℕ → ℕ
fold n v = bit_xor v (v / 2 ^ n)

unfoldable pub even_ones : ℕ → Bool
even_ones v = bit_and (fold 1 (fold 2 (fold 4 (fold 8 (fold 16 v))))) 1 == 0

-- The or of the three fields; SPARE is zero.
unfoldable pub assemble : Frame → ℕ
assemble f =
    bit_or (bit_or (u32 (bit_and (code f.kind) 7 * 268435456)) (u32 (f.data_id * 65536)))
      (bit_and f.data_value 65535)

unfoldable pub encode : Frame → ℕ
encode f = let raw = assemble f in if not (even_ones raw) then bit_or raw 2147483648 else raw

-- None where *out is left untouched.
unfoldable pub decode : ℕ → Option Frame
decode raw =
    if not (even_ones raw)
    then none
    else some record {
      kind = msg_type (bit_and (raw / 268435456) 7);
      data_id = bit_and (raw / 65536) 255;
      data_value = bit_and raw 65535;
    }
