-- ===== src/Line/Wire.antt =====
-- A frame from the master to the slave and back: ot_frame.c over the line.
use opentherm_thermostat_fir.Prelude.{
  ℕ, suc, ◌<◌, ◌≡◌, ◌^◌, ◌∙◌, ap, arith, false, none, some, List, ◌++◌,
}
use opentherm_thermostat_fir.Prelude.Bits.{bit_xor, xor_narrow}
use native.Mathlib.Nat.{pow-le-pow_right}
use opentherm_thermostat_fir.Frame
use opentherm_thermostat_fir.Frame.{Frame}
use opentherm_thermostat_fir.Frame.Fields.{
  InRange, decode-encode, encode_fields, flipped_bit_refused,
}
use opentherm_thermostat_fir.Line.Encode.{encode_frame}
use opentherm_thermostat_fir.Line.Decode.{Decoder, sample, reset, payload}
use opentherm_thermostat_fir.Line.Sampling.{held, sampled, Paced}
use opentherm_thermostat_fir.Line.RoundTrip.{payload_received}

-- What the receiver holds after a word on an idle line.
unfoldable pub receive : ℕ → ℕ → List (ℕ × ℕ) → Decoder
receive raw before ds = sample reset (held (suc before) false ++ sampled (encode_frame raw) ds)

-- A frame that one side assembles and puts on the line is the frame that the other side parses, at
-- every timing that the sampling windows allow; and with any one of its 32 bits flipped before it
-- goes on the line it is received but refused.
pub frame_arrives :
    (f : Frame) (before i : ℕ) (ds : List (ℕ × ℕ))
    → InRange f
    → Paced 34 6 ds
    → i < 32
    → (Frame.decode (payload (receive (Frame.encode f) before ds)) ≡ some f)
      × (Frame.decode (payload (receive (bit_xor (Frame.encode f) (2 ^ i)) before ds)) ≡ none)
unfolding receive
frame_arrives f before i ds r paced i32 =
    let word = (encode_fields f r).0 in
    let one_bit : 2 ^ i < 4294967296 =
      omega (arith, pow-le-pow_right {n = 2} (omega arith) {i = i} {j = 31} (omega arith)) in
    let fits = xor_narrow 32 (Frame.encode f) (2 ^ i) word one_bit in
    let clean = payload_received (Frame.encode f) before ds word paced in
    let noisy = payload_received (bit_xor (Frame.encode f) (2 ^ i)) before ds fits paced in
    (
      ap Frame.decode clean.1 ∙ decode-encode f r,
      ap Frame.decode noisy.1
          ∙ flipped_bit_refused (Frame.encode f) i i32 (rw (decode-encode f r) (λ e. cc)),
    )
