-- ===== src/Line/Encode.antt =====
-- components/ot_encode/ot_encode.c: the 68 half-bits of a frame on the line.
use opentherm_thermostat_fir.Prelude.{ℕ, zero, suc, ◌*◌, ◌/◌, ◌^◌, Bool, not, List, [], ◌∷◌, ◌==◌}
use opentherm_thermostat_fir.Prelude.Bits.{bit_and, bit_or}

-- A start '1', the 32 bits of the payload, a stop '1'.
unfoldable pub framed : ℕ → ℕ
framed payload = bit_or (bit_or (2 ^ 33) (payload * 2)) 1

unfoldable pub bit_at : ℕ → ℕ → Bool
bit_at bits n = not (bit_and (bits / 2 ^ n) 1 == 0)

-- The loop of ot_encode_frame() with `n` bits to go: the first half is the bit, the second its
-- negation.
unfoldable pub emit : ℕ → ℕ → List Bool
emit zero bits = []
emit (suc n) bits = bit_at bits n ∷ not (bit_at bits n) ∷ emit n bits

unfoldable pub encode_frame : ℕ → List Bool
encode_frame payload = emit 34 (framed payload)
