-- ===== src/Line/Examples.antt =====
-- Runs of the line at the nominal 500 us a half-bit.
use opentherm_thermostat_fir.Prelude.{
  ℕ, zero, suc, ◌+◌, ◌*◌, ◌≤◌, ◌<◌, ◌≡◌, ◌^◌, false, true, Option, none, some, List, [], ◌∷◌, ◌++◌,
  arith, refl,
}
use opentherm_thermostat_fir.Frame.{Frame, write_data}
use opentherm_thermostat_fir.Line.Encode.{encode_frame}
use opentherm_thermostat_fir.Line.Decode.{busy, done, push, push_idle, sample, reset, payload}
use opentherm_thermostat_fir.Line.Sampling.{held, sampled, Paced}
use opentherm_thermostat_fir.Line.Ending.{IsOver, reception_ends}
use opentherm_thermostat_fir.Line.RoundTrip.{payload_received}

-- Every half seen for five samples.
steady : ℕ → List (ℕ × ℕ)
steady zero = []
steady (suc n) = (5, 5) ∷ steady n

steady-Paced : (n prev : ℕ) → 4 ≤ prev → Paced n prev (steady n)
unfolding steady Paced
steady-Paced zero prev h = tt
steady-Paced (suc n) prev h = (
  omega arith,
  omega arith,
  omega arith,
  omega arith,
  omega arith,
  steady-Paced n 5 (omega arith),
)

payload_received_example :
    let d = sample reset (held 3 false ++ sampled (encode_frame 0x90013200) (steady 34)) in
    (d.status ≡ done) × (payload d ≡ 0x90013200)
payload_received_example =
    payload_received 0x90013200 2 (steady 34) (omega arith) (steady-Paced 34 6 (omega arith))

abbrev setpoint : Frame
setpoint = record { kind = write_data; data_id = 1; data_value = 12800 }

-- An edge after which the line stays active.
stuck : (sample reset (false ∷ true ∷ [])).status ≡ busy
unfolding sample reset push push_idle
stuck = refl

length-held : (n : ℕ) → n ≤ opentherm_thermostat_fir.Prelude.length (held n true)
unfolding held
length-held zero = omega arith
length-held (suc n) = omega (arith, length-held n)

reception_ends_example : IsOver (sample reset ((false ∷ true ∷ []) ++ held 884 true))
reception_ends_example = reception_ends (false ∷ true ∷ []) (held 884 true) stuck (length-held 884)
