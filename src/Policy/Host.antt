-- ===== src/Policy/Host.antt =====
-- The allowlist of the Host header: ot_http_host_ok().
use opentherm_thermostat_fir.Prelude.{
  ℕ, Bool, true, false, not, ◌&&◌, ◌==◌, leb, length, Option, none, some, List, [], ◌∷◌,
  if◌then◌else◌,
}
use opentherm_thermostat_fir.Policy.Text.{bytes, same}

unfoldable pub all_digits : List ℕ → Bool
all_digits [] = true
all_digits (c ∷ cs) = let rest = all_digits cs in (leb b'0' c && leb c b'9') && rest

-- strrchr(host, ':'): what stands before the last colon, and what after it.
unfoldable pub at_last_colon : List ℕ → Option (List ℕ × List ℕ)
at_last_colon [] = none
at_last_colon (c ∷ cs) = elim (at_last_colon cs) [
  | some (before, after) ↦ some (c ∷ before, after)
  | none ↦ if c == b':' then some ([], cs) else none
]

-- The address without its port.
unfoldable pub without_port : List ℕ → List ℕ
without_port host = elim (at_last_colon host) [
  | none ↦ host
  | some (before, []) ↦ host
  | some (before, d ∷ ds) ↦ if all_digits (d ∷ ds) then before else host
]

-- NULL or the empty string.
abbrev pub is_blank : Option (List ℕ) → Bool
is_blank none = true
is_blank (some []) = true
is_blank (some (c ∷ cs)) = false

abbrev pub is_text : Option (List ℕ) → List ℕ → Bool
is_text none address = false
is_text (some text) address = same address text

unfoldable pub host_ok : Option (List ℕ) → Option (List ℕ) → Bool → Bool
host_ok none sta_ip ap_mode = true
host_ok (some []) sta_ip ap_mode = true
host_ok (some (c ∷ cs)) sta_ip ap_mode =
    let address = without_port (c ∷ cs) in
    if leb 64 (length address)
    then false
    else if not (is_blank sta_ip) && is_text sta_ip address
    then true
    else if ap_mode && same address (bytes "192.168.4.1")
    then true
    else is_blank sta_ip
