-- ===== src/Policy/Address.antt =====
-- The device's own address passes, with and without a port, and a foreign name does not.
use opentherm_thermostat_fir.Prelude.{
  ℕ, ◌<◌, ◌≡◌, ◌≢◌, ◌↔◌, ◌⊎◌, Bool, true, none, some, List, [], ◌∷◌, ◌++◌, arith, refl, length, All,
}
use opentherm_thermostat_fir.Policy.Text.{bytes}
use opentherm_thermostat_fir.Policy.Host.{all_digits, at_last_colon, without_port, host_ok}
use opentherm_thermostat_fir.Policy.Access.{same_iff}

-- No colon among the bytes.
abbrev pub Colonless : List ℕ → Type 0
Colonless text = All (λ c. c ≢ b':') text

no_colon_found : (text : List ℕ) → Colonless text → at_last_colon text ≡ none
unfolding at_last_colon
no_colon_found [] n = refl
no_colon_found (c ∷ cs) n = rw (no_colon_found cs n.1) (ground (arith, n.0))

digits-Colonless : (ds : List ℕ) → all_digits ds ≡ true → Colonless ds
unfolding all_digits
digits-Colonless [] d = tt
digits-Colonless (c ∷ cs) d = (ground (arith, d), digits-Colonless cs (ground (arith, d)))

colon_found :
    (text ds : List ℕ) → Colonless ds → at_last_colon (text ++ (b':' ∷ ds)) ≡ some (text, ds)
unfolding at_last_colon
colon_found [] ds n = rw (no_colon_found ds n) refl
colon_found (c ∷ cs) ds n = rw (colon_found cs ds n) refl

port_stripped :
    (text : List ℕ) (d : ℕ) (ds : List ℕ)
    → all_digits (d ∷ ds) ≡ true
    → without_port (text ++ (b':' ∷ d ∷ ds)) ≡ text
unfolding without_port
port_stripped text d ds n =
    rw (without_port, colon_found text (d ∷ ds) (digits-Colonless (d ∷ ds) n), n) refl

plain_kept : (text : List ℕ) → Colonless text → without_port text ≡ text
unfolding without_port
plain_kept text n = rw (without_port, no_colon_found text n) refl

-- A page under a foreign name is kept out and the owner is not: for a device that knows its own
-- address, a Host of fewer than 64 bytes without a colon is let through exactly when it is that
-- address or, while the access point is on the air, 192.168.4.1; and a port after it, of any
-- number of digits, changes nothing.
pub host_iff :
    (c d i : ℕ) (cs ds ip : List ℕ) (ap_mode : Bool)
    → Colonless (c ∷ cs)
    → length (c ∷ cs) < 64
    → all_digits (d ∷ ds) ≡ true
    → ((host_ok (some (c ∷ cs)) (some (i ∷ ip)) ap_mode ≡ true)
        ↔ ((c ∷ cs ≡ i ∷ ip) ⊎ ((ap_mode ≡ true) × (c ∷ cs ≡ bytes "192.168.4.1"))))
      × (host_ok (some (c ∷ (cs ++ (b':' ∷ d ∷ ds)))) (some (i ∷ ip)) ap_mode
          ≡ host_ok (some (c ∷ cs)) (some (i ∷ ip)) ap_mode)
unfolding host_ok
host_iff c d i cs ds ip ap_mode plain short port = (
  rw (plain_kept (c ∷ cs) plain)
      (ground (arith, short, same_iff (c ∷ cs) (i ∷ ip), same_iff (c ∷ cs) (bytes "192.168.4.1"))),
  rw (plain_kept (c ∷ cs) plain, port_stripped (c ∷ cs) d ds port) refl,
)
