-- ===== src/Provision/Backoff.antt =====
-- The delay between attempts.
use opentherm_thermostat_fir.Prelude.{ℕ, zero, suc, ◌*◌, ◌^◌, ◌≤◌, ◌≡◌, min, arith, ap}
use native.Mathlib.Nat.{pow-suc, one-le-pow}
use opentherm_thermostat_fir.Provision.Types.{Prov}
use opentherm_thermostat_fir.Provision.Retry.{doubled, backoff_ms}

grown : (d n : ℕ) → d * 2 ^ suc n ≡ d * 2 * 2 ^ n
grown d n = omega (arith, ap (λ (p : ℕ). d * p) (pow-suc 2 n))

at_least : (d p : ℕ) → 1 ≤ p → d ≤ d * p
at_least d zero h = omega (arith, h)
at_least d (suc p) h = omega (arith)

no_less : (d n : ℕ) → d ≤ d * 2 ^ n
no_less d n = ground (arith, one-le-pow n 2, at_least d (2 ^ n))

doubled-power :
    (n max_ms d : ℕ)
    → max_ms ≤ 2147483648
    → min (doubled n max_ms d) max_ms ≡ min (d * 2 ^ n) max_ms
unfolding doubled
doubled-power zero max_ms d h = ground arith
doubled-power (suc n) max_ms d h =
    ground (arith, doubled-power n max_ms (d * 2), grown d n, no_less d (suc n))

-- The delay doubles from the floor to the ceiling: before the n-th retry it is the floor times 2
-- to the n, and the ceiling where that is more, for every n and any ceiling up to 2^31 ms, with no
-- wrap on the way.
pub backoff_doubles :
    (s : Prov) (n : ℕ)
    → s.cfg.retry_backoff_max_ms ≤ 2147483648
    → backoff_ms s n ≡ min (s.cfg.retry_backoff_min_ms * 2 ^ n) s.cfg.retry_backoff_max_ms
unfolding backoff_ms
backoff_doubles s n h =
    ground (arith, doubled-power n s.cfg.retry_backoff_max_ms s.cfg.retry_backoff_min_ms h)
