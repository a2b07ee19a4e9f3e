-- ===== src/Policy/Examples.antt =====
-- Runs of the access rule.
use opentherm_thermostat_fir.Prelude.{◌≡◌, ◌≢◌, true, false, some}
use opentherm_thermostat_fir.Policy.Text.{bytes}
use opentherm_thermostat_fir.Policy.Check.{HttpCtx, post, allow, unauthorized, check}
use opentherm_thermostat_fir.Policy.Access.{IsStranger, password_guards}

abbrev owned : HttpCtx
owned = record { provisioned = true; password_set = true; authenticated = false }

abbrev fresh_device : HttpCtx
fresh_device = record { provisioned = true; password_set = false; authenticated = false }

password_guards_example :
    (IsStranger owned → check post (some (bytes "/api/ota")) owned ≢ allow)
    × (check post (some (bytes "/api/ota")) owned ≡ unauthorized → IsStranger owned)
password_guards_example = password_guards post (some (bytes "/api/ota")) owned
