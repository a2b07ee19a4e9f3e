-- ===== src/Policy/Access.antt =====
-- Who may do what: the decision against a table of the cases.
use opentherm_thermostat_fir.Prelude.{
  ℕ, ◌≡◌, ◌≢◌, ◌↔◌, ◌⊎◌, true, false, Option, none, some, List, [], ◌∷◌, arith,
}
use opentherm_thermostat_fir.Policy.Text.{bytes, same}
use opentherm_thermostat_fir.Policy.Check.{
  HttpMethod, HttpCtx, get, post, other, allow, unauthorized, path_is, path_is_a_command,
  check_unprovisioned, is_exempt, check,
}

pub same_iff : (a b : List ℕ) → (same a b ≡ true) ↔ (a ≡ b)
unfolding same
same_iff [] [] = ground arith
same_iff [] (y ∷ b) = ground arith
same_iff (x ∷ a) [] = ground arith
same_iff (x ∷ a) (y ∷ b) = ground (arith, same_iff a b)

-- The owner has drawn a boundary and this request does not hold the password.
abbrev pub IsStranger : HttpCtx → Type 0
IsStranger ctx = (ctx.password_set ≡ true) × (ctx.authenticated ≡ false)

-- Once a password exists, no request without it is let through, on any method, on any path, on the
-- owner's network or on the access point; and 401 is answered to such a request only, so that 403
-- is the answer where no password could help.
pub password_guards :
    (method : HttpMethod) (path : Option (List ℕ)) (ctx : HttpCtx)
    → (IsStranger ctx → check method path ctx ≢ allow)
      × (check method path ctx ≡ unauthorized → IsStranger ctx)
unfolding check check_unprovisioned
password_guards method none ctx = ground arith
password_guards get (some path) ctx = ground arith
password_guards other (some path) ctx = ground arith
password_guards post (some path) ctx = ground arith

-- The paths of the writes that need no password on a device that has none.
abbrev pub Exempt : List ℕ → Type 0
Exempt path =
    (path ≡ bytes "/api/config")
    ⊎ (path ≡ bytes "/api/ws-ticket")
    ⊎ (path_is_a_command (some path) ≡ true)

open_iff : (path : List ℕ) → (is_exempt (some path) ≡ true) ↔ Exempt path
unfolding is_exempt path_is
open_iff path =
    ground (arith, same_iff path (bytes "/api/config"), same_iff path (bytes "/api/ws-ticket"))

-- On a device without a password a write is let through in these cases only: before there is a
-- network, to the path that names one; afterwards to the configuration, to the socket's ticket and
-- to the commands of entities and operations. Reading is open.
pub open_device_iff :
    (method : HttpMethod) (path : List ℕ) (ctx : HttpCtx)
    → ctx.password_set ≡ false
    → (check method (some path) ctx ≡ allow) ↔ (
        (method ≡ get)
        ⊎ ((method ≡ post) × (ctx.provisioned ≡ false) × (path ≡ bytes "/api/provision"))
        ⊎ ((method ≡ post) × (ctx.provisioned ≡ true) × Exempt path))
unfolding check check_unprovisioned path_is
open_device_iff get path ctx p = ground arith
open_device_iff other path ctx p = ground arith
open_device_iff post path ctx p =
    ground (arith, same_iff path (bytes "/api/provision"), open_iff path)
