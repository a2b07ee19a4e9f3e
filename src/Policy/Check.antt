-- ===== src/Policy/Check.antt =====
-- The access rule: ot_http_check(), ot_http_check_op() and ot_http_content_type_ok().
use opentherm_thermostat_fir.Prelude.{
  ℕ, Bool, true, false, not, ◌&&◌, ◌||◌, ◌==◌, ltb, length, Option, none, some, List, [], ◌∷◌,
  if◌then◌else◌,
}
use opentherm_thermostat_fir.Policy.Text.{bytes, same, after_prefix, to_lower, as_is}

-- `ot_http_method_t`.
pub data HttpMethod : Type 0 where
  get post other : HttpMethod

-- `ot_http_ctx_t`.
pub record HttpCtx : Type 0 where
  pub provisioned : Bool
  pub password_set : Bool
  pub authenticated : Bool

-- `ot_http_decision_t`.
pub data Decision : Type 0 where
  allow unauthorized forbidden : Decision

unfoldable pub path_is : Option (List ℕ) → List ℕ → Bool
path_is none expected = false
path_is (some path) expected = same path expected

-- `prefix[n - 1] == '/'`, false for the empty prefix.
unfoldable pub ends_in_slash : List ℕ → Bool
ends_in_slash [] = false
ends_in_slash (c ∷ []) = c == b'/'
ends_in_slash (c ∷ d ∷ cs) = ends_in_slash (d ∷ cs)

unfoldable pub path_under : Option (List ℕ) → List ℕ → Bool
path_under none stem = false
path_under (some path) stem =
    let (found, rest) = after_prefix as_is stem path in
    ends_in_slash stem && (found && ltb 0 (length rest))

unfoldable pub path_is_a_command : Option (List ℕ) → Bool
path_is_a_command path =
    path_under path (bytes "/api/entities/") || path_under path (bytes "/api/ops/")

abbrev pub if_authenticated : HttpCtx → Decision
if_authenticated ctx = if ctx.authenticated then allow else unauthorized

-- The device has no network yet.
unfoldable pub check_unprovisioned : Option (List ℕ) → HttpCtx → Decision
check_unprovisioned path ctx =
    if not (path_is path (bytes "/api/provision"))
    then forbidden
    else if ctx.password_set
    then if_authenticated ctx
    else allow

-- The writes that get through before a password exists.
unfoldable pub is_exempt : Option (List ℕ) → Bool
is_exempt path =
    path_is path (bytes "/api/config")
    || (path_is_a_command path || path_is path (bytes "/api/ws-ticket"))

unfoldable pub check : HttpMethod → Option (List ℕ) → HttpCtx → Decision
check method none ctx = forbidden
check get (some path) ctx = if not ctx.password_set then allow else if_authenticated ctx
check other (some path) ctx = forbidden
check post (some path) ctx =
    if not ctx.provisioned
    then check_unprovisioned (some path) ctx
    else if not ctx.password_set
    then (if is_exempt (some path) then allow else forbidden)
    else if_authenticated ctx

unfoldable pub check_op : Bool → Bool → Decision
check_op halts_bus password_set =
    if not halts_bus then allow else if password_set then allow else forbidden

-- `while (*content_type == ' ' || *content_type == '\t') content_type++;`
unfoldable pub skip_blanks : List ℕ → List ℕ
skip_blanks [] = []
skip_blanks (c ∷ cs) = let rest = skip_blanks cs in if c == 32 || c == 9 then rest else c ∷ cs

-- What may follow the media type.
unfoldable pub ends_media_type : List ℕ → Bool
ends_media_type [] = true
ends_media_type (c ∷ cs) = c == b';' || (c == 32 || c == 9)

unfoldable pub content_type_ok : Option (List ℕ) → Bool
content_type_ok none = false
content_type_ok (some text) =
    let (found, rest) = after_prefix to_lower (bytes "application/json") (skip_blanks text) in
    found && ends_media_type rest
