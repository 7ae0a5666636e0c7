-- ===== src/Http/Tokens.antt =====
-- httpapi/middleware.go: the token middleware for the routes that a deployment mounts.
pub mod Gates
pub mod Scopes
pub mod Staff
use Prim.Native.String.{◌++◌}
use orbit_api_gateway.Base.{
  ℕ, String, Bool, true, false, not, ◌&&◌, ◌||◌, Option, none, some, List, [], ◌∷◌, ◌==◌, any,
  if◌then◌else◌,
}
use orbit_api_gateway.Base.Map.{Map, lookup}
use orbit_api_gateway.Base.Strings.{trim_space, to_lower, has_prefix, cut_prefix}
use orbit_api_gateway.Json.{Json, str, bool}
use orbit_api_gateway.Domain.Runtime.{Runtime, Time}
use orbit_api_gateway.Domain.Failure.{ok, err}
use orbit_api_gateway.Domain.Auth.{ApiIdentity}
use orbit_api_gateway.World.{World, Ports, Tick}
use orbit_api_gateway.Service.Passed.{validate_api_token}
use orbit_api_gateway.Http.Message.{
  StaffIdentity, Context, Request, Response, Conn, HandlerFunc, get_header, set_request_header,
}
use orbit_api_gateway.Http.Response.{write_json, error_body}

-- `TokenAuth`; `audited` says whether the service has an audit store.
pub record TokenAuth : Type 0 where
  pub ports : Ports
  pub audited : Bool
  pub secret : String
  pub staff_secret : String

-- `NewTokenAuth`
unfoldable pub new_token_auth : Ports → Bool → String → TokenAuth
new_token_auth ports audited secret = record {
  ports = ports;
  audited = audited;
  secret = secret;
  staff_secret = secret;
}

-- `WithStaffSecret`
unfoldable pub with_staff_secret : String → TokenAuth → TokenAuth
with_staff_secret staff_secret a =
    if staff_secret == "" then a else record a { staff_secret = staff_secret }

abbrev pub Claims : Type 0
Claims = Map Json

-- `claims[name].(string)`, and the zero value where the assertion fails.
unfoldable pub claim_text : String → Claims → String
unfolding lookup
claim_text name claims = elim (lookup name claims) [ some (str s) ↦ s | _ ↦ "" ]

-- `claims[name].(bool)`, and the zero value where the assertion fails.
unfoldable pub claim_flag : String → Claims → Bool
unfolding lookup
claim_flag name claims = elim (lookup name claims) [ some (bool b) ↦ b | _ ↦ false ]

-- The first of three texts that is not empty.
abbrev first_filled : String → String → String → String
first_filled a b c = if not (a == "") then a else if not (b == "") then b else c

-- `extractStaffIdentity`
unfoldable pub extract_staff_identity : Claims → StaffIdentity
unfolding claim_text claim_flag
extract_staff_identity claims =
    let subject = claim_text "staff_subject" claims in
    let is_staff = not (subject == "") || claim_flag "is_staff" claims in
    record {
      staff_subject = if is_staff && subject == "" then claim_text "sub" claims else subject;
      is_staff = is_staff;
      break_glass = claim_flag "break_glass" claims;
      break_glass_reason = claim_text "reason" claims;
      target_org_id =
          first_filled (claim_text "org" claims) (claim_text "org_id" claims)
            (claim_text "target_org" claims);
    }

-- The context of a staff member, in `enrichContext`.
unfoldable pub staff_context : StaffIdentity → String → Context → Context
staff_context staff subject ctx = record ctx {
  user_id = subject;
  is_staff = true;
  staff_subject = if not (staff.staff_subject == "") then staff.staff_subject else subject;
  break_glass = staff.break_glass;
  break_glass_reason = staff.break_glass_reason;
  staff_identity = some staff;
  target_org = if not (staff.target_org_id == "") then staff.target_org_id else ctx.target_org;
}

-- `enrichContext`
unfoldable pub enrich_context : Claims → String → Context → Context
unfolding extract_staff_identity staff_context
enrich_context claims subject ctx =
    let staff = extract_staff_identity claims in
    if staff.is_staff
    then staff_context staff subject ctx
    else record ctx { user_id = subject; is_staff = false }

-- `scopesAllow`, of one scope.
unfoldable pub scope_allows : Runtime → Bool → String → Bool
unfolding trim_space to_lower
scope_allows rt need_write scope =
    let s = to_lower rt.wide_lower (trim_space scope) in
    if need_write then s == "write" else s == "read" || s == "write"

-- `needWrite` of `scopesAllow`
unfoldable pub needs_write : String → Bool
needs_write method = not (method == "GET") && not (method == "HEAD") && not (method == "OPTIONS")

-- `scopesAllow`
unfoldable pub scopes_allow : Runtime → String → List String → Bool
unfolding needs_write scope_allows
scopes_allow rt method [] = true
scopes_allow rt method (s ∷ ss) = any (scope_allows rt (needs_write method)) (s ∷ ss)

-- A response after which the middleware returns, on a world.
abbrev pub refuse : ℕ → String → World → Conn → Conn
refuse status message world c = record {
  world = world;
  response = write_json status (error_body message) c.response;
}

module _ (a : TokenAuth) (tick : Tick) where
  -- One round of `parseToken`: golang-jwt decodes the token, the key function and the list of
  -- valid methods admit HS256 only, and the signature and the time claims must hold.
  unfoldable pub parse_with : String → String → Option Claims
  parse_with secret token = if secret == "" then none else elim (a.ports.runtime.jwt_decode token) [
    | none ↦ none
    | some (alg, claims) ↦
        if alg == "HS256"
          && a.ports.runtime.jwt_signed secret token
          && a.ports.runtime.jwt_current tick.now claims
        then some claims
        else none
  ]

  -- `parseToken`: the staff secret is tried second, where it is set and another one.
  unfoldable pub parse_token : String → Option Claims
  unfolding parse_with
  parse_token token = elim (parse_with a.secret token) [
    | some claims ↦ some claims
    | none ↦
        if not (a.staff_secret == "") && not (a.staff_secret == a.secret)
        then parse_with a.staff_secret token
        else none
  ]

  -- The subject that `jwtSubject` reads.
  unfoldable pub jwt_subject : Claims → String
  unfolding claim_text
  jwt_subject claims =
      if claim_text "sub" claims == ""
      then claim_text "staff_subject" claims
      else claim_text "sub" claims

  -- No secret is set, so that every request is refused.
  abbrev pub misconfigured : Bool
  misconfigured = a.secret == "" && a.staff_secret == ""
