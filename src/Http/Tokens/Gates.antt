-- ===== src/Http/Tokens/Gates.antt =====
-- The handlers of httpapi/middleware.go that let a request through: `Dual`, `JWT` and
-- `RequireStaff`.
pub mod Admission
pub mod Caller
pub mod Staffing
use orbit_api_gateway.Base.{String, false, not, none, some, ◌==◌, if◌then◌else◌}
use orbit_api_gateway.Base.Strings.{has_prefix, cut_prefix}
use orbit_api_gateway.Domain.Failure.{ok, err}
use orbit_api_gateway.Domain.Auth.{ApiIdentity}
use orbit_api_gateway.World.{Tick}
use orbit_api_gateway.Service.Passed.{validate_api_token}
use orbit_api_gateway.Http.Message.{Request, HandlerFunc, get_header, set_request_header}
use orbit_api_gateway.Http.Tokens.{
  TokenAuth, Claims, claim_text, extract_staff_identity, enrich_context, scopes_allow, refuse,
  parse_token, jwt_subject, misconfigured,
}

-- The request that `Dual` hands on for an API token.
unfoldable pub with_api_identity : ApiIdentity → Request → Request
unfolding set_request_header
with_api_identity identity r =
    let r' = set_request_header "X-User-Id" identity.user_id r in
    record r' {
      context = record r.context {
        user_id = identity.user_id;
        is_staff = false;
        scopes = some identity.scopes;
      };
    }

-- A request with the claims of a token in its context.
unfoldable pub with_claims : Claims → String → Request → Request
unfolding enrich_context
with_claims claims subject r = record r { context = enrich_context claims subject r.context }

module _ (a : TokenAuth) (tick : Tick) where
  -- `Dual`, for a token that begins with "oat_".
  unfoldable pub api_token_gate : String → HandlerFunc → HandlerFunc
  unfolding validate_api_token scopes_allow with_api_identity
  api_token_gate token next r c =
      let (res, world) = validate_api_token a.ports token c.world in
      elim res [
        | err f ↦ refuse 401 "invalid token" world c
        | ok identity ↦
            if scopes_allow a.ports.runtime r.method identity.scopes
            then next (with_api_identity identity r) (record c { world = world })
            else refuse 403 "insufficient scope" world c
      ]

  -- `Dual`, for any other token.
  unfoldable pub dual_jwt_gate : String → HandlerFunc → HandlerFunc
  unfolding parse_token jwt_subject with_claims set_request_header
  dual_jwt_gate token next r c = elim (parse_token a tick token) [
    | none ↦ refuse 401 "invalid token" c.world c
    | some claims ↦
        let subject = jwt_subject a tick claims in
        next (with_claims claims subject (set_request_header "X-User-Id" subject r)) c
  ]

  -- `Dual`
  unfoldable pub dual : HandlerFunc → HandlerFunc
  unfolding api_token_gate dual_jwt_gate cut_prefix has_prefix
  dual next r c =
      if misconfigured a tick
      then refuse 500 "auth misconfigured" c.world c
      else elim (cut_prefix (get_header "Authorization" r) "Bearer ") [
        | none ↦ refuse 401 "missing bearer token" c.world c
        | some token ↦
            if has_prefix token "oat_"
            then api_token_gate token next r c
            else dual_jwt_gate token next r c
      ]

  -- `JWT`
  unfoldable pub jwt : HandlerFunc → HandlerFunc
  unfolding parse_token jwt_subject with_claims cut_prefix
  jwt next r c =
      if misconfigured a tick
      then refuse 500 "auth misconfigured" c.world c
      else elim (cut_prefix (get_header "Authorization" r) "Bearer ") [
        | none ↦ refuse 401 "missing bearer token" c.world c
        | some token ↦ elim (parse_token a tick token) [
          | none ↦ refuse 401 "invalid token" c.world c
          | some claims ↦ next (with_claims claims (jwt_subject a tick claims) r) c
        ]
      ]

  -- The subject that `RequireStaff` puts into the context.
  unfoldable pub staff_token_subject : Claims → String
  unfolding extract_staff_identity claim_text
  staff_token_subject claims =
      if claim_text "sub" claims == ""
      then (extract_staff_identity claims).staff_subject
      else claim_text "sub" claims

  -- `RequireStaff`, from the claims of the token on.
  unfoldable pub staff_claims_gate : Claims → HandlerFunc → HandlerFunc
  unfolding staff_token_subject with_claims
  staff_claims_gate claims next r c =
      if (extract_staff_identity claims).is_staff
      then next (with_claims claims (staff_token_subject claims) r) c
      else refuse 403 "staff access required" c.world c

  -- `RequireStaff`, for a request that no other gate has authenticated.
  unfoldable pub staff_token_gate : HandlerFunc → HandlerFunc
  unfolding staff_claims_gate parse_token cut_prefix
  staff_token_gate next r c = elim (cut_prefix (get_header "Authorization" r) "Bearer ") [
    | none ↦ refuse 401 "missing bearer token" c.world c
    | some token ↦ elim (parse_token a tick token) [
      | none ↦ refuse 401 "invalid token" c.world c
      | some claims ↦ staff_claims_gate claims next r c
    ]
  ]

  -- `RequireStaff`
  unfoldable pub require_staff : HandlerFunc → HandlerFunc
  unfolding staff_token_gate
  require_staff next r c =
      if misconfigured a tick
      then refuse 500 "auth misconfigured" c.world c
      else if r.context.is_staff
      then next r c
      else if not (r.context.user_id == "")
      then refuse 403 "staff access required" c.world c
      else staff_token_gate next r c

-- `StaffAuth`
pub record StaffAuth : Type 0 where
  pub token_auth : TokenAuth

-- `NewStaffAuth`
unfoldable pub new_staff_auth : TokenAuth → StaffAuth
new_staff_auth a = record { token_auth = a }

-- `StaffAuth.Wrap`
unfoldable pub wrap_staff : StaffAuth → Tick → HandlerFunc → HandlerFunc
unfolding require_staff
wrap_staff s tick next = require_staff s.token_auth tick next
