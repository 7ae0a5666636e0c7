-- ===== src/Tests/Tokens.antt =====
-- The token middleware and the staff trail.
use orbit_api_gateway.Base.{
  ◌≡◌, ◌↔◌, ◌⊎◌, refl, String, List, true, some, [], ◌∷◌, ◌++◌, arith, eq_iff,
}
use orbit_api_gateway.Base.Strings.{cut_prefix}
use orbit_api_gateway.Memory.Stores.{list_by_org}
use orbit_api_gateway.World.{empty_world}
use orbit_api_gateway.Service.Audit.{record_audit, completed}
use orbit_api_gateway.Http.Message.{get_header}
use orbit_api_gateway.Http.Handlers.Static.{health_route}
use orbit_api_gateway.Json.{bool}
use orbit_api_gateway.Http.Tokens.{
  TokenAuth, Claims, scopes_allow, parse_token, claim_flag, claim_text,
}
use orbit_api_gateway.Http.Tokens.Gates.{dual, jwt, require_staff, with_claims, staff_token_subject}
use orbit_api_gateway.Http.Tokens.Gates.Admission.{Accepted, Gate, ByJwt, parse_token_iff, jwt-Gate}
use orbit_api_gateway.Http.Tokens.Gates.Caller.{Named, dual-Gate}
use orbit_api_gateway.Http.Tokens.Gates.Staffing.{Staff, require_staff-Gate}
use orbit_api_gateway.Http.Tokens.Scopes.{OneGrants, scopes_allow_iff}
use orbit_api_gateway.Http.Tokens.Staff.{handle_staff_break_glass, audit_hook}
use orbit_api_gateway.Http.Tokens.Staff.Recorded.{
  Outcome, require_staff-Outcome, require_staff-unrecorded,
}
use orbit_api_gateway.Http.Tokens.Staff.Trail.{
  BreakGlass, handle_staff_break_glass-BreakGlass, list-record,
}
use orbit_api_gateway.Tests.Samples.{
  sample_runtime, sample_ports, staff_claims, noon, conn, request, staff_request, auth, entry,
}

parse_token_iff_example : (parse_token auth noon "staff" ≡ some staff_claims) ↔ (
    Accepted auth noon "ordinary" "staff" staff_claims
    ⊎ Accepted auth noon "distinct" "staff" staff_claims)
parse_token_iff_example = parse_token_iff auth noon "staff" staff_claims

jwt-Gate_example : Gate (ByJwt auth noon request empty_world) (jwt auth noon) request conn
jwt-Gate_example = jwt-Gate auth noon request conn

dual-Gate_example : Gate (Named auth noon request empty_world) (dual auth noon) request conn
dual-Gate_example = dual-Gate auth noon request conn

require_staff-Gate_example :
    Gate (Staff auth noon request conn) (require_staff auth noon) request conn
require_staff-Gate_example = require_staff-Gate auth noon request conn

ordinary-Accepted : Accepted auth noon "ordinary" "staff" staff_claims
ordinary-Accepted = record {
  configured = ground (arith, eq_iff "ordinary" "");
  decoded = refl;
  signed = refl;
  current = refl;
}

require_staff-Outcome_example :
    Outcome auth noon health_route staff_request conn
      (require_staff auth noon (audit_hook auth noon health_route) staff_request conn)
require_staff-Outcome_example = require_staff-Outcome auth noon health_route staff_request conn refl

abbrev nameless_claims : Claims
nameless_claims = ("is_staff", bool true) ∷ []

-- Every token decodes to claims that name nobody.
abbrev nameless_auth : TokenAuth
nameless_auth = record auth {
  ports = record sample_ports {
    runtime = record sample_runtime { jwt_decode = λ token. some ("HS256", nameless_claims) };
  };
}

require_staff-unrecorded_example :
    require_staff nameless_auth noon (audit_hook nameless_auth noon health_route) request conn
    ≡ health_route
        (with_claims nameless_claims
          (staff_token_subject nameless_auth noon nameless_claims)
          request)
        conn
unfolding get_header cut_prefix parse_token claim_flag claim_text
require_staff-unrecorded_example =
    require_staff-unrecorded nameless_auth noon health_route request conn "staff" nameless_claims
      refl refl refl refl refl refl refl

handle_staff_break_glass-BreakGlass_example :
    BreakGlass noon staff_request conn (handle_staff_break_glass auth noon staff_request conn)
handle_staff_break_glass-BreakGlass_example =
    handle_staff_break_glass-BreakGlass auth noon staff_request conn refl

abbrev org : String
org = "org-1"

list-record_example :
    (((org ≡ "") ⊎ (org ≡ entry.org_id))
      × (list_by_org org (record_audit noon entry empty_world).audit
          ≡ list_by_org org [] ++ completed noon entry ∷ []))
    ⊎ ((¬ (org ≡ ""))
        × (¬ (org ≡ entry.org_id))
        × (list_by_org org (record_audit noon entry empty_world).audit ≡ list_by_org org []))
list-record_example = list-record noon entry org empty_world

scopes_allow_iff_example : (scopes_allow sample_runtime "HEAD" ("admin" ∷ " Read" ∷ []) ≡ true) ↔ (
    ◌≡◌ {A = List String} ("admin" ∷ " Read" ∷ []) []
    ⊎ OneGrants sample_runtime "HEAD" ("admin" ∷ " Read" ∷ []))
scopes_allow_iff_example = scopes_allow_iff sample_runtime "HEAD" ("admin" ∷ " Read" ∷ [])
