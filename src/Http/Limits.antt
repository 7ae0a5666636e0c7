-- ===== src/Http/Limits.antt =====
-- The budgets of the routes: `wrap` of httpapi/handlers.go, and `wrapIP`, `wrapOrg`,
-- `applyRouteLimit`, `checkOrgLimit` and `requireBearer` of httpapi/orgs.go.
pub mod Denial
use orbit_api_gateway.Base.{ℕ, String, Bool, Option, none, some, ◌==◌, if◌then◌else◌}
use orbit_api_gateway.Base.Strings.{trim_space, cut_prefix}
use orbit_api_gateway.Domain.Ratelimit.{Policy, Decision, ip_route_policy, org_route_policy}
use orbit_api_gateway.Domain.Failure.{ok, err}
use orbit_api_gateway.RateLimit.{key_for_ip, key_for_org}
use orbit_api_gateway.World.{Ports, Limiter, Op}
use orbit_api_gateway.Service.Limits.{check_class_limit, check_key_limit}
use orbit_api_gateway.Http.Message.{
  Request, HandlerFunc, Part, go, answer, call, respond, ◌>>=◌, get_header, path_value,
}
use orbit_api_gateway.Http.Response.{
  write_json, error_body, write_limit_error, set_rate_limit_headers,
}
use orbit_api_gateway.Http.Client.{client_ip}

-- The `handlers` struct: the service's ports and the proxy setting.
pub record Edge : Type 0 where
  pub ports : Ports
  pub trust_proxy : Bool
  pub auth_http_url : String

-- A handler behind one check of a budget.
unfoldable pub limited : Op Decision → HandlerFunc → HandlerFunc
unfolding write_limit_error set_rate_limit_headers
limited check next r c =
    let (res, world) = check c.world in
    elim res [
      | ok d ↦ next r (record { world = world; response = set_rate_limit_headers d c.response })
      | err f ↦ record { world = world; response = write_limit_error f c.response }
    ]

module _ (edge : Edge) where
  -- `wrap`
  unfoldable pub wrap : String → HandlerFunc → HandlerFunc
  unfolding limited check_class_limit
  wrap class next r c = elim edge.ports.limiter [
    | none ↦ next r c
    | some limiter ↦
        limited (check_class_limit limiter class (client_ip edge.trust_proxy r)) next r c
  ]

  -- `applyRouteLimit`: an empty key is not passed to the limiter.
  unfoldable pub apply_route_limit : Limiter → String → Policy → HandlerFunc → HandlerFunc
  unfolding limited check_key_limit
  apply_route_limit limiter key policy next r c =
      if key == "" then next r c else limited (check_key_limit limiter key policy) next r c

  -- `wrapIP`
  unfoldable pub wrap_ip : String → ℕ → HandlerFunc → HandlerFunc
  unfolding apply_route_limit
  wrap_ip route limit next r c = elim edge.ports.limiter [
    | none ↦ next r c
    | some limiter ↦
        apply_route_limit limiter
          (key_for_ip edge.ports.runtime (client_ip edge.trust_proxy r) route)
          (ip_route_policy route limit) next r c
  ]

  -- `wrapOrg`
  unfoldable pub wrap_org : String → HandlerFunc → HandlerFunc
  unfolding apply_route_limit
  wrap_org route next r c = elim edge.ports.limiter [
    | none ↦ next r c
    | some limiter ↦
        apply_route_limit limiter (key_for_org edge.ports.runtime (path_value "org_id" r) route)
          (org_route_policy route) next r c
  ]

  -- The check of `checkOrgLimit`, under a limiter.
  unfoldable pub charge_org : Limiter → String → String → Part (Unit {0})
  unfolding check_key_limit write_limit_error set_rate_limit_headers
  charge_org limiter org_id route =
      let key = key_for_org edge.ports.runtime org_id route in
      if key == "" then respond (λ w. w) else do
        d ← call write_limit_error (check_key_limit limiter key (org_route_policy route))
        respond (set_rate_limit_headers d)

  -- `checkOrgLimit`
  unfoldable pub check_org_limit : String → String → Part (Unit {0})
  unfolding charge_org
  check_org_limit org_id route c = elim edge.ports.limiter [
    | none ↦ go tt c
    | some limiter ↦ charge_org limiter org_id route c
  ]

abbrev missing_bearer : {A : Type 0} → Part A
missing_bearer = answer (write_json 401 (error_body "missing bearer token"))

-- The token of an "Authorization" header, trimmed; `none` where there is none or it is blank.
unfoldable pub bearer_token : String → Option String
unfolding cut_prefix trim_space
bearer_token authorization = elim (cut_prefix authorization "Bearer ") [
  | none ↦ none
  | some rest ↦ if trim_space rest == "" then none else some (trim_space rest)
]

-- `requireBearer`
unfoldable pub require_bearer : Request → Part String
unfolding bearer_token write_json
require_bearer r c = elim (bearer_token (get_header "Authorization" r)) [
  | none ↦ missing_bearer c
  | some token ↦ go token c
]
