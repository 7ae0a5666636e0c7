-- ===== src/Http/Routes.antt =====
-- `New` of httpapi/server.go: the patterns that the edge registers, each with its handler. The
-- choice of a pattern for a request is net/http's, and so is the panic when two patterns are one.
pub mod Table
pub mod Walk
use orbit_api_gateway.Base.{String, Bool, Option, List, [], ◌∷◌, ◌++◌, if◌then◌else◌}
use orbit_api_gateway.Domain.Ratelimit.{
  class_auth_otp_request, class_auth_otp_verify, class_auth_password, class_auth_refresh,
  class_ownership_challenge, class_ownership_verify, class_dev_onboard_claim, class_admin_challenge,
  class_admin_verify, class_onboard_claim, signup_ip_limit, invite_accept_ip_limit,
  tenant_resolve_ip_limit, org_route_limit,
}
use orbit_api_gateway.Service.Wiring.{
  Service, has_auth, has_signup, has_flags, has_orgs, has_tenants,
}
use orbit_api_gateway.World.{Tick}
use orbit_api_gateway.Http.Names.{
  get_of, route_signup, route_signup_verify, route_org_list, route_org_create, route_org_members,
  route_org_member_role, route_org_slug, route_tenant_resolve, route_org_invites,
  route_org_invite_rev, route_invite_accept, route_flags,
}
use orbit_api_gateway.Http.Message.{HandlerFunc}
use orbit_api_gateway.Http.Limits.{Edge, wrap, wrap_ip, wrap_org}
use orbit_api_gateway.Http.Handlers.Auth.{
  request_otp_route, verify_otp_route, login_route, refresh_token_route, signup_route,
  signup_verify_route,
}
use orbit_api_gateway.Http.Handlers.Ownership.{challenge_route, verify_challenge_route}
use orbit_api_gateway.Http.Handlers.Onboarding.{claim_route}
use orbit_api_gateway.Http.Handlers.Orgs.{
  list_orgs_route, create_org_route, set_org_slug_route, resolve_tenant_route, select_org_route,
}
use orbit_api_gateway.Http.Handlers.Members.{
  list_members_route, add_member_route, remove_member_route, suspend_member_route,
  set_member_role_route, create_invite_route, list_invites_route, revoke_invite_route,
  accept_invite_route,
}
use orbit_api_gateway.Http.Handlers.Static.{health_route, install_route, asset_route, flags_route}

-- Which of the upstream ports are wired: `HasAuth`, `HasSignup`, `HasFlags`, `HasOrgs` and
-- `HasTenants`.
pub record Wired : Type 0 where
  pub auth : Bool
  pub signup : Bool
  pub flags : Bool
  pub orgs : Bool
  pub tenants : Bool

-- The ports that a service has.
abbrev pub wired_ports : Service → Wired
wired_ports svc = record {
  auth = has_auth svc;
  signup = has_signup svc;
  flags = has_flags svc;
  orgs = has_orgs svc;
  tenants = has_tenants svc;
}

-- What the assets hold: the installer, and the two files where they can be read.
pub record Assets : Type 0 where
  pub install_script : String
  pub openapi_spec : Option String
  pub manifest : Option String

pub record Route : Type 0 where
  pub pattern : String
  pub handler : HandlerFunc

abbrev route : String → HandlerFunc → Route
route pattern handler = record { pattern = pattern; handler = handler }

abbrev pub when : Bool → List Route → List Route
when b rs = if b then rs else []

module _ (edge : Edge) (tick : Tick) where
  unfoldable pub auth_routes : List Route
  auth_routes =
      route "POST /api/v1/auth/otp/request"
        (wrap edge class_auth_otp_request (request_otp_route edge))
      ∷ route "POST /api/v1/auth/otp/verify"
          (wrap edge class_auth_otp_verify (verify_otp_route edge))
      ∷ route "POST /api/v1/auth/login" (wrap edge class_auth_password (login_route edge))
      ∷ route "POST /api/v1/auth/token/refresh"
          (wrap edge class_auth_refresh (refresh_token_route edge))
      ∷ []

  unfoldable pub signup_routes : List Route
  signup_routes =
      route "POST /api/v1/auth/signup"
        (wrap_ip edge route_signup signup_ip_limit (signup_route edge))
      ∷ route "POST /api/v1/auth/signup/verify"
          (wrap_ip edge route_signup_verify signup_ip_limit (signup_verify_route edge))
      ∷ []

  unfoldable pub flag_routes : List Route
  flag_routes =
      route (get_of route_flags) (wrap_ip edge route_flags org_route_limit (flags_route edge)) ∷ []

  unfoldable pub org_routes : List Route
  org_routes =
      route "GET /api/v1/orgs" (wrap_ip edge route_org_list org_route_limit (list_orgs_route edge))
      ∷ route "POST /api/v1/orgs"
          (wrap_ip edge route_org_create org_route_limit (create_org_route edge))
      ∷ route "GET /api/v1/orgs/{org_id}/members"
          (wrap_org edge route_org_members (list_members_route edge))
      ∷ route "POST /api/v1/orgs/{org_id}/members"
          (wrap_org edge route_org_members (add_member_route edge))
      ∷ route "DELETE /api/v1/orgs/{org_id}/members/{user_id}"
          (wrap_org edge route_org_members (remove_member_route edge))
      ∷ route "POST /api/v1/orgs/{org_id}/members/{user_id}/suspend"
          (wrap_org edge route_org_members (suspend_member_route edge))
      ∷ route "PUT /api/v1/orgs/{org_id}/members/{user_id}/role"
          (wrap_org edge route_org_member_role (set_member_role_route edge))
      ∷ route "PUT /api/v1/orgs/{org_id}/slug"
          (wrap_org edge route_org_slug (set_org_slug_route edge))
      ∷ route "POST /api/v1/orgs/{org_id}/invites"
          (wrap_org edge route_org_invites (create_invite_route edge))
      ∷ route "GET /api/v1/orgs/{org_id}/invites"
          (wrap_org edge route_org_invites (list_invites_route edge))
      ∷ route "DELETE /api/v1/orgs/{org_id}/invites/{invite_id}"
          (wrap_org edge route_org_invite_rev (revoke_invite_route edge))
      ∷ route "POST /api/v1/invites/accept"
          (wrap_ip edge route_invite_accept invite_accept_ip_limit (accept_invite_route edge))
      ∷ route "POST /api/v1/session/org" (select_org_route edge)
      ∷ []

  unfoldable pub tenant_routes : List Route
  tenant_routes =
      route (get_of route_tenant_resolve)
        (wrap_ip edge route_tenant_resolve tenant_resolve_ip_limit (resolve_tenant_route edge))
      ∷ []

  unfoldable pub local_routes : Assets → List Route
  local_routes assets =
      route "POST /api/v1/system/ownership/challenge"
        (wrap edge class_ownership_challenge (challenge_route edge tick))
      ∷ route "POST /api/v1/system/ownership/verify"
          (wrap edge class_ownership_verify (verify_challenge_route edge tick))
      ∷ route "POST /api/v1/dev/onboard/claim"
          (wrap edge class_dev_onboard_claim (claim_route edge))
      ∷ route "POST /api/v1/admin/challenge"
          (wrap edge class_admin_challenge (challenge_route edge tick))
      ∷ route "POST /api/v1/admin/verify"
          (wrap edge class_admin_verify (verify_challenge_route edge tick))
      ∷ route "POST /api/v1/onboard/claim" (wrap edge class_onboard_claim (claim_route edge))
      ∷ route "POST /v1/onboard/claim" (wrap edge class_onboard_claim (claim_route edge))
      ∷ route "GET /" (install_route assets.install_script)
      ∷ route "GET /api/v1/openapi/gateway.yaml"
          (asset_route assets.openapi_spec "application/yaml")
      ∷ route "GET /api/v1/openapi/manifest.json" (asset_route assets.manifest "application/json")
      ∷ []

  -- The table that `New` registers.
  unfoldable pub routes : Wired → Assets → List Route
  unfolding auth_routes signup_routes flag_routes org_routes tenant_routes local_routes
  routes wired assets =
      route "GET /healthz" health_route
      ∷ (when wired.auth auth_routes
          ++ (when wired.signup signup_routes
              ++ (when wired.flags flag_routes
                  ++ (when wired.orgs org_routes
                      ++ (when wired.tenants tenant_routes ++ local_routes assets)))))
