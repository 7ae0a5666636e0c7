-- ===== src/Http/Routes/Walk.antt =====
-- A property of handlers that each route of the table has: what is to be shown of the handlers that
-- `New` of httpapi/server.go puts behind a budget, of the budgets, and of the other handlers.
use orbit_api_gateway.Base.{
  ◌≡◌, sym, String, Bool, true, false, Option, none, some, List, [], ◌∷◌, ◌++◌, ℕ, zero, suc,
}
use orbit_api_gateway.World.{Tick}
use orbit_api_gateway.Http.Message.{HandlerFunc}
use orbit_api_gateway.Http.Limits.{Edge, wrap, wrap_ip, wrap_org}
use orbit_api_gateway.Http.Handlers.Auth.{
  request_otp_route, verify_otp_route, login_route, refresh_token_route, signup_route,
  signup_verify_route,
}
use orbit_api_gateway.Http.Handlers.Ownership.{challenge_route, verify_challenge_route}
use orbit_api_gateway.Http.Handlers.Onboarding.{claim_route}
use orbit_api_gateway.Http.Handlers.Orgs.{resolve_tenant_route, select_org_route}
use orbit_api_gateway.Http.Handlers.Static.{health_route, install_route, asset_route, flags_route}
use orbit_api_gateway.Http.Handlers.Callers.{
  OrgRoute, handler_of, on_orgs, on_create, on_slug, on_members, on_add, on_remove, on_suspend,
  on_role, on_invites, on_invite, on_revoke, on_accept,
}
use orbit_api_gateway.Http.Routes.{
  Wired, Assets, Route, when, auth_routes, signup_routes, flag_routes, org_routes, tenant_routes,
  local_routes, routes,
}

infixr 4 ◌▹◌
pub data AllServe (Q : HandlerFunc → Type 0) : List Route → Type 0 where
  all_served : AllServe Q []
  ◌▹◌ :
      {route : Route} {routes : List Route}
      → Q route.handler
      → AllServe Q routes
      → AllServe Q (route ∷ routes)

append-AllServe :
    (Q : HandlerFunc → Type 0) (rs ss : List Route)
    → AllServe Q rs
    → AllServe Q ss
    → AllServe Q (rs ++ ss)
append-AllServe Q [] ss here there = there
append-AllServe Q (r ∷ rs) ss (serves ▹ here) there = serves ▹ append-AllServe Q rs ss here there

when-AllServe :
    (Q : HandlerFunc → Type 0) (b : Bool) (rs : List Route) → AllServe Q rs → AllServe Q (when b rs)
when-AllServe Q true rs here = here
when-AllServe Q false rs here = all_served

-- The route at a position of the table.
abbrev pub route_at : ℕ → List Route → Option Route
route_at n [] = none
route_at zero (r ∷ rs) = some r
route_at (suc n) (r ∷ rs) = route_at n rs

-- The handler at a position has what all have.
pub served_at :
    (Q : HandlerFunc → Type 0) (n : ℕ) (rs : List Route) (route : Route)
    → AllServe Q rs
    → route_at n rs ≡ some route
    → Q route.handler
served_at Q n [] route serve e = absurd (cc e)
served_at Q zero (r ∷ rs) route (serves ▹ _) e = let same : r ≡ route = cc in rw (sym same) serves
served_at Q (suc n) (r ∷ rs) route (_ ▹ serve) e = served_at Q n rs route serve e

-- What is to be shown of the handlers: of those behind a budget, that they have the inner property;
-- of a budget before such a handler, and of the handlers without a budget, the outer one.
pub record IsServed (edge : Edge) (tick : Tick) (Inner Outer : HandlerFunc → Type 0) : Type 0 where
  pub by_class : (class : String) (next : HandlerFunc) → Inner next → Outer (wrap edge class next)
  pub by_ip :
      (route : String) (limit : ℕ) (next : HandlerFunc)
      → Inner next
      → Outer (wrap_ip edge route limit next)
  pub by_org : (route : String) (next : HandlerFunc) → Inner next → Outer (wrap_org edge route next)
  pub request_otp : Inner (request_otp_route edge)
  pub verify_otp : Inner (verify_otp_route edge)
  pub login : Inner (login_route edge)
  pub refresh_token : Inner (refresh_token_route edge)
  pub signup : Inner (signup_route edge)
  pub signup_verify : Inner (signup_verify_route edge)
  pub flags : Inner (flags_route edge)
  pub on_org : (route : OrgRoute) → Inner (handler_of edge route)
  pub resolve_tenant : Inner (resolve_tenant_route edge)
  pub challenge : Inner (challenge_route edge tick)
  pub verify_challenge : Inner (verify_challenge_route edge tick)
  pub claim : Inner (claim_route edge)
  pub select_org : Outer (select_org_route edge)
  pub health : Outer health_route
  pub install : (script : String) → Outer (install_route script)
  pub asset : (body : Option String) (type : String) → Outer (asset_route body type)

module _ (edge : Edge) (tick : Tick) {Inner Outer : HandlerFunc → Type 0}
    (served : IsServed edge tick Inner Outer) where
  auth_routes-AllServe : AllServe Outer (auth_routes edge tick)
  unfolding auth_routes
  auth_routes-AllServe =
      served.by_class _ _ (served.request_otp)
      ▹ served.by_class _ _ (served.verify_otp)
      ▹ served.by_class _ _ (served.login)
      ▹ served.by_class _ _ (served.refresh_token)
      ▹ all_served

  signup_routes-AllServe : AllServe Outer (signup_routes edge tick)
  unfolding signup_routes
  signup_routes-AllServe =
      served.by_ip _ _ _ (served.signup) ▹ served.by_ip _ _ _ (served.signup_verify) ▹ all_served

  flag_routes-AllServe : AllServe Outer (flag_routes edge tick)
  unfolding flag_routes
  flag_routes-AllServe = served.by_ip _ _ _ (served.flags) ▹ all_served

  org_routes-AllServe : AllServe Outer (org_routes edge tick)
  unfolding org_routes
  org_routes-AllServe =
      served.by_ip _ _ _ (served.on_org on_orgs)
      ▹ served.by_ip _ _ _ (served.on_org on_create)
      ▹ served.by_org _ _ (served.on_org on_members)
      ▹ served.by_org _ _ (served.on_org on_add)
      ▹ served.by_org _ _ (served.on_org on_remove)
      ▹ served.by_org _ _ (served.on_org on_suspend)
      ▹ served.by_org _ _ (served.on_org on_role)
      ▹ served.by_org _ _ (served.on_org on_slug)
      ▹ served.by_org _ _ (served.on_org on_invite)
      ▹ served.by_org _ _ (served.on_org on_invites)
      ▹ served.by_org _ _ (served.on_org on_revoke)
      ▹ served.by_ip _ _ _ (served.on_org on_accept)
      ▹ served.select_org
      ▹ all_served

  tenant_routes-AllServe : AllServe Outer (tenant_routes edge tick)
  unfolding tenant_routes
  tenant_routes-AllServe = served.by_ip _ _ _ (served.resolve_tenant) ▹ all_served

  local_routes-AllServe : (assets : Assets) → AllServe Outer (local_routes edge tick assets)
  unfolding local_routes
  local_routes-AllServe assets =
      served.by_class _ _ (served.challenge)
      ▹ served.by_class _ _ (served.verify_challenge)
      ▹ served.by_class _ _ (served.claim)
      ▹ served.by_class _ _ (served.challenge)
      ▹ served.by_class _ _ (served.verify_challenge)
      ▹ served.by_class _ _ (served.claim)
      ▹ served.by_class _ _ (served.claim)
      ▹ served.install assets.install_script
      ▹ served.asset assets.openapi_spec "application/yaml"
      ▹ served.asset assets.manifest "application/json"
      ▹ all_served

  pub routes-AllServe :
      (wired : Wired) (assets : Assets) → AllServe Outer (routes edge tick wired assets)
  unfolding routes
  routes-AllServe wired assets =
      served.health
      ▹ append-AllServe Outer (when wired.auth (auth_routes edge tick)) _
          (when-AllServe Outer wired.auth _ auth_routes-AllServe)
          (append-AllServe Outer (when wired.signup (signup_routes edge tick)) _
            (when-AllServe Outer wired.signup _ signup_routes-AllServe)
            (append-AllServe Outer (when wired.flags (flag_routes edge tick)) _
              (when-AllServe Outer wired.flags _ flag_routes-AllServe)
              (append-AllServe Outer (when wired.orgs (org_routes edge tick)) _
                (when-AllServe Outer wired.orgs _ org_routes-AllServe)
                (append-AllServe Outer (when wired.tenants (tenant_routes edge tick)) _
                  (when-AllServe Outer wired.tenants _ tenant_routes-AllServe)
                  (local_routes-AllServe assets)))))
