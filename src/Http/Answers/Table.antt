-- ===== src/Http/Answers/Table.antt =====
-- Every route of the table answers once.
use orbit_api_gateway.Base.{◌≡◌, ℕ, some, []}
use orbit_api_gateway.World.{World, Tick}
use orbit_api_gateway.Http.Message.{Request, fresh_response}
use orbit_api_gateway.Http.Limits.{Edge}
use orbit_api_gateway.Http.Handlers.Auth.{
  verify_otp_route, login_route, refresh_token_route, signup_verify_route,
}
use orbit_api_gateway.Http.Handlers.Orgs.{list_orgs_route, create_org_route, set_org_slug_route}
use orbit_api_gateway.Http.Handlers.Members.{
  list_members_route, add_member_route, remove_member_route, suspend_member_route,
  set_member_role_route, create_invite_route, list_invites_route, revoke_invite_route,
  accept_invite_route,
}
use orbit_api_gateway.Http.Handlers.Callers.{
  OrgRoute, handler_of, on_orgs, on_create, on_slug, on_members, on_add, on_remove, on_suspend,
  on_role, on_invites, on_invite, on_revoke, on_accept,
}
use orbit_api_gateway.Http.Routes.{Wired, Assets, Route, routes}
use orbit_api_gateway.Http.Routes.Walk.{IsServed, route_at, served_at, routes-AllServe}
use orbit_api_gateway.Http.Answers.{Answered, Answers, blank}
use orbit_api_gateway.Http.Answers.Budgets.{wrap-Answers, wrap_ip-Answers, wrap_org-Answers}
use orbit_api_gateway.Http.Answers.Handlers.{
  token_route-Answers, bearer_route-Answers, bearer_body_route-Answers, request_otp_route-Answers,
  signup_route-Answers, resolve_tenant_route-Answers, select_org_route-Answers, flags_route-Answers,
  claim_route-Answers, challenge_route-Answers, verify_challenge_route-Answers,
  health_route-Answers, install_route-Answers, asset_route-Answers,
}

module _ (edge : Edge) where
  org_route-Answers : (route : OrgRoute) → Answers (handler_of edge route)
  unfolding list_orgs_route create_org_route set_org_slug_route list_members_route add_member_route
      remove_member_route suspend_member_route set_member_role_route create_invite_route
      list_invites_route revoke_invite_route accept_invite_route
  org_route-Answers on_orgs r = bearer_route-Answers edge _ _ r
  org_route-Answers on_create r = bearer_body_route-Answers edge _ _ _ r
  org_route-Answers on_slug r = bearer_body_route-Answers edge _ _ _ r
  org_route-Answers on_members r = bearer_route-Answers edge _ _ r
  org_route-Answers on_add r = bearer_body_route-Answers edge _ _ _ r
  org_route-Answers on_remove r = bearer_route-Answers edge _ _ r
  org_route-Answers on_suspend r = bearer_route-Answers edge _ _ r
  org_route-Answers on_role r = bearer_body_route-Answers edge _ _ _ r
  org_route-Answers on_invites r = bearer_route-Answers edge _ _ r
  org_route-Answers on_invite r = bearer_body_route-Answers edge _ _ _ r
  org_route-Answers on_revoke r = bearer_route-Answers edge _ _ r
  org_route-Answers on_accept r = bearer_body_route-Answers edge _ _ _ r

  Answers-IsServed : (tick : Tick) → IsServed edge tick Answers Answers
  unfolding verify_otp_route login_route refresh_token_route signup_verify_route
  Answers-IsServed tick = record {
    by_class = λ class next answers. wrap-Answers edge class next answers;
    by_ip = λ route limit next answers. wrap_ip-Answers edge route limit next answers;
    by_org = λ route next answers. wrap_org-Answers edge route next answers;
    request_otp = request_otp_route-Answers edge;
    verify_otp = token_route-Answers edge _ _;
    login = token_route-Answers edge _ _;
    refresh_token = token_route-Answers edge _ _;
    signup = signup_route-Answers edge;
    signup_verify = token_route-Answers edge _ _;
    flags = flags_route-Answers edge;
    on_org = org_route-Answers;
    resolve_tenant = resolve_tenant_route-Answers edge;
    challenge = challenge_route-Answers edge tick;
    verify_challenge = verify_challenge_route-Answers edge tick;
    claim = claim_route-Answers edge;
    select_org = select_org_route-Answers edge;
    health = health_route-Answers;
    install = install_route-Answers;
    asset = asset_route-Answers;
  }

-- Whatever ports are wired, whatever they answer and whatever the request holds, every route of the
-- table answers: one status is sent, and one piece of body is written, under headers that give its
-- type, which for a JSON document is application/json.
pub routes-Answered :
    (edge : Edge) (tick : Tick) (wired : Wired) (assets : Assets) (n : ℕ) (route : Route)
    (r : Request) (w : World)
    → route_at n (routes edge tick wired assets) ≡ some route
    → Answered (route.handler r (record { world = w; response = fresh_response })).response
routes-Answered edge tick wired assets n route r w e =
    served_at Answers n (routes edge tick wired assets) route
      (routes-AllServe edge tick (Answers-IsServed edge tick) wired assets) e r _ (blank w [])
