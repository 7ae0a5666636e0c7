-- ===== src/Http/Effects/Table.antt =====
-- Each route of the table keeps what the use cases keep.
use orbit_api_gateway.Base.{String, Option}
use orbit_api_gateway.World.{World, Tick}
use orbit_api_gateway.Http.Limits.{Edge}
use orbit_api_gateway.Http.Routes.Walk.{IsServed}
use orbit_api_gateway.Http.Effects.{IsKept, Keeps, wrap-Keeps, wrap_ip-Keeps, wrap_org-Keeps}
use orbit_api_gateway.Http.Effects.Quiet.{
  request_otp_route-Keeps, verify_otp_route-Keeps, login_route-Keeps, refresh_token_route-Keeps,
  signup_route-Keeps, signup_verify_route-Keeps, org_route-Keeps, select_org_route-Keeps,
  resolve_tenant_route-Keeps, flags_route-Keeps, health_route-Keeps, install_route-Keeps,
  asset_route-Keeps,
}
use orbit_api_gateway.Http.Effects.Stores.{
  challenge_route-Keeps, verify_challenge_route-Keeps, claim_route-Keeps,
}

pub Keeps-IsServed :
    (edge : Edge) (tick : Tick) (caller : Option String) {P : World → Type 0}
    → IsKept edge.ports caller P
    → IsServed edge tick (Keeps caller P) (Keeps caller P)
Keeps-IsServed edge tick caller {P} kept = record {
  by_class = λ class next keeps. wrap-Keeps kept edge class next keeps;
  by_ip = λ route limit next keeps. wrap_ip-Keeps kept edge route limit next keeps;
  by_org = λ route next keeps. wrap_org-Keeps kept edge route next keeps;
  request_otp = request_otp_route-Keeps edge kept;
  verify_otp = verify_otp_route-Keeps edge kept;
  login = login_route-Keeps edge kept;
  refresh_token = refresh_token_route-Keeps edge kept;
  signup = signup_route-Keeps edge kept;
  signup_verify = signup_verify_route-Keeps edge kept;
  flags = flags_route-Keeps edge kept;
  on_org = org_route-Keeps edge kept;
  resolve_tenant = resolve_tenant_route-Keeps edge kept;
  challenge = challenge_route-Keeps edge tick kept;
  verify_challenge = verify_challenge_route-Keeps edge tick kept;
  claim = claim_route-Keeps edge tick kept;
  select_org = select_org_route-Keeps edge kept;
  health = health_route-Keeps caller P;
  install = install_route-Keeps caller P;
  asset = asset_route-Keeps caller P;
}
