-- ===== src/Http/Effects/Quiet.antt =====
-- The routes that ask other services, and leave the stores alone.
use Prim.Native.String.{◌++◌}
use orbit_api_gateway.Base.{inl, inr, refl, String, Option, none, some, ◌==◌, Bool-cases}
use orbit_api_gateway.Base.Strings.{trim_space, trim_right_of}
use orbit_api_gateway.Json.{Json}
use orbit_api_gateway.Domain.Ratelimit.{Decision}
use orbit_api_gateway.Domain.Auth.{TokenPair, OtpRequest}
use orbit_api_gateway.World.{World, Ports, Op, pure}
use orbit_api_gateway.Service.Limits.{check_identifier_limit}
use orbit_api_gateway.Service.Otp
use orbit_api_gateway.Service.Otp.Budget.{asked_upstream}
use orbit_api_gateway.Upstream.Client
use orbit_api_gateway.Service.Passed.{
  resolve_tenant, list_flags, register_with_email, verify_otp, refresh_token, verify_signup,
}
use orbit_api_gateway.Http.Message.{call, get_header, path_value, set_header}
use orbit_api_gateway.Http.Message.Reach.{bound-Reaches, finish-Reaches}
use orbit_api_gateway.Http.Response.{write_app_error, write_limit_error, decode_json_body}
use orbit_api_gateway.Http.Beside.{
  Beside-refl, noted-Beside, bound-Beside, check_identifier_limit-Beside, Confined-Beside,
}
use orbit_api_gateway.Http.Limits.{Edge, bearer_token}
use orbit_api_gateway.Http.Handlers.Auth.{
  decode_otp_request, decode_signup, token_route, request_otp_route, verify_otp_route, login_route,
  refresh_token_route, signup_route, signup_verify_route,
}
use orbit_api_gateway.Http.Handlers.Orgs.{resolve_tenant_route, select_org_route}
use orbit_api_gateway.Http.Handlers.Callers.{OrgRoute, handler_of, org_routes-Confined}
use orbit_api_gateway.Http.Handlers.Session.{select_org_route-Confined}
use orbit_api_gateway.Http.Handlers.Static.{
  health_route, install_route, asset_route, flags_route, flags_unavailable,
}
use orbit_api_gateway.Http.Effects.{IsKept, Quiet, Keeps, decoded-Reaches, Quiet-Reaches}

asked_upstream-Quiet :
    (caller : Option String) (ports : Ports) (i : OtpRequest) (limit : Option Decision)
    → Quiet caller (asked_upstream ports i limit)
unfolding Client.request_otp
asked_upstream-Quiet caller ports i limit w =
    bound-Beside caller {B = Otp.OtpReceipt}
      (λ expires_at. pure (record { expires_at = expires_at; identifier_limit = limit })) w
      (Client.request_otp ports i w) (noted-Beside caller _ w refl)
      (λ expires_at w1. Beside-refl caller w1)

request_otp-Quiet :
    (caller : Option String) (ports : Ports) (i : OtpRequest)
    → Quiet caller (Otp.request_otp ports i)
unfolding Otp.request_otp
request_otp-Quiet caller ports i w =
    let identifier = Otp.identifier_or i.identifier i.email in
    bound-Beside caller (asked_upstream ports i) w
      (check_identifier_limit ports.runtime ports.limiter identifier w)
      (check_identifier_limit-Beside caller ports.runtime ports.limiter identifier w)
      (asked_upstream-Quiet caller ports i)

list_flags-Quiet :
    (caller : Option String) (ports : Ports) (base : String) → Quiet caller (list_flags ports base)
unfolding list_flags
list_flags-Quiet caller ports base w = elim (Bool-cases (trim_space base == "")) [
  | inl e ↦ rw e (Beside-refl caller w)
  | inr e ↦ elim (Bool-cases (ports.runtime.is_url (trim_right_of b'/' base ++ "/v1/flags"))) [
    | inl u ↦ rw (e, u) (noted-Beside caller _ w tt)
    | inr u ↦ rw (e, u) (Beside-refl caller w)
  ]
]

module _ (edge : Edge) {caller : Option String} {P : World → Type 0}
    (kept : IsKept edge.ports caller P) where
  token_route-Keeps :
      {A : Type 0} (decode : Json → Option A) (op : A → Op TokenPair)
      → ((a : A) → Quiet caller (op a))
      → Keeps caller P (token_route edge decode op)
  unfolding token_route
  token_route-Keeps decode op quiet r c mine here = finish-Reaches P _ (
      bound-Reaches P (decode_json_body decode r c) _ (decoded-Reaches P decode r c here)
        (λ body c1 here1.
          bound-Reaches P (call write_app_error (op body) c1) _
            (Quiet-Reaches kept write_app_error (op body) c1 (quiet body) here1)
            (λ tokens c2 here2. here2)))

  pub verify_otp_route-Keeps : Keeps caller P (verify_otp_route edge)
  unfolding verify_otp_route verify_otp
  verify_otp_route-Keeps = token_route-Keeps _ _ (λ i w. noted-Beside caller _ w refl)

  pub login_route-Keeps : Keeps caller P (login_route edge)
  unfolding login_route Otp.login Client.login_with_password
  login_route-Keeps = token_route-Keeps _ _ (λ i w. noted-Beside caller _ w refl)

  pub refresh_token_route-Keeps : Keeps caller P (refresh_token_route edge)
  unfolding refresh_token_route refresh_token
  refresh_token_route-Keeps = token_route-Keeps _ _ (λ i w. noted-Beside caller _ w refl)

  pub signup_verify_route-Keeps : Keeps caller P (signup_verify_route edge)
  unfolding signup_verify_route verify_signup
  signup_verify_route-Keeps = token_route-Keeps _ _ (λ i w. noted-Beside caller _ w refl)

  pub request_otp_route-Keeps : Keeps caller P (request_otp_route edge)
  unfolding request_otp_route
  request_otp_route-Keeps r c mine here = finish-Reaches P _ (
      bound-Reaches P (decode_json_body decode_otp_request r c) _
        (decoded-Reaches P decode_otp_request r c here)
        (λ body c1 here1.
          bound-Reaches P (call write_limit_error (Otp.request_otp edge.ports body) c1) _
            (Quiet-Reaches kept write_limit_error (Otp.request_otp edge.ports body) c1
              (request_otp-Quiet caller edge.ports body) here1)
            (λ receipt c2 here2. here2)))

  pub signup_route-Keeps : Keeps caller P (signup_route edge)
  unfolding signup_route register_with_email
  signup_route-Keeps r c mine here = finish-Reaches P _ (
      bound-Reaches P (decode_json_body decode_signup r c) _
        (decoded-Reaches P decode_signup r c here)
        (λ body c1 here1.
          bound-Reaches P (call write_app_error (register_with_email edge.ports body) c1) _
            (Quiet-Reaches kept write_app_error (register_with_email edge.ports body) c1
              (λ w. noted-Beside caller _ w refl) here1)
            (λ _ c2 here2. here2)))

  pub org_route-Keeps : (route : OrgRoute) → Keeps caller P (handler_of edge route)
  org_route-Keeps route r c mine here =
      kept.aside c.world (handler_of edge route r c).world
        (rw mine at (
          Confined-Beside (bearer_token (get_header "Authorization" r)) c
            (handler_of edge route r c) (org_routes-Confined edge route r c)))
        here

  pub select_org_route-Keeps : Keeps caller P (select_org_route edge)
  select_org_route-Keeps r c mine here =
      kept.aside c.world (select_org_route edge r c).world
        (rw mine at (
          Confined-Beside (bearer_token (get_header "Authorization" r)) c
            (select_org_route edge r c) (select_org_route-Confined edge r c)))
        here

  pub resolve_tenant_route-Keeps : Keeps caller P (resolve_tenant_route edge)
  unfolding resolve_tenant_route resolve_tenant
  resolve_tenant_route-Keeps r c mine here =
      let op = resolve_tenant edge.ports (trim_space (path_value "slug" r)) in
      finish-Reaches P _ (
        bound-Reaches P (call write_app_error op c) _
          (Quiet-Reaches kept write_app_error op c (λ w. noted-Beside caller _ w refl) here)
          (λ tenant c1 here1. here1))

  pub flags_route-Keeps : Keeps caller P (flags_route edge)
  unfolding flags_route
  flags_route-Keeps r c mine here =
      let c' = record c { response = set_header "Cache-Control" "no-cache" c.response } in
      let op = list_flags edge.ports edge.auth_http_url in
      finish-Reaches P _ (
        bound-Reaches P (call flags_unavailable op c') _
          (Quiet-Reaches kept flags_unavailable op c'
            (list_flags-Quiet caller edge.ports edge.auth_http_url) here)
          (λ set c1 here1. here1))

-- The routes that only answer.
module _ (caller : Option String) (P : World → Type 0) where
  pub health_route-Keeps : Keeps caller P health_route
  unfolding health_route
  health_route-Keeps r c mine here = here

  pub install_route-Keeps : (script : String) → Keeps caller P (install_route script)
  unfolding install_route
  install_route-Keeps script r c mine here = here

  pub asset_route-Keeps :
      (body : Option String) (type : String) → Keeps caller P (asset_route body type)
  unfolding asset_route
  asset_route-Keeps none type r c mine here = here
  asset_route-Keeps (some body) type r c mine here = here
