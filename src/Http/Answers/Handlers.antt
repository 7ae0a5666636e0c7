-- ===== src/Http/Answers/Handlers.antt =====
-- Each handler of httpapi answers once.
use orbit_api_gateway.Base.{
  ℕ, inl, inr, refl, String, Option, none, some, [], ◌∷◌, ◌==◌, Option-cases, Bool-cases,
}
use orbit_api_gateway.Base.Strings.{trim_space}
use orbit_api_gateway.Base.Map.{lookup-insert}
use orbit_api_gateway.Json.{Json, str, object}
use orbit_api_gateway.Domain.Failure.{Failure}
use orbit_api_gateway.Domain.Ratelimit.{Decision}
use orbit_api_gateway.Domain.Auth.{TokenPair}
use orbit_api_gateway.World.{Op, Tick}
use orbit_api_gateway.Service.Otp.{request_otp}
use orbit_api_gateway.Service.Challenges.{challenge, verify_challenge}
use orbit_api_gateway.Service.Claims.{claim}
use orbit_api_gateway.Service.Passed.{register_with_email}
use orbit_api_gateway.Service.Passed.{resolve_tenant, select_org}
use orbit_api_gateway.Service.Passed.{list_flags}
use orbit_api_gateway.Http.Message.{
  Request, Response, Conn, call, answer, ◌>>=◌, get_header, path_value, set_header, text,
}
use orbit_api_gateway.Http.Response.{
  write_json, error_body, decode_json_body, write_app_error, write_limit_error,
}
use orbit_api_gateway.Http.Limits.{Edge, bearer_token, require_bearer, check_org_limit}
use orbit_api_gateway.Http.Handlers.Auth.{
  token_route, request_otp_route, signup_route, budget_headers, write_tokens, decode_otp_request,
  decode_signup,
}
use orbit_api_gateway.Http.Handlers.Ownership.{
  decode_challenge, decode_verify, challenge_document, challenge_route, verify_challenge_route,
}
use orbit_api_gateway.Http.Handlers.Onboarding.{decode_claim, claim_route}
use orbit_api_gateway.Http.Handlers.Orgs.{
  bearer_route, bearer_body_route, decode_select_org, resolve_tenant_route, select_org_route,
}
use orbit_api_gateway.Http.Handlers.Static.{
  health_route, install_route, asset_route, flags_route, flags_unavailable, http_error,
}
use orbit_api_gateway.Http.Answers.{
  unsent, Renders, IsBlank, blank, Answers, write_json-Renders, write_app_error-Renders,
  write_limit_error-Renders,
}
use orbit_api_gateway.Http.Answers.Parts.{
  Steps, Ends, bound-Ends, finish-Answered, answer-Ends, answer-Steps, decoded-Steps, called-Steps,
}
use orbit_api_gateway.Http.Answers.Budgets.{budget-IsBlank, check_org_limit-Steps}

write_tokens-Renders : (tokens : TokenPair) → Renders (write_tokens tokens)
unfolding write_tokens
write_tokens-Renders tokens headers = write_json-Renders _ _ headers

budgets-IsBlank :
    (o : Option Decision) (c : Conn)
    → IsBlank c
    → IsBlank (record c { response = budget_headers o c.response })
budgets-IsBlank none c here = here
budgets-IsBlank (some d) c here = budget-IsBlank d c here

require_bearer-Steps : (r : Request) (c : Conn) → IsBlank c → Steps (require_bearer r c)
unfolding require_bearer
require_bearer-Steps r c here = elim (Option-cases (bearer_token (get_header "Authorization" r))) [
  | inl e ↦
      rw (e, require_bearer)
        (answer-Steps String (write_json 401 (error_body "missing bearer token")) c
          (write_json-Renders _ _) here)
  | inr (token, e) ↦ rw (e, require_bearer) here
]

-- A use case, with an answer to its failure or to its value.
told-Ends :
    {A : Type 0} (on_error : Failure → Response → Response) (op : Op A)
    (show : A → Response → Response) (c : Conn)
    → ((f : Failure) → Renders (on_error f))
    → ((a : A) → Renders (show a))
    → IsBlank c
    → Ends ((call on_error op >>= λ a. answer {A = Unit {0}} (show a)) c)
told-Ends on_error op show c failing shown here =
    bound-Ends (call on_error op c) _ (called-Steps on_error c (op c.world) failing here)
      (λ a c' here'. answer-Ends Unit (show a) c' (shown a) here')

module _ (edge : Edge) where
  pub token_route-Answers :
      {A : Type 0} (decode : Json → Option A) (op : A → Op TokenPair)
      → Answers (token_route edge decode op)
  unfolding token_route
  token_route-Answers decode op r c here = finish-Answered _ (
      bound-Ends (decode_json_body decode r c) _ (decoded-Steps decode r c here) (λ body c1 here1.
        told-Ends write_app_error (op body) write_tokens c1 write_app_error-Renders
          write_tokens-Renders here1))

  pub bearer_route-Answers :
      {A : Type 0} (op : String → Op A) (document : A → Json)
      → Answers (bearer_route edge op document)
  unfolding bearer_route
  bearer_route-Answers op document r c here = finish-Answered _ (
      bound-Ends (require_bearer r c) _ (require_bearer-Steps r c here) (λ token c1 here1.
        told-Ends write_app_error (op token) (λ a. write_json 200 (document a)) c1
          write_app_error-Renders (λ a. write_json-Renders 200 (document a)) here1))

  pub bearer_body_route-Answers :
      {A B : Type 0} (decode : Json → Option B) (op : B → String → Op A) (document : A → Json)
      → Answers (bearer_body_route edge decode op document)
  unfolding bearer_body_route
  bearer_body_route-Answers decode op document r c here = finish-Answered _ (
      bound-Ends (require_bearer r c) _ (require_bearer-Steps r c here) (λ token c1 here1.
        bound-Ends (decode_json_body decode r c1) _ (decoded-Steps decode r c1 here1)
          (λ body c2 here2.
            told-Ends write_app_error (op body token) (λ a. write_json 200 (document a)) c2
              write_app_error-Renders (λ a. write_json-Renders 200 (document a)) here2)))

  pub request_otp_route-Answers : Answers (request_otp_route edge)
  unfolding request_otp_route
  request_otp_route-Answers r c here = finish-Answered _ (
      bound-Ends (decode_json_body decode_otp_request r c) _
        (decoded-Steps decode_otp_request r c here)
        (λ body c1 here1.
          bound-Ends (call write_limit_error (request_otp edge.ports body) c1) _
            (called-Steps write_limit_error c1 (request_otp edge.ports body c1.world)
              write_limit_error-Renders here1)
            (λ receipt c2 here2.
              let document = object (("expires_at", str receipt.expires_at) ∷ []) in
              answer-Ends Unit (write_json 200 document) _ (write_json-Renders 200 document)
                (budgets-IsBlank receipt.identifier_limit c2 here2))))

  pub signup_route-Answers : Answers (signup_route edge)
  unfolding signup_route
  signup_route-Answers r c here = finish-Answered _ (
      bound-Ends (decode_json_body decode_signup r c) _ (decoded-Steps decode_signup r c here)
        (λ body c1 here1.
          told-Ends write_app_error (register_with_email edge.ports body) _ c1
            write_app_error-Renders (λ _. write_json-Renders 202 _) here1))

  pub resolve_tenant_route-Answers : Answers (resolve_tenant_route edge)
  unfolding resolve_tenant_route set_header
  resolve_tenant_route-Answers r c here = finish-Answered _ (
      told-Ends write_app_error (resolve_tenant edge.ports (trim_space (path_value "slug" r))) _ c
        write_app_error-Renders
        (λ tenant headers.
          write_json-Renders 200 _
            (set_header "Cache-Control" "public, max-age=30" (unsent headers)).headers)
        here)

  pub select_org_route-Answers : Answers (select_org_route edge)
  unfolding select_org_route
  select_org_route-Answers r c here = finish-Answered _ (
      bound-Ends (require_bearer r c) _ (require_bearer-Steps r c here) (λ token c1 here1.
        bound-Ends (decode_json_body decode_select_org r c1) _
          (decoded-Steps decode_select_org r c1 here1)
          (λ body c2 here2.
            bound-Ends (check_org_limit edge body.0 "/api/v1/session/org" c2) _
              (check_org_limit-Steps edge body.0 "/api/v1/session/org" c2 here2)
              (λ _ c3 here3.
                told-Ends write_app_error (select_org edge.ports body.0 body.1 token) write_tokens
                  c3 write_app_error-Renders write_tokens-Renders here3))))

  pub flags_route-Answers : Answers (flags_route edge)
  unfolding flags_route
  flags_route-Answers r _ (blank world headers) = finish-Answered _ (
      told-Ends flags_unavailable (list_flags edge.ports edge.auth_http_url) _ _
        (λ f. write_json-Renders 502 (error_body "flags unavailable"))
        (λ set. write_json-Renders 200 _)
        (blank world (set_header "Cache-Control" "no-cache" (unsent headers)).headers))

  pub claim_route-Answers : Answers (claim_route edge)
  unfolding claim_route
  claim_route-Answers r c here = finish-Answered _ (
      bound-Ends (decode_json_body decode_claim r c) _ (decoded-Steps decode_claim r c here)
        (λ body c1 here1.
          told-Ends write_app_error (claim edge.ports.runtime body (get_header "Idempotency-Key" r))
            _ c1 write_app_error-Renders (λ result. write_json-Renders 200 _) here1))

  module _ (tick : Tick) where
    pub challenge_route-Answers : Answers (challenge_route edge tick)
    unfolding challenge_route
    challenge_route-Answers r c here = finish-Answered _ (
        bound-Ends (decode_json_body decode_challenge r c) _
          (decoded-Steps decode_challenge r c here)
          (λ email c1 here1.
            bound-Ends (call write_limit_error (challenge edge.ports tick email) c1) _
              (called-Steps write_limit_error c1 (challenge edge.ports tick email c1.world)
                write_limit_error-Renders here1)
              (λ receipt c2 here2.
                let document = challenge_document receipt.grant in
                answer-Ends Unit (write_json 200 document) _ (write_json-Renders 200 document)
                  (budgets-IsBlank receipt.identifier_limit c2 here2))))

    pub verify_challenge_route-Answers : Answers (verify_challenge_route edge tick)
    unfolding verify_challenge_route
    verify_challenge_route-Answers r c here = finish-Answered _ (
        bound-Ends (decode_json_body decode_verify r c) _ (decoded-Steps decode_verify r c here)
          (λ body c1 here1.
            told-Ends write_app_error (verify_challenge edge.ports tick body.0 body.1) _ c1
              write_app_error-Renders (λ proof. write_json-Renders 200 _) here1))

http_error-Renders : (message : String) (status : ℕ) → Renders (http_error message status)
unfolding http_error
http_error-Renders message status headers = record {
  status = status;
  headers = _;
  payload = text message;
  sent = refl;
  body = refl;
  typed = (
    "text/plain; charset=utf-8",
    rw lookup-insert
        (lookup-insert "Content-Type" "Content-Type" "text/plain; charset=utf-8" headers),
  );
}

pub health_route-Answers : Answers health_route
unfolding health_route
health_route-Answers r _ (blank world headers) = record {
  status = 200;
  headers = _;
  payload = text "ok";
  sent = refl;
  body = refl;
  typed = (
    "text/plain; charset=utf-8",
    lookup-insert "Content-Type" "Content-Type" "text/plain; charset=utf-8" headers,
  );
}

pub install_route-Answers : (script : String) → Answers (install_route script)
unfolding install_route
install_route-Answers script r _ (blank world headers) = elim (Bool-cases (r.path == "/")) [
  | inl e ↦ rw e (record {
    status = 200;
    headers = _;
    payload = text script;
    sent = refl;
    body = refl;
    typed = (
      "text/x-shellscript; charset=utf-8",
      rw lookup-insert
          (lookup-insert "Content-Type" "Content-Type" "text/x-shellscript; charset=utf-8" headers),
    );
  })
  | inr e ↦ rw e (http_error-Renders "404 page not found\n" 404 headers)
]

pub asset_route-Answers : (body : Option String) (type : String) → Answers (asset_route body type)
unfolding asset_route
asset_route-Answers none type r _ (blank world headers) =
    http_error-Renders "spec not found\n" 404 headers
asset_route-Answers (some body) type r _ (blank world headers) = record {
  status = 200;
  headers = _;
  payload = text body;
  sent = refl;
  body = refl;
  typed = (type, lookup-insert "Content-Type" "Content-Type" type headers);
}
