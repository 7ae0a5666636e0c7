-- ===== src/Http/Handlers/Session.antt =====
-- The session route of httpapi/orgs.go acts for its caller, and charges the organization's budget.
use orbit_api_gateway.Base.{
  inl, inr, refl, String, Option, none, some, ◌==◌, Option-cases, Bool-cases,
}
use orbit_api_gateway.Json.{Json}
use orbit_api_gateway.Domain.Ratelimit.{Decision, Policy, org_route_policy}
use orbit_api_gateway.World.{World, Limiter, rate_check, note_call}
use orbit_api_gateway.Service.Limits.{settle, allow, check_key_limit}
use orbit_api_gateway.Service.Passed.{select_org}
use orbit_api_gateway.Http.Message.{Request, Conn, Flow, call, respond, get_header}
use orbit_api_gateway.Http.Message.Reach.{Reaches, bound-Reaches, called-Reaches, finish-Reaches}
use orbit_api_gateway.Http.Response.{
  decode_body, decode_json_body, write_app_error, write_limit_error, set_rate_limit_headers,
}
use orbit_api_gateway.Http.Limits.{Edge, bearer_token, require_bearer, charge_org, check_org_limit}
use orbit_api_gateway.Http.Handlers.Orgs.{decode_select_org, select_org_route}
use orbit_api_gateway.Http.Handlers.Orgs.Bearer.{asked, checked, ActsFor, ActsFor-refl, Confined}

-- A part of a handler that acts for a token.
abbrev Keeps : {A : Type 0} → String → World → Flow A → Type 0
Keeps token w x = Reaches (ActsFor token w) x

decode-Keeps :
    {A : Type 0} (token : String) (decode : Json → Option A) (r : Request) (c : Conn)
    → Keeps token c.world (decode_json_body decode r c)
unfolding decode_json_body
decode-Keeps token decode r c = elim (Option-cases (decode_body decode r.body)) [
  | inl e ↦ rw (e, decode_json_body) (ActsFor-refl token c.world)
  | inr (a, e) ↦ rw (e, decode_json_body) (ActsFor-refl token c.world)
]

settled-ActsFor :
    (token : String) (w : World) (o : Option Decision) (w' : World)
    → ActsFor token w w'
    → ActsFor token w (settle o w').1
unfolding settle
settled-ActsFor token w none w' acts = acts
settled-ActsFor token w (some d) w' acts = acts

-- One more check of a budget, or one more call under the token.
module _ {token : String} {w : World} (c : Conn) (acts : ActsFor token w c.world) where
  allow-ActsFor :
      (limiter : Limiter) (key : String) (policy : Policy)
      → ActsFor token w (allow limiter key policy c.world).1
  unfolding allow
  allow-ActsFor limiter key policy =
      settled-ActsFor token w (limiter c.world.calls key policy)
        (note_call (rate_check key policy) c.world)
        (record {
          stores = record {
            challenges = acts.stores.challenges;
            claims = acts.stores.claims;
            audit = acts.stores.audit;
          };
          calls = checked key policy acts.calls;
        })

  charge_org-Keeps :
      (edge : Edge) (limiter : Limiter) (org_id route : String)
      → Keeps token w (charge_org edge limiter org_id route c)
  unfolding charge_org check_key_limit
  charge_org-Keeps edge limiter org_id route =
      let key = edge.ports.runtime.key_for_org org_id route in
      elim (Bool-cases (key == "")) [
        | inl e ↦ rw e acts
        | inr e ↦ rw e (
            bound-Reaches (ActsFor token w)
              (call write_limit_error (allow limiter key (org_route_policy route)) c)
              (λ d. respond (set_rate_limit_headers d))
              (called-Reaches (ActsFor token w) write_limit_error c
                (allow limiter key (org_route_policy route) c.world)
                (allow-ActsFor limiter key (org_route_policy route)))
              (λ d c' acts'. acts'))
      ]

  check_org_limit-Keeps :
      (edge : Edge) (org_id route : String) → Keeps token w (check_org_limit edge org_id route c)
  unfolding check_org_limit
  check_org_limit-Keeps edge org_id route = elim (Option-cases edge.ports.limiter) [
    | inl e ↦ rw (e, check_org_limit) acts
    | inr (limiter, e) ↦ rw (e, check_org_limit) (charge_org-Keeps edge limiter org_id route)
  ]

  select_org-ActsFor :
      (edge : Edge) (org_id refresh_token : String)
      → ActsFor token w (select_org edge.ports org_id refresh_token token c.world).1
  unfolding select_org
  select_org-ActsFor edge org_id refresh_token = record {
    stores = record {
      challenges = acts.stores.challenges;
      claims = acts.stores.claims;
      audit = acts.stores.audit;
    };
    calls = asked _ acts.calls refl;
  }

-- A request without a bearer token gets 401 from the session route, and nothing else happens. For
-- any other request, the route leaves the stores alone, and makes only checks of the budget of the
-- organization and gRPC calls that carry the token of that request.
pub select_org_route-Confined :
    (edge : Edge) (r : Request) (c : Conn)
    → Confined (bearer_token (get_header "Authorization" r)) c (select_org_route edge r c)
unfolding select_org_route
select_org_route-Confined edge r c =
    elim (Option-cases (bearer_token (get_header "Authorization" r))) [
      | inl e ↦ rw (e, require_bearer) refl
      | inr (token, e) ↦
          rw (e, require_bearer)
            (finish-Reaches (ActsFor token c.world) _ (
              bound-Reaches (ActsFor token c.world) (decode_json_body decode_select_org r c) _
                (decode-Keeps token decode_select_org r c)
                (λ body c1 acts1.
                  bound-Reaches (ActsFor token c.world)
                    (check_org_limit edge body.0 "/api/v1/session/org" c1) _
                    (check_org_limit-Keeps c1 acts1 edge body.0 "/api/v1/session/org")
                    (λ _ c2 acts2.
                      bound-Reaches (ActsFor token c.world)
                        (call write_app_error (select_org edge.ports body.0 body.1 token) c2) _
                        (called-Reaches (ActsFor token c.world) write_app_error c2
                          (select_org edge.ports body.0 body.1 token c2.world)
                          (select_org-ActsFor c2 acts2 edge body.0 body.1))
                        (λ tokens c3 acts3. acts3)))))
    ]
