-- ===== src/Http/Refusal.antt =====
-- A limiter that lets nothing through closes every route with a budget.
use orbit_api_gateway.Base.{
  ◌≡◌, ◌⊎◌, refl, inl, inr, ℕ, String, List, Option, none, some, false, ◌==◌, eq_iff, arith,
  Bool-cases, Option-cases,
}
use orbit_api_gateway.Domain.Ratelimit.{
  Policy, Decision, policy_for, client_key, ip_route_policy, org_route_policy,
}
use orbit_api_gateway.RateLimit.{key_for_ip, key_for_org}
use orbit_api_gateway.World.{World, Tick, Call, Limiter, rate_check, note_call}
use orbit_api_gateway.Service.Limits.{settle, allow, check_class_limit, check_key_limit}
use orbit_api_gateway.Http.Names.{route_session_org}
use orbit_api_gateway.Http.Message.{
  Request, Conn, HandlerFunc, Part, ◌>>=◌, ◌>>◌, call, respond, finish, fresh_response, get_header,
  path_value,
}
use orbit_api_gateway.Http.Response.{
  decode_body, decode_json_body, write_limit_error, set_rate_limit_headers,
}
use orbit_api_gateway.Http.Client.{client_ip}
use orbit_api_gateway.Http.Limits.{
  Edge, bearer_token, require_bearer, limited, wrap, apply_route_limit, wrap_ip, wrap_org,
  charge_org, check_org_limit,
}
use orbit_api_gateway.Http.Handlers.Orgs.{decode_select_org, select_org_route}
use orbit_api_gateway.Http.Handlers.Static.{health_route, install_route, asset_route}
use orbit_api_gateway.Http.Routes.{Wired, Assets, Route, routes}
use orbit_api_gateway.Http.Routes.Walk.{IsServed, route_at, served_at, routes-AllServe}

-- Every check is denied, or fails.
abbrev pub Refuses : Limiter → Type 0
Refuses limiter =
    (calls : List Call) (key : String) (policy : Policy) (d : Decision)
    → limiter calls key policy ≡ some d
    → d.allowed ≡ false

-- What becomes of the world: nothing, or one check of a budget.
pub data Checked (w : World) : World → Type 0 where
  untouched : Checked w w
  checked : (key : String) (policy : Policy) → Checked w (note_call (rate_check key policy) w)

-- The handler has no bucket for this request: its budget is one for a client address, or for an
-- organization, and the rate-limiting package gives an empty key for that of the request.
pub data Unkeyed (edge : Edge) (r : Request) : HandlerFunc → Type 0 where
  no_address :
      (route : String) (limit : ℕ) (next : HandlerFunc)
      → key_for_ip edge.ports.runtime (client_ip edge.trust_proxy r) route ≡ ""
      → Unkeyed edge r (wrap_ip edge route limit next)
  no_organization :
      (route : String) (next : HandlerFunc)
      → key_for_org edge.ports.runtime (path_value "org_id" r) route ≡ ""
      → Unkeyed edge r (wrap_org edge route next)
  no_session_organization :
      (body : String × String)
      → decode_body decode_select_org r.body ≡ some body
      → key_for_org edge.ports.runtime body.0 route_session_org ≡ ""
      → Unkeyed edge r (select_org_route edge)

-- The limiter's answer to one check denies it, or there is none.
abbrev Denies : Option Decision → Type 0
Denies o = (d : Decision) → o ≡ some d → d.allowed ≡ false

denied_world :
    (next : HandlerFunc) (r : Request) (c : Conn) (o : Option Decision) (asked : World)
    → Denies o
    → (limited (λ _. settle o asked) next r c).world ≡ asked
unfolding limited settle
denied_world next r c none asked denies = refl
denied_world next r c (some d) asked denies = rw (denies d refl) refl

-- The same for a check within a handler, whatever would follow.
denied_part :
    {A : Type 0} (then_do : Decision → Part (Unit {0})) (k : Part A) (c : Conn)
    (o : Option Decision) (asked : World)
    → Denies o
    → (finish (((call write_limit_error (λ _. settle o asked) >>= then_do) >> k) c)).world ≡ asked
unfolding settle
denied_part then_do k c none asked denies = refl
denied_part then_do k c (some d) asked denies = rw (denies d refl) refl

module _ (edge : Edge) (limiter : Limiter) (refuses : Refuses limiter) where
  abbrev Closed : HandlerFunc → Type 0
  Closed next = (r : Request) (c : Conn) → Checked c.world (next r c).world ⊎ Unkeyed edge r next

  limited-Checked :
      (key : String) (policy : Policy) (next : HandlerFunc) (r : Request) (c : Conn)
      → Checked c.world (limited (allow limiter key policy) next r c).world
  unfolding allow limited
  limited-Checked key policy next r c =
      rw
        (denied_world next r c (limiter c.world.calls key policy)
          (note_call (rate_check key policy) c.world) (λ d e. refuses c.world.calls key policy d e))
        (checked key policy)

  module _ (wired_limiter : edge.ports.limiter ≡ some limiter) where
    wrap-Closed : (class : String) (next : HandlerFunc) → Closed (wrap edge class next)
    unfolding wrap check_class_limit
    wrap-Closed class next r c = inl (
        rw (wired_limiter, wrap)
          (limited-Checked (client_key class (client_ip edge.trust_proxy r)) (policy_for class) next
            r c))

    wrap_ip-Closed :
        (route : String) (limit : ℕ) (next : HandlerFunc) → Closed (wrap_ip edge route limit next)
    unfolding wrap_ip apply_route_limit check_key_limit
    wrap_ip-Closed route limit next r c =
        let key = key_for_ip edge.ports.runtime (client_ip edge.trust_proxy r) route in
        elim (Bool-cases (key == "")) [
          | inl e ↦ inr (no_address route limit next (ground (arith, eq_iff key "")))
          | inr e ↦ inl (
              rw (wired_limiter, wrap_ip, e)
                (limited-Checked key (ip_route_policy route limit) next r c))
        ]

    wrap_org-Closed : (route : String) (next : HandlerFunc) → Closed (wrap_org edge route next)
    unfolding wrap_org apply_route_limit check_key_limit
    wrap_org-Closed route next r c =
        let key = key_for_org edge.ports.runtime (path_value "org_id" r) route in
        elim (Bool-cases (key == "")) [
          | inl e ↦ inr (no_organization route next (ground (arith, eq_iff key "")))
          | inr e ↦ inl (
              rw (wired_limiter, wrap_org, e)
                (limited-Checked key (org_route_policy route) next r c))
        ]

    -- The check of the session route ends the handler, whatever would follow.
    charged_world :
        {A : Type 0} (org_id route : String) (c : Conn) (k : Part A)
        → (key_for_org edge.ports.runtime org_id route == "") ≡ false
        → (finish ((check_org_limit edge org_id route >> k) c)).world
          ≡ note_call
              (rate_check (key_for_org edge.ports.runtime org_id route) (org_route_policy route))
              c.world
    unfolding check_org_limit charge_org check_key_limit allow
    charged_world org_id route c k filled =
        let key = key_for_org edge.ports.runtime org_id route in
        let policy = org_route_policy route in
        rw (wired_limiter, check_org_limit, filled)
          (denied_part (λ d. respond (set_rate_limit_headers d)) k c
            (limiter c.world.calls key policy) (note_call (rate_check key policy) c.world)
            (λ d e. refuses c.world.calls key policy d e))

    charged-Checked :
        {A : Type 0} (org_id route : String) (c : Conn) (k : Part A)
        → (key_for_org edge.ports.runtime org_id route == "") ≡ false
        → Checked c.world (finish ((check_org_limit edge org_id route >> k) c)).world
    charged-Checked org_id route c k filled =
        rw (charged_world org_id route c k filled)
          (checked (key_for_org edge.ports.runtime org_id route) (org_route_policy route))

    select_org_route-Closed : Closed (select_org_route edge)
    unfolding select_org_route
    select_org_route-Closed r c =
        elim (Option-cases (bearer_token (get_header "Authorization" r))) [
          | inl e ↦ inl (rw (e, require_bearer) untouched)
          | inr (token, e) ↦ elim (Option-cases (decode_body decode_select_org r.body)) [
            | inl f ↦ inl (rw (e, require_bearer, f, decode_json_body) untouched)
            | inr (body, f) ↦
                let key = key_for_org edge.ports.runtime body.0 route_session_org in
                elim (Bool-cases (key == "")) [
                  | inl g ↦ inr (no_session_organization body f (ground (arith, eq_iff key "")))
                  | inr g ↦ inl (
                      rw (e, require_bearer, f, decode_json_body)
                        (charged-Checked body.0 route_session_org c _ g))
                ]
          ]
        ]

    asset_route-Closed : (body : Option String) (type : String) → Closed (asset_route body type)
    unfolding asset_route
    asset_route-Closed none type r c = inl untouched
    asset_route-Closed (some body) type r c = inl untouched

    Closed-IsServed : (tick : Tick) → IsServed edge tick (λ next. Unit) Closed
    unfolding health_route install_route asset_route
    Closed-IsServed tick = record {
      by_class = λ class next _. wrap-Closed class next;
      by_ip = λ route limit next _. wrap_ip-Closed route limit next;
      by_org = λ route next _. wrap_org-Closed route next;
      request_otp = tt;
      verify_otp = tt;
      login = tt;
      refresh_token = tt;
      signup = tt;
      signup_verify = tt;
      flags = tt;
      on_org = λ route. tt;
      resolve_tenant = tt;
      challenge = tt;
      verify_challenge = tt;
      claim = tt;
      select_org = select_org_route-Closed;
      health = λ r c. inl untouched;
      install = λ script r c. inl untouched;
      asset = asset_route-Closed;
    }

-- With a limiter that denies every check or fails at it, a request on any route of the table does
-- nothing to the world, or asks the limiter once and nothing else: no store changes, and no other
-- service is called. The exceptions are a route with a budget for an address or an organization
-- where the rate-limiting package gives an empty key for that of the request.
pub routes-Checked :
    (edge : Edge) (tick : Tick) (wired : Wired) (assets : Assets) (limiter : Limiter) (n : ℕ)
    (route : Route) (r : Request) (w : World)
    → edge.ports.limiter ≡ some limiter
    → Refuses limiter
    → route_at n (routes edge tick wired assets) ≡ some route
    → Checked w (route.handler r (record { world = w; response = fresh_response })).world
      ⊎ Unkeyed edge r route.handler
routes-Checked edge tick wired assets limiter n route r w e refuses at_n =
    served_at _ n (routes edge tick wired assets) route
      (routes-AllServe edge tick (Closed-IsServed edge limiter refuses e tick) wired assets) at_n r
      _
