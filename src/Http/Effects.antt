-- ===== src/Http/Effects.antt =====
-- What a request can do: a property of the world that outlives the use cases of the history, and what
-- a caller does besides, outlives every route.
pub mod Quiet
pub mod Stores
pub mod Table
pub mod Traffic
pub mod Refinement
pub mod Promises
pub mod Senders
use orbit_api_gateway.Base.{
  ◌≡◌, inl, inr, String, ℕ, Option, none, some, ◌==◌, Option-cases, Bool-cases,
}
use orbit_api_gateway.Json.{Json}
use orbit_api_gateway.Domain.Ratelimit.{
  Policy, Decision, policy_for, client_key, ip_route_policy, org_route_policy,
}
use orbit_api_gateway.Domain.Failure.{Failure, Result, ok, err}
use orbit_api_gateway.World.{World, Ports, Op, Limiter}
use orbit_api_gateway.Service.Limits.{allow, check_class_limit, check_key_limit}
use orbit_api_gateway.Service.History
use orbit_api_gateway.Http.Message.{
  Request, Response, Conn, HandlerFunc, Flow, halt, go, Part, call, get_header, path_value,
}
use orbit_api_gateway.Http.Message.Reach.{Reaches, called-Reaches}
use orbit_api_gateway.Http.Response.{decode_body, decode_json_body}
use orbit_api_gateway.Http.Client.{client_ip}
use orbit_api_gateway.Http.Beside.{Beside, allow-Beside}
use orbit_api_gateway.Http.Limits.{
  Edge, bearer_token, limited, wrap, apply_route_limit, wrap_ip, wrap_org,
}

-- The property outlives what a caller does besides using the stores, and each use case of the history.
pub record IsKept (ports : Ports) (caller : Option String) (P : World → Type 0) : Type 0 where
  pub aside : (w w' : World) → Beside caller w w' → P w → P w'
  pub used : (r : History.Request) (w : World) → P w → P (History.serve ports r w)

-- An operation that leaves the stores alone and calls for the caller, whatever it answers.
abbrev pub Quiet : {A : Type 0} → Option String → Op A → Type 0
Quiet caller op = (w : World) → Beside caller w (op w).1

-- A handler after which the property still holds, for requests of the caller.
abbrev pub Keeps : Option String → (World → Type 0) → HandlerFunc → Type 0
Keeps caller P next =
    (r : Request) (c : Conn)
    → bearer_token (get_header "Authorization" r) ≡ caller
    → P c.world
    → P (next r c).world

module _ (P : World → Type 0) where
  pub decoded-Reaches :
      {A : Type 0} (decode : Json → Option A) (r : Request) (c : Conn)
      → P c.world
      → Reaches P (decode_json_body decode r c)
  unfolding decode_json_body
  decoded-Reaches decode r c here = elim (Option-cases (decode_body decode r.body)) [
    | inl e ↦ rw (e, decode_json_body) here
    | inr (a, e) ↦ rw (e, decode_json_body) here
  ]

  settled-Keeps :
      (caller : Option String) (next : HandlerFunc) (r : Request) (c : Conn)
      (x : Result Decision × World)
      → Keeps caller P next
      → bearer_token (get_header "Authorization" r) ≡ caller
      → P x.1
      → P (limited (λ _. x) next r c).world
  unfolding limited
  settled-Keeps caller next r c (ok d, w) keeps mine here = keeps r _ mine here
  settled-Keeps caller next r c (err f, w) keeps mine here = here

module _ {ports : Ports} {caller : Option String} {P : World → Type 0}
    (kept : IsKept ports caller P) where
  pub Quiet-Reaches :
      {A : Type 0} (on_error : Failure → Response → Response) (op : Op A) (c : Conn)
      → Quiet caller op
      → P c.world
      → Reaches P (call on_error op c)
  Quiet-Reaches on_error op c quiet here =
      called-Reaches P on_error c (op c.world)
        (kept.aside c.world (op c.world).1 (quiet c.world) here)

  limited-Keeps :
      (limiter : Limiter) (key : String) (policy : Policy) (next : HandlerFunc)
      → Keeps caller P next
      → Keeps caller P (limited (allow limiter key policy) next)
  unfolding limited
  limited-Keeps limiter key policy next keeps r c mine here =
      settled-Keeps P caller next r c (allow limiter key policy c.world) keeps mine (
        kept.aside c.world (allow limiter key policy c.world).1
          (allow-Beside caller limiter key policy c.world) here)

  apply_route_limit-Keeps :
      (edge : Edge) (limiter : Limiter) (key : String) (policy : Policy) (next : HandlerFunc)
      → Keeps caller P next
      → Keeps caller P (apply_route_limit edge limiter key policy next)
  unfolding apply_route_limit check_key_limit
  apply_route_limit-Keeps edge limiter key policy next keeps r c mine here =
      elim (Bool-cases (key == "")) [
        | inl e ↦ rw e (keeps r c mine here)
        | inr e ↦ rw e (limited-Keeps limiter key policy next keeps r c mine here)
      ]

  pub wrap-Keeps :
      (edge : Edge) (class : String) (next : HandlerFunc)
      → Keeps caller P next
      → Keeps caller P (wrap edge class next)
  unfolding wrap check_class_limit
  wrap-Keeps edge class next keeps r c mine here = elim (Option-cases edge.ports.limiter) [
    | inl e ↦ rw (e, wrap) (keeps r c mine here)
    | inr (limiter, e) ↦
        rw (e, wrap)
          (limited-Keeps limiter (client_key class (client_ip edge.trust_proxy r))
            (policy_for class) next keeps r c mine here)
  ]

  pub wrap_ip-Keeps :
      (edge : Edge) (route : String) (limit : ℕ) (next : HandlerFunc)
      → Keeps caller P next
      → Keeps caller P (wrap_ip edge route limit next)
  unfolding wrap_ip
  wrap_ip-Keeps edge route limit next keeps r c mine here = elim (Option-cases edge.ports.limiter) [
    | inl e ↦ rw (e, wrap_ip) (keeps r c mine here)
    | inr (limiter, e) ↦
        rw (e, wrap_ip)
          (apply_route_limit-Keeps edge limiter
            (edge.ports.runtime.key_for_ip (client_ip edge.trust_proxy r) route)
            (ip_route_policy route limit) next keeps r c mine here)
  ]

  pub wrap_org-Keeps :
      (edge : Edge) (route : String) (next : HandlerFunc)
      → Keeps caller P next
      → Keeps caller P (wrap_org edge route next)
  unfolding wrap_org
  wrap_org-Keeps edge route next keeps r c mine here = elim (Option-cases edge.ports.limiter) [
    | inl e ↦ rw (e, wrap_org) (keeps r c mine here)
    | inr (limiter, e) ↦
        rw (e, wrap_org)
          (apply_route_limit-Keeps edge limiter
            (edge.ports.runtime.key_for_org (path_value "org_id" r) route) (org_route_policy route)
            next keeps r c mine here)
  ]
