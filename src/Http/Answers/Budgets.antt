-- ===== src/Http/Answers/Budgets.antt =====
-- A budget before a handler that answers once: the two answer once.
use orbit_api_gateway.Base.{ℕ, inl, inr, String, ◌==◌, Option-cases, Bool-cases}
use orbit_api_gateway.Domain.Ratelimit.{Policy, Decision, ip_route_policy, org_route_policy}
use orbit_api_gateway.Domain.Failure.{Result, ok, err}
use orbit_api_gateway.World.{World, Op, Limiter}
use orbit_api_gateway.Service.Limits.{check_class_limit, check_key_limit}
use orbit_api_gateway.Http.Message.{Request, Conn, HandlerFunc, respond, call, path_value}
use orbit_api_gateway.Http.Response.{set_rate_limit_headers, write_limit_error}
use orbit_api_gateway.Http.Client.{client_ip}
use orbit_api_gateway.Http.Limits.{
  Edge, limited, wrap, apply_route_limit, wrap_ip, wrap_org, charge_org, check_org_limit,
}
use orbit_api_gateway.Http.Answers.{Answered, Answers, IsBlank, blank, write_limit_error-Renders}
use orbit_api_gateway.Http.Answers.Parts.{Steps, bound-Steps, called-Steps}

pub budget-IsBlank :
    (d : Decision) (c : Conn)
    → IsBlank c
    → IsBlank (record c { response = set_rate_limit_headers d c.response })
unfolding set_rate_limit_headers
budget-IsBlank d _ (blank world headers) = blank world _

settled-Answered :
    (next : HandlerFunc) (r : Request) (c : Conn) (x : Result Decision × World)
    → Answers next
    → IsBlank c
    → Answered (limited (λ _. x) next r c).response
unfolding limited
settled-Answered next r _ (ok d, w) answers (blank world headers) = answers r _ (blank w _)
settled-Answered next r _ (err f, w) answers (blank world headers) =
    write_limit_error-Renders f headers

limited-Answers :
    (check : Op Decision) (next : HandlerFunc) → Answers next → Answers (limited check next)
unfolding limited
limited-Answers check next answers r c here = settled-Answered next r c (check c.world) answers here

module _ (edge : Edge) where
  apply_route_limit-Answers :
      (limiter : Limiter) (key : String) (policy : Policy) (next : HandlerFunc)
      → Answers next
      → Answers (apply_route_limit edge limiter key policy next)
  unfolding apply_route_limit
  apply_route_limit-Answers limiter key policy next answers r c here =
      elim (Bool-cases (key == "")) [
        | inl e ↦ rw e (answers r c here)
        | inr e ↦ rw e (limited-Answers (check_key_limit limiter key policy) next answers r c here)
      ]

  pub wrap-Answers :
      (class : String) (next : HandlerFunc) → Answers next → Answers (wrap edge class next)
  unfolding wrap
  wrap-Answers class next answers r c here = elim (Option-cases edge.ports.limiter) [
    | inl e ↦ rw (e, wrap) (answers r c here)
    | inr (limiter, e) ↦
        rw (e, wrap)
          (limited-Answers (check_class_limit limiter class (client_ip edge.trust_proxy r)) next
            answers r c here)
  ]

  pub wrap_ip-Answers :
      (route : String) (limit : ℕ) (next : HandlerFunc)
      → Answers next
      → Answers (wrap_ip edge route limit next)
  unfolding wrap_ip
  wrap_ip-Answers route limit next answers r c here = elim (Option-cases edge.ports.limiter) [
    | inl e ↦ rw (e, wrap_ip) (answers r c here)
    | inr (limiter, e) ↦
        rw (e, wrap_ip)
          (apply_route_limit-Answers limiter
            (edge.ports.runtime.key_for_ip (client_ip edge.trust_proxy r) route)
            (ip_route_policy route limit) next answers r c here)
  ]

  pub wrap_org-Answers :
      (route : String) (next : HandlerFunc) → Answers next → Answers (wrap_org edge route next)
  unfolding wrap_org
  wrap_org-Answers route next answers r c here = elim (Option-cases edge.ports.limiter) [
    | inl e ↦ rw (e, wrap_org) (answers r c here)
    | inr (limiter, e) ↦
        rw (e, wrap_org)
          (apply_route_limit-Answers limiter
            (edge.ports.runtime.key_for_org (path_value "org_id" r) route) (org_route_policy route)
            next answers r c here)
  ]

  charge_org-Steps :
      (limiter : Limiter) (org_id route : String) (c : Conn)
      → IsBlank c
      → Steps (charge_org edge limiter org_id route c)
  unfolding charge_org
  charge_org-Steps limiter org_id route c here =
      let key = edge.ports.runtime.key_for_org org_id route in
      let check = check_key_limit limiter key (org_route_policy route) in
      elim (Bool-cases (key == "")) [
        | inl e ↦ rw e here
        | inr e ↦ rw e (
            bound-Steps (call write_limit_error check c) (λ d. respond (set_rate_limit_headers d))
              (called-Steps write_limit_error c (check c.world) (λ f. write_limit_error-Renders f)
                here)
              (λ d c' here'. budget-IsBlank d c' here'))
      ]

  pub check_org_limit-Steps :
      (org_id route : String) (c : Conn) → IsBlank c → Steps (check_org_limit edge org_id route c)
  unfolding check_org_limit
  check_org_limit-Steps org_id route c here = elim (Option-cases edge.ports.limiter) [
    | inl e ↦ rw (e, check_org_limit) here
    | inr (limiter, e) ↦ rw (e, check_org_limit) (charge_org-Steps limiter org_id route c here)
  ]
