-- ===== src/Http/Limits/Denial.antt =====
-- A budget that is spent, or that cannot be checked, keeps the handler from running.
use orbit_api_gateway.Base.{
  ◌≡◌, ◌⊎◌, inl, inr, refl, String, true, false, Option, none, some, Bool-cases,
}
use orbit_api_gateway.Base.Strings.{itoa_ℕ}
use orbit_api_gateway.Domain.Ratelimit.{Policy, Decision, client_key, policy_for}
use orbit_api_gateway.World.{World, rate_check, Limiter, note_call}
use orbit_api_gateway.Service.Limits.{settle, allow, check_class_limit}
use orbit_api_gateway.Http.Message.{Request, Conn, HandlerFunc, set_header}
use orbit_api_gateway.Http.Response.{write_json, error_body, set_rate_limit_headers, retry_seconds}
use orbit_api_gateway.Http.Client.{client_ip}
use orbit_api_gateway.Http.Limits.{Edge, limited, wrap}

-- The answer of a limiter decides what a limited route does.
abbrev pub Guarded : Option Decision → World → HandlerFunc → Request → Conn → Conn → Type 0
Guarded none asked next r c c' = c' ≡ record {
  world = asked;
  response =
      write_json 503 (error_body "rate limiter unavailable")
        (set_header "Retry-After" "5" c.response);
}
Guarded (some d) asked next r c c' =
    ((d.allowed ≡ true)
      × (c' ≡ next r (record { world = asked; response = set_rate_limit_headers d c.response })))
    ⊎ ((d.allowed ≡ false)
        × (c' ≡ record {
          world = asked;
          response = write_json 429 (error_body "rate limit exceeded") (
              set_header "Retry-After" (itoa_ℕ (retry_seconds d.retry_after))
                (set_rate_limit_headers d c.response));
        }))

settle-Guarded :
    (next : HandlerFunc) (r : Request) (c : Conn) (o : Option Decision) (asked : World)
    → Guarded o asked next r c (limited (λ _. settle o asked) next r c)
unfolding limited settle
settle-Guarded next r c none asked = refl
settle-Guarded next r c (some d) asked = elim (Bool-cases d.allowed) [
  | inl h ↦ rw h (inl (refl, refl))
  | inr h ↦ rw h (inr (refl, refl))
]

pub limited-Guarded :
    (next : HandlerFunc) (r : Request) (c : Conn) (limiter : Limiter) (key : String)
    (policy : Policy)
    → Guarded
        (limiter c.world.calls key policy)
        (note_call (rate_check key policy) c.world)
        next
        r
        c
        (limited (allow limiter key policy) next r c)
unfolding limited allow
limited-Guarded next r c limiter key policy =
    settle-Guarded next r c (limiter c.world.calls key policy)
      (note_call (rate_check key policy) c.world)

-- With a limiter, a route under a class asks it once, for the bucket of its class and client. The handler
-- runs only if the limiter allows it, with the budget in the headers. A denial answers 429 with
-- the budget and a delay, a limiter that fails 503, and then nothing else of the world changes.
pub wrap-Guarded :
    (edge : Edge) (class : String) (next : HandlerFunc) (r : Request) (c : Conn) (limiter : Limiter)
    → edge.ports.limiter ≡ some limiter
    → let key = client_key class (client_ip edge.trust_proxy r) in
      Guarded
        (limiter c.world.calls key (policy_for class))
        (note_call (rate_check key (policy_for class)) c.world)
        next
        r
        c
        (wrap edge class next r c)
unfolding wrap check_class_limit
wrap-Guarded edge class next r c limiter e =
    rw (e, wrap)
      (limited-Guarded next r c limiter (client_key class (client_ip edge.trust_proxy r))
        (policy_for class))
