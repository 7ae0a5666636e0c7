-- ===== src/Http/Response/Rendering.antt =====
-- What a client sees of an upstream failure and of a rejected budget.
use orbit_api_gateway.Base.{
  ℕ, ◌+◌, ◌*◌, ◌≤◌, ◌<◌, ◌≡◌, ◌⊎◌, inl, inr, false, Bool-cases, ◌-◌, ◌^◌, ◌/◌, ◌%◌, zero, suc, ltb,
  leb, refl, String, Option, none, some, arith,
}
use orbit_api_gateway.Base.Int.{pos, negsuc}
use orbit_api_gateway.Domain.Runtime.{second}
use orbit_api_gateway.Grpc.{Code, status}
use orbit_api_gateway.Upstream.Status.{upstream_error, org_upstream_error}
use orbit_api_gateway.Http.Message.{Response}
use orbit_api_gateway.Http.Response.{
  write_json, error_body, write_app_error, binade, rounds_up, whole_seconds, retry_seconds,
}

-- The HTTP status that `upstreamError` and `writeAppError` give a gRPC code; `none` is the generic 500.
pub auth_status : Code → Option ℕ
auth_status Code.invalid_argument = some 400
auth_status Code.unauthenticated = some 401
auth_status Code.permission_denied = some 403
auth_status Code.failed_precondition = some 412
auth_status Code.resource_exhausted = some 429
auth_status _ = none

-- The same for `orgUpstreamError`; `none` is the generic 502.
pub org_status : Code → Option ℕ
org_status Code.invalid_argument = some 400
org_status Code.unauthenticated = some 401
org_status Code.permission_denied = some 403
org_status Code.not_found = some 404
org_status Code.failed_precondition = some 409
org_status Code.already_exists = some 409
org_status Code.resource_exhausted = some 429
org_status _ = none

-- The upstream's own message under a mapped status, or the generic text under the other one.
abbrev pub Shown : ℕ → Option ℕ → String → Response → Response
Shown generic none message w = write_json generic (error_body "upstream error") w
Shown generic (some s) message w = write_json s (error_body message) w

-- A mapped gRPC code is rendered as its HTTP status with the upstream's message, any other code as
-- 500 with a text that says nothing of it.
pub upstream_error-rendered :
    (code : Code) (message : String) (w : Response)
    → write_app_error (upstream_error (status code message)) w
      ≡ Shown 500 (auth_status code) message w
unfolding write_app_error upstream_error auth_status
upstream_error-rendered Code.invalid_argument message w = refl
upstream_error-rendered Code.unauthenticated message w = refl
upstream_error-rendered Code.permission_denied message w = refl
upstream_error-rendered Code.failed_precondition message w = refl
upstream_error-rendered Code.resource_exhausted message w = refl
upstream_error-rendered _ message w = refl

-- The same for `orgUpstreamError`, with 404 for a missing resource and 409 for a conflict, and 502 for
-- any other code.
pub org_upstream_error-rendered :
    (code : Code) (message : String) (w : Response)
    → write_app_error (org_upstream_error (status code message)) w
      ≡ Shown 502 (org_status code) message w
unfolding write_app_error org_upstream_error org_status
org_upstream_error-rendered Code.invalid_argument message w = refl
org_upstream_error-rendered Code.unauthenticated message w = refl
org_upstream_error-rendered Code.permission_denied message w = refl
org_upstream_error-rendered Code.not_found message w = refl
org_upstream_error-rendered Code.failed_precondition message w = refl
org_upstream_error-rendered Code.already_exists message w = refl
org_upstream_error-rendered Code.resource_exhausted message w = refl
org_upstream_error-rendered _ message w = refl

binade_bound : (fuel p n : ℕ) → p ≤ n → binade fuel p n ≤ n
unfolding binade
binade_bound zero p n h = h
binade_bound (suc fuel) p n h = elim (Bool-cases (ltb n (2 * p))) [
  | inl e ↦ rw e h
  | inr e ↦ rw e (binade_bound fuel (2 * p) n (ground arith))
]

binade_small : (n : ℕ) → n < 2 ^ 23 → binade 64 1 n ≤ 2 ^ 23
unfolding binade
binade_small zero h = omega arith
binade_small (suc n) h = omega (arith, binade_bound 64 1 (suc n) (omega arith))

leb-false : (a b : ℕ) → b < a → leb a b ≡ false
leb-false a b h = ground arith

-- Below 2^23 seconds the sum does not round up.
rounds_up-small : (s r : ℕ) → s < 2 ^ 23 → r < second → rounds_up s r ≡ false
unfolding rounds_up
rounds_up-small s r h k =
    let b = binade 64 1 s in
    let top : b ≤ 2 ^ 23 = binade_small s h in
    leb-false ((second - r) * 2 ^ 53) (second * b) (omega arith)

whole_seconds-small : (n : ℕ) → n < 2 ^ 23 * second → whole_seconds n ≡ n / second
unfolding whole_seconds
whole_seconds-small n h =
    rw (rounds_up-small (n / second) (n % second) (omega arith) (omega arith)) refl

-- `Retry-After` is one second for a delay below a second or none, and otherwise the whole seconds
-- of the delay, rounded down, as long as it is below 2^23 seconds (97 days).
pub retry_seconds_bounds :
    (n k : ℕ)
    → n < 2 ^ 23 * second
    → (retry_seconds (negsuc k) ≡ 1)
      × (((n < second) × (retry_seconds (pos n) ≡ 1))
          ⊎ ((1 ≤ retry_seconds (pos n))
              × (retry_seconds (pos n) * second ≤ n)
              × (n < (retry_seconds (pos n) + 1) * second)))
unfolding retry_seconds
retry_seconds_bounds n k h = (refl, rw (whole_seconds-small n h) (ground arith))
