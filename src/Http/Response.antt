-- ===== src/Http/Response.antt =====
-- httpapi/response.go: the JSON envelope, and how failures are rendered.
pub mod Rendering
use orbit_api_gateway.Base.{
  ℕ, zero, suc, ◌+◌, ◌-◌, ◌*◌, ◌/◌, ◌%◌, ◌^◌, Bool, String, Option, none, some, [], ◌∷◌, ltb, leb,
  if◌then◌else◌,
}
use orbit_api_gateway.Base.Int.{ℤ, pos, negsuc}
use orbit_api_gateway.Base.Strings.{itoa, itoa_ℕ}
use orbit_api_gateway.Json.{Json, str, object}
use orbit_api_gateway.Domain.Runtime.{second, unix}
use orbit_api_gateway.Domain.Ratelimit.{Decision}
use orbit_api_gateway.Domain.Failure.{Kind, Failure, app, limit}
use orbit_api_gateway.Http.Message.{
  Body, Request, Response, json, set_header, write_header, write, Part, go, answer,
}

abbrev pub max_auth_body : ℕ
max_auth_body = 65536

-- `writeJSON`
unfoldable pub write_json : ℕ → Json → Response → Response
unfolding set_header write_header write
write_json status body w =
    write (json body) (write_header status (set_header "Content-Type" "application/json" w))

-- The body `{"error": message}`.
abbrev pub error_body : String → Json
error_body message = object (("error", str message) ∷ [])

-- What the decoder makes of the first 64 KiB of a body.
unfoldable pub decode_body : {A : Type 0} → (Json → Option A) → Body → Option A
decode_body decode body =
    if ltb max_auth_body body.value_end
    then none
    else elim body.value [ none ↦ none | some v ↦ decode v ]

-- `decodeJSONBody`
unfoldable pub decode_json_body : {A : Type 0} → (Json → Option A) → Request → Part A
unfolding decode_body write_json
decode_json_body decode r c = elim (decode_body decode r.body) [
  | none ↦ answer (write_json 400 (error_body "invalid json")) c
  | some a ↦ go a c
]

-- The status of a failure kind.
unfoldable pub status_of : Kind → ℕ
status_of Kind.internal = 500
status_of Kind.invalid_argument = 400
status_of Kind.unauthenticated = 401
status_of Kind.permission_denied = 403
status_of Kind.failed_precondition = 412
status_of Kind.resource_exhausted = 429
status_of Kind.not_found = 404
status_of Kind.conflict = 409
status_of Kind.bad_gateway = 502

-- `writeAppError`
unfoldable pub write_app_error : Failure → Response → Response
unfolding status_of write_json
write_app_error (app kind message) w = write_json (status_of kind) (error_body message) w
write_app_error _ w = write_json 500 (error_body "upstream error") w

-- `setRateLimitHeaders`
unfoldable pub set_rate_limit_headers : Decision → Response → Response
unfolding set_header itoa unix
set_rate_limit_headers d w = set_header "X-RateLimit-Reset" (itoa (unix d.reset_at)) (
    set_header "X-RateLimit-Remaining" (itoa d.remaining)
      (set_header "X-RateLimit-Limit" (itoa d.limit) w))

-- The largest of the powers of two p, 2 * p, ... that is at most n, where p is, among the first of
-- them.
unfoldable pub binade : ℕ → ℕ → ℕ → ℕ
binade zero p n = p
binade (suc fuel) p n = let higher = binade fuel (2 * p) n in if ltb n (2 * p) then p else higher

-- Whether the sum of the whole seconds s and the nanoseconds r, as a float64 with its mantissa of 53
-- bits, is s + 1: the sum is then less than half a unit in the last place below it.
unfoldable pub rounds_up : ℕ → ℕ → Bool
unfolding binade
rounds_up s r = leb ((second - r) * 2 ^ 53) (second * binade 64 1 s)

-- `int(RetryAfter.Seconds())` of a delay that is not negative.
unfoldable pub whole_seconds : ℕ → ℕ
unfolding rounds_up
whole_seconds n = if rounds_up (n / second) (n % second) then n / second + 1 else n / second

-- `int(RetryAfter.Seconds())`, and at least 1.
unfoldable pub retry_seconds : ℤ → ℕ
unfolding whole_seconds
retry_seconds (pos n) = if ltb (whole_seconds n) 1 then 1 else whole_seconds n
retry_seconds (negsuc n) = 1

-- `writeLimitError`
unfoldable pub write_limit_error : Failure → Response → Response
unfolding write_app_error set_rate_limit_headers retry_seconds write_json
write_limit_error (limit e) w =
    if e.unavailable
    then write_json 503 (error_body "rate limiter unavailable") (set_header "Retry-After" "5" w)
    else write_json 429 (error_body "rate limit exceeded") (
        set_header "Retry-After" (itoa_ℕ (retry_seconds e.decision.retry_after))
          (set_rate_limit_headers e.decision w))
write_limit_error f w = write_app_error f w
