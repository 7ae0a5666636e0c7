-- ===== src/Http/Answers.antt =====
-- A handler answers a request exactly once: one status line and one body.
pub mod Parts
pub mod Budgets
pub mod Handlers
pub mod Table
use orbit_api_gateway.Base.{◌≡◌, refl, inl, inr, ℕ, String, none, some, [], ◌∷◌, Bool-cases}
use orbit_api_gateway.Base.Strings.{itoa_ℕ}
use orbit_api_gateway.Base.Map.{Map, lookup, lookup-insert}
use orbit_api_gateway.Json.{Json}
use orbit_api_gateway.Domain.Failure.{Failure, app, limit, plain}
use orbit_api_gateway.World.{World}
use orbit_api_gateway.Http.Message.{
  Payload, Request, Response, Conn, HandlerFunc, json, text, set_header,
}
use orbit_api_gateway.Http.Response.{
  write_json, write_app_error, write_limit_error, set_rate_limit_headers, retry_seconds,
}

-- Nothing was sent yet; there may be headers.
abbrev pub unsent : Map String → Response
unsent headers = record { headers = headers; sent = none; body = [] }

-- The headers name the type of the body: JSON under its own type, and any other under some type.
abbrev pub IsTyped : Payload → Map String → Type 0
IsTyped (json body) headers = lookup "Content-Type" headers ≡ some "application/json"
IsTyped (text body) headers = (type : String) × (lookup "Content-Type" headers ≡ some type)

-- A status was sent, and one piece of body was written, under headers that name its type.
pub record Answered (w : Response) : Type 0 where
  pub status : ℕ
  pub headers : Map String
  pub payload : Payload
  pub sent : w.sent ≡ some (status, headers)
  pub body : w.body ≡ payload ∷ []
  pub typed : IsTyped payload headers

-- A response that answers, when nothing was sent before.
abbrev pub Renders : (Response → Response) → Type 0
Renders f = (headers : Map String) → Answered (f (unsent headers))

pub data IsBlank : Conn → Type 0 where
  blank :
      (world : World) (headers : Map String)
      → IsBlank (record { world = world; response = unsent headers })

abbrev pub Answers : HandlerFunc → Type 0
Answers next = (r : Request) (c : Conn) → IsBlank c → Answered (next r c).response

pub write_json-Renders : (status : ℕ) (body : Json) → Renders (write_json status body)
unfolding write_json
write_json-Renders status body headers = record {
  status = status;
  headers = _;
  payload = json body;
  sent = refl;
  body = refl;
  typed = lookup-insert "Content-Type" "Content-Type" "application/json" headers;
}

pub write_app_error-Renders : (f : Failure) → Renders (write_app_error f)
unfolding write_app_error
write_app_error-Renders (app kind message) headers = write_json-Renders _ _ headers
write_app_error-Renders (limit e) headers = write_json-Renders _ _ headers
write_app_error-Renders (plain message) headers = write_json-Renders _ _ headers

pub write_limit_error-Renders : (f : Failure) → Renders (write_limit_error f)
unfolding write_limit_error
write_limit_error-Renders (app kind message) headers =
    write_app_error-Renders (app kind message) headers
write_limit_error-Renders (plain message) headers = write_app_error-Renders (plain message) headers
write_limit_error-Renders (limit e) headers = elim (Bool-cases e.unavailable) [
  | inl h ↦ rw h (write_json-Renders _ _ (set_header "Retry-After" "5" (unsent headers)).headers)
  | inr h ↦ rw h (
      write_json-Renders _ _
        (set_header "Retry-After" (itoa_ℕ (retry_seconds e.decision.retry_after))
          (set_rate_limit_headers e.decision (unsent headers))).headers)
]
