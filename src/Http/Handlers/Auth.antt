-- ===== src/Http/Handlers/Auth.antt =====
-- The authentication routes of httpapi/handlers.go and the sign-up routes of httpapi/orgs.go, with
-- the use cases of application/auth.go and application/orgs.go that they call.
use orbit_api_gateway.Base.{String, Option, none, some, [], ◌∷◌}
use orbit_api_gateway.Json.{Json, str, object, string_field}
use orbit_api_gateway.Domain.Ratelimit.{Decision}
use orbit_api_gateway.Domain.Auth.{
  TokenPair, OtpRequest, OtpVerification, PasswordLogin, SignupRegistration, SignupVerification,
}
use orbit_api_gateway.World.{Op}
use orbit_api_gateway.Service.Otp.{request_otp, login}
use orbit_api_gateway.Service.Passed.{verify_otp, refresh_token, register_with_email, verify_signup}
use orbit_api_gateway.Http.Names.{signup_status_verification_sent}
use orbit_api_gateway.Http.Message.{
  Response, HandlerFunc, ◌>>=◌, ◌>>◌, call, answer, respond, finish,
}
use orbit_api_gateway.Http.Response.{
  write_json, decode_json_body, write_app_error, write_limit_error, set_rate_limit_headers,
}
use orbit_api_gateway.Http.Limits.{Edge}

infixl 4 ◌<&>◌
abbrev pub ◌<&>◌ {ℓ κ} : {A : Type ℓ} {B : Type κ} → Option A → (A → Option B) → Option B
none <&> k = none
some a <&> k = k a

-- Decoding of an `otpRequestBody`, into the message that it becomes.
unfoldable pub decode_otp_request : Json → Option OtpRequest
unfolding string_field
decode_otp_request doc = string_field "identifier" doc <&> λ i. string_field "channel" doc <&> λ c.
    string_field "email" doc <&> λ e. string_field "correlation_id" doc <&> λ id.
    some (record { identifier = i; channel = c; email = e; correlation_id = id })

-- Decoding of an `otpVerifyBody`.
unfoldable pub decode_otp_verify : Json → Option OtpVerification
unfolding string_field
decode_otp_verify doc = string_field "identifier" doc <&> λ i. string_field "channel" doc <&> λ c.
    string_field "email" doc <&> λ e. string_field "code" doc <&> λ code.
    some (record { identifier = i; channel = c; email = e; code = code })

-- Decoding of a `refreshBody`.
unfoldable pub decode_refresh : Json → Option String
unfolding string_field
decode_refresh doc = string_field "refresh_token" doc

-- Decoding of a `loginBody`.
unfoldable pub decode_login : Json → Option PasswordLogin
unfolding string_field
decode_login doc = string_field "identifier" doc <&> λ i. string_field "email" doc <&> λ e.
    string_field "password" doc <&> λ p. some (record { identifier = i; email = e; password = p })

-- Decoding of a `signupBody`.
unfoldable pub decode_signup : Json → Option SignupRegistration
unfolding string_field
decode_signup doc = string_field "email" doc <&> λ e. string_field "password" doc <&> λ p.
    string_field "display_name" doc <&> λ d. string_field "locale" doc <&> λ l.
    string_field "org_name" doc <&> λ o. string_field "invite_token" doc <&> λ t. some (record {
      email = e;
      password = p;
      display_name = d;
      locale = l;
      org_name = o;
      invite_token = t;
    })

-- Decoding of a `signupVerifyBody`.
unfoldable pub decode_signup_verify : Json → Option SignupVerification
unfolding string_field
decode_signup_verify doc = string_field "email" doc <&> λ e. string_field "code" doc <&> λ c.
    string_field "password" doc <&> λ p. some (record { email = e; code = c; password = p })

-- `writeTokens`
unfoldable pub write_tokens : TokenPair → Response → Response
unfolding write_json
write_tokens tokens = write_json 200 (
    object (
      ("access_token", str tokens.access_token)
      ∷ ("expires_at", str tokens.expires_at)
      ∷ ("refresh_token", str tokens.refresh_token)
      ∷ []))

-- `signupAcceptedResponse`
unfoldable pub signup_accepted_response : String → Json
signup_accepted_response status = object (("status", str status) ∷ [])

-- The headers of a budget that a request consumed, if it did.
abbrev pub budget_headers : Option Decision → Response → Response
budget_headers none w = w
budget_headers (some d) w = set_rate_limit_headers d w

module _ (edge : Edge) where
  -- A route that decodes a body and answers with tokens.
  unfoldable pub token_route : {A : Type 0} → (Json → Option A) → (A → Op TokenPair) → HandlerFunc
  unfolding decode_json_body write_app_error write_tokens
  token_route decode op r c = finish (
      (do
        body ← decode_json_body decode r
        tokens ← call write_app_error (op body)
        answer {A = Unit {0}} (write_tokens tokens))
        c)

  -- `requestOTP`
  unfoldable pub request_otp_route : HandlerFunc
  unfolding decode_json_body decode_otp_request request_otp write_limit_error
  request_otp_route r c = finish (
      (do
        body ← decode_json_body decode_otp_request r
        receipt ← call write_limit_error (request_otp edge.ports body)
        respond (budget_headers receipt.identifier_limit)
        answer {A = Unit {0}}
            (write_json 200 (object (("expires_at", str receipt.expires_at) ∷ []))))
        c)

  -- `verifyOTP`
  unfoldable pub verify_otp_route : HandlerFunc
  unfolding token_route decode_otp_verify verify_otp
  verify_otp_route = token_route decode_otp_verify (verify_otp edge.ports)

  -- `login`
  unfoldable pub login_route : HandlerFunc
  unfolding token_route decode_login login
  login_route = token_route decode_login (login edge.ports)

  -- `refreshToken`
  unfoldable pub refresh_token_route : HandlerFunc
  unfolding token_route decode_refresh refresh_token
  refresh_token_route = token_route decode_refresh (refresh_token edge.ports)

  -- `signupVerify`
  unfoldable pub signup_verify_route : HandlerFunc
  unfolding token_route decode_signup_verify verify_signup
  signup_verify_route = token_route decode_signup_verify (verify_signup edge.ports)

  -- `signup`
  unfoldable pub signup_route : HandlerFunc
  unfolding decode_json_body decode_signup register_with_email write_app_error
      signup_accepted_response
  signup_route r c = finish (
      (do
        body ← decode_json_body decode_signup r
        call write_app_error (register_with_email edge.ports body)
        answer {A = Unit {0}}
            (write_json 202 (signup_accepted_response signup_status_verification_sent)))
        c)
