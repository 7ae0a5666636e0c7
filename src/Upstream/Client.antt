-- ===== src/Upstream/Client.antt =====
-- The calls of auth/client.go to orbit-auth's AuthService and SignupService.
use orbit_api_gateway.Base.{String, none, [], ◌∷◌}
use orbit_api_gateway.Base.Map.{Map}
use orbit_api_gateway.Json.{Json, field, get_string}
use orbit_api_gateway.Grpc.{Rpc, RpcError, RpcReply, reply, failed}
use orbit_api_gateway.Domain.Failure.{Failure, Result, ok, err}
use orbit_api_gateway.Domain.Auth.{
  TokenPair, OtpRequest, OtpVerification, PasswordLogin, ApiIdentity, SignupRegistration,
  SignupVerification,
}
use orbit_api_gateway.World.{Ports, Op, rpc, note_call}
use orbit_api_gateway.Upstream.Status.{upstream_error, signup_upstream_error}
use orbit_api_gateway.Upstream.Convert.{token_pair, api_identity}

-- What a method makes of the answer to its call.
unfoldable pub receive : {A : Type 0} → (RpcError → Failure) → (Json → A) → RpcReply → Result A
receive on_error convert (reply m) = ok (convert m)
receive on_error convert (failed e) = err (on_error e)

-- One call: the answer is converted, an error is mapped, and the call is on record either way.
unfoldable pub invoke : {A : Type 0} → Ports → (RpcError → Failure) → (Json → A) → Rpc → Op A
unfolding receive
invoke ports on_error convert r w =
    (receive on_error convert (ports.upstream w.calls r), note_call (rpc r) w)

-- A call without metadata.
abbrev pub plain_rpc : String → Map String → Rpc
plain_rpc method fields = record { method = method; authorization = none; fields = fields }

module _ (ports : Ports) where
  -- `Client.RequestOTP`
  unfoldable pub request_otp : OtpRequest → Op String
  unfolding invoke upstream_error get_string
  request_otp i = invoke ports upstream_error (get_string "expires_at") (
      plain_rpc "RequestOTP" (
        ("identifier", i.identifier)
        ∷ ("channel", i.channel)
        ∷ ("email", i.email)
        ∷ ("correlation_id", i.correlation_id)
        ∷ []))

  -- `Client.VerifyOTP`
  unfoldable pub verify_otp : OtpVerification → Op TokenPair
  unfolding invoke upstream_error token_pair field
  verify_otp i =
      invoke ports upstream_error (λ m. token_pair (field "tokens" m))
        (plain_rpc "VerifyOTP" (
          ("identifier", i.identifier)
          ∷ ("channel", i.channel)
          ∷ ("email", i.email)
          ∷ ("code", i.code)
          ∷ []))

  -- `Client.LoginWithPassword`
  unfoldable pub login_with_password : PasswordLogin → Op TokenPair
  unfolding invoke upstream_error token_pair
  login_with_password i =
      invoke ports upstream_error token_pair (
        plain_rpc "LoginWithPassword"
          (("identifier", i.identifier) ∷ ("password", i.password) ∷ []))

  -- `Client.RefreshToken`
  unfoldable pub refresh_token : String → Op TokenPair
  unfolding invoke upstream_error token_pair
  refresh_token token =
      invoke ports upstream_error token_pair
        (plain_rpc "RefreshToken" (("refresh_token", token) ∷ []))

  -- `Client.ValidateAPIToken`
  unfoldable pub validate_api_token : String → Op ApiIdentity
  unfolding invoke upstream_error api_identity
  validate_api_token secret =
      invoke ports upstream_error api_identity
        (plain_rpc "ValidateApiToken" (("secret", secret) ∷ []))

  -- `Client.RegisterWithEmail`
  unfoldable pub register_with_email : SignupRegistration → Op (Unit {0})
  unfolding invoke signup_upstream_error
  register_with_email i =
      invoke ports signup_upstream_error (λ m. tt)
        (plain_rpc "RegisterWithEmail" (
          ("email", i.email)
          ∷ ("password", i.password)
          ∷ ("display_name", i.display_name)
          ∷ ("locale", i.locale)
          ∷ ("org_name", i.org_name)
          ∷ ("invite_token", i.invite_token)
          ∷ []))

  -- `Client.VerifySignup`
  unfoldable pub verify_signup : SignupVerification → Op TokenPair
  unfolding invoke signup_upstream_error token_pair field
  verify_signup i =
      invoke ports signup_upstream_error (λ m. token_pair (field "tokens" m))
        (plain_rpc "VerifySignup"
          (("email", i.email) ∷ ("code", i.code) ∷ ("password", i.password) ∷ []))
