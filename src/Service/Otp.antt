-- ===== src/Service/Otp.antt =====
-- application/auth.go: one-time passwords and password logins. `VerifyOTP`, `RefreshToken` and
-- `ValidateAPIToken` pass on to the adapter.
pub mod Budget
use orbit_api_gateway.Base.{String, Option, ◌==◌, if◌then◌else◌}
use orbit_api_gateway.Domain.Ratelimit.{Decision}
use orbit_api_gateway.Domain.Auth.{TokenPair, OtpRequest, PasswordLogin}
use orbit_api_gateway.World.{Ports, Op, pure, ◌>>=◌}
use orbit_api_gateway.Upstream.Client
use orbit_api_gateway.Service.Limits.{check_identifier_limit}

pub record OtpReceipt : Type 0 where
  pub expires_at : String
  pub identifier_limit : Option Decision

-- The identifier, or the deprecated email address where it is empty.
unfoldable pub identifier_or : String → String → String
identifier_or identifier email = if identifier == "" then email else identifier

module _ (ports : Ports) where
  -- `RequestOTP`
  unfoldable pub request_otp : OtpRequest → Op OtpReceipt
  unfolding identifier_or check_identifier_limit Client.request_otp
  request_otp i = do
    limit ← check_identifier_limit ports.runtime ports.limiter (identifier_or i.identifier i.email)
    expires_at ← Client.request_otp ports i
    pure (record { expires_at = expires_at; identifier_limit = limit })

  -- `Login`
  unfoldable pub login : PasswordLogin → Op TokenPair
  unfolding identifier_or Client.login_with_password
  login i = Client.login_with_password ports (record {
    identifier = identifier_or i.identifier i.email;
    email = "";
    password = i.password;
  })
