-- ===== src/Domain/Ratelimit.antt =====
-- domain/ratelimit.go: classes, policies, decisions and bucket keys.
use Prim.Native.String.{◌++◌}
use orbit_api_gateway.Base.{ℕ, String, Bool, [], ◌∷◌, take, get_or}
use orbit_api_gateway.Base.Int.{ℤ}
use orbit_api_gateway.Base.Map.{Map, lookup}
use orbit_api_gateway.Base.Strings.{trim_space, to_lower, hex}
use orbit_api_gateway.Domain.Runtime.{Runtime, Time, minute}

abbrev pub class_auth_otp_request : String
class_auth_otp_request = "auth_otp_request"

abbrev pub class_auth_otp_verify : String
class_auth_otp_verify = "auth_otp_verify"

abbrev pub class_auth_password : String
class_auth_password = "auth_password"

abbrev pub class_auth_refresh : String
class_auth_refresh = "auth_refresh"

abbrev pub class_ownership_challenge : String
class_ownership_challenge = "system_ownership_challenge"

abbrev pub class_ownership_verify : String
class_ownership_verify = "system_ownership_verify"

abbrev pub class_dev_onboard_claim : String
class_dev_onboard_claim = "dev_onboard_claim"

abbrev pub class_admin_challenge : String
class_admin_challenge = "admin_challenge"

abbrev pub class_admin_verify : String
class_admin_verify = "admin_verify"

abbrev pub class_onboard_claim : String
class_onboard_claim = "onboard_claim"

abbrev pub signup_ip_limit : ℕ
signup_ip_limit = 5

abbrev pub invite_accept_ip_limit : ℕ
invite_accept_ip_limit = 5

abbrev pub tenant_resolve_ip_limit : ℕ
tenant_resolve_ip_limit = 600

abbrev pub org_route_limit : ℕ
org_route_limit = 60

pub record Policy : Type 0 where
  pub class : String
  pub limit : ℕ
  pub window : ℕ

pub record Decision : Type 0 where
  pub allowed : Bool
  pub limit : ℤ
  pub remaining : ℤ
  pub reset_at : Time
  pub retry_after : ℤ

abbrev pub auth_class_otp_request_limit : ℕ
auth_class_otp_request_limit = 5

abbrev pub auth_class_otp_verify_limit : ℕ
auth_class_otp_verify_limit = 20

abbrev pub auth_class_password_limit : ℕ
auth_class_password_limit = 10

abbrev pub auth_class_refresh_limit : ℕ
auth_class_refresh_limit = 30

abbrev pub otp_identifier_window_limit : ℕ
otp_identifier_window_limit = 3

abbrev pub default_auth_policy_window : ℕ
default_auth_policy_window = minute

abbrev pub route_window : ℕ
route_window = minute

abbrev pub client_key_prefix : String
client_key_prefix = "rl:"

abbrev pub identifier_key_prefix : String
identifier_key_prefix = "rl:" ++ (class_auth_otp_request ++ ":id:")

abbrev auth_policy : String → ℕ → Policy
auth_policy class limit = record {
  class = class;
  limit = limit;
  window = default_auth_policy_window;
}

-- `DefaultAuthPolicies`
unfoldable pub default_auth_policies : Map Policy
default_auth_policies =
    (class_auth_otp_request, auth_policy class_auth_otp_request auth_class_otp_request_limit)
    ∷ (class_auth_otp_verify, auth_policy class_auth_otp_verify auth_class_otp_verify_limit)
    ∷ (class_auth_password, auth_policy class_auth_password auth_class_password_limit)
    ∷ (class_auth_refresh, auth_policy class_auth_refresh auth_class_refresh_limit)
    ∷ []

-- `OTPRequestIdentifierPolicy`
abbrev pub otp_request_identifier_policy : Policy
otp_request_identifier_policy = auth_policy class_auth_otp_request otp_identifier_window_limit

-- `IPRoutePolicy`
abbrev pub ip_route_policy : String → ℕ → Policy
ip_route_policy route limit = record { class = route; limit = limit; window = route_window }

-- `OrgRoutePolicy`
abbrev pub org_route_policy : String → Policy
org_route_policy route = record { class = route; limit = org_route_limit; window = route_window }

-- `PolicyFor`: a class that the map lacks has the zero policy.
unfoldable pub policy_for : String → Policy
unfolding default_auth_policies lookup
policy_for class =
    get_or (record { class = ""; limit = 0; window = 0 }) (lookup class default_auth_policies)

-- `ClientKey`
unfoldable pub client_key : String → String → String
client_key class client_ip = client_key_prefix ++ (class ++ (":" ++ client_ip))

module _ (rt : Runtime) where
  -- `HashIdentifier`: 16 hexadecimal digits are those of 8 bytes.
  unfoldable pub hash_identifier : String → String
  unfolding trim_space to_lower hex
  hash_identifier identifier =
      hex (take 8 (rt.sha256 (to_lower rt.wide_lower (trim_space identifier))))

  -- `IdentifierKey`
  unfoldable pub identifier_key : String → String
  unfolding hash_identifier
  identifier_key identifier = identifier_key_prefix ++ hash_identifier identifier
