-- ===== src/Domain/Auth.antt =====
-- domain/auth.go and domain/signup.go: the messages of the authentication ports.
use orbit_api_gateway.Base.{String, List}

pub record TokenPair : Type 0 where
  pub access_token : String
  pub refresh_token : String
  pub expires_at : String

pub record OtpRequest : Type 0 where
  pub identifier : String
  pub channel : String
  pub email : String
  pub correlation_id : String

pub record OtpVerification : Type 0 where
  pub identifier : String
  pub channel : String
  pub email : String
  pub code : String

pub record PasswordLogin : Type 0 where
  pub identifier : String
  pub email : String
  pub password : String

pub record ApiIdentity : Type 0 where
  pub user_id : String
  pub scopes : List String

pub record SignupRegistration : Type 0 where
  pub email : String
  pub password : String
  pub display_name : String
  pub locale : String
  pub org_name : String
  pub invite_token : String

pub record SignupVerification : Type 0 where
  pub email : String
  pub code : String
  pub password : String
