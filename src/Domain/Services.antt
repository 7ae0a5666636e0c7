-- ===== src/Domain/Services.antt =====
-- The ports of the domain: the interfaces of domain/auth.go, orgs.go, signup.go, flags.go,
-- ownership.go, onboarding.go and audit.go, as records of operations.
use orbit_api_gateway.Base.{String, List}
use orbit_api_gateway.Domain.Auth.{
  TokenPair, OtpRequest, OtpVerification, PasswordLogin, ApiIdentity, SignupRegistration,
  SignupVerification,
}
use orbit_api_gateway.Domain.Orgs.{Organization, Membership, Invite, Tenant}
use orbit_api_gateway.Domain.Flags.{FlagSet}
use orbit_api_gateway.World.{Op}

-- `AuthService`
pub record AuthService : Type 0 where
  pub request_otp : OtpRequest → Op String
  pub verify_otp : OtpVerification → Op TokenPair
  pub login_with_password : PasswordLogin → Op TokenPair
  pub refresh_token : String → Op TokenPair
  pub validate_api_token : String → Op ApiIdentity

-- `OrgService`
pub record OrgService : Type 0 where
  pub create_org : String → String → String → Op Organization
  pub set_org_slug : String → String → String → Op Organization
  pub list_my_orgs : String → Op (List Organization)
  pub list_members : String → String → Op (List Membership)
  pub add_member : String → String → String → Op (Unit {0})
  pub remove_member : String → String → String → Op (Unit {0})
  pub suspend_member : String → String → String → Op (Unit {0})
  pub set_member_role : String → String → String → String → Op Membership
  pub invite_member : String → String → String → Op Invite
  pub accept_invite : String → String → Op Invite
  pub revoke_invite : String → String → String → Op (Unit {0})
  pub list_invites : String → String → Op (List Invite)
  pub select_org : String → String → String → Op TokenPair

-- `TenantService`
pub record TenantService : Type 0 where
  pub resolve_tenant : String → Op Tenant

-- `SignupService`
pub record SignupService : Type 0 where
  pub register_with_email : SignupRegistration → Op (Unit {0})
  pub verify_signup : SignupVerification → Op TokenPair

-- `FlagSource`
pub record FlagSource : Type 0 where
  pub list_flags : Op FlagSet
