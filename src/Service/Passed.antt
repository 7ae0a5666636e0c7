-- ===== src/Service/Passed.antt =====
-- The methods of application/orgs.go that pass on to a port, and those of application/auth.go and
-- application/flags.go: the client of orbit-auth implements each port.
use orbit_api_gateway.Base.{String, List}
use orbit_api_gateway.Domain.Auth.{
  TokenPair, OtpVerification, ApiIdentity, SignupRegistration, SignupVerification,
}
use orbit_api_gateway.Domain.Orgs.{Organization, Membership, Invite, Tenant}
use orbit_api_gateway.Domain.Flags.{FlagSet}
use orbit_api_gateway.World.{Ports, Op}
use orbit_api_gateway.Upstream.Services.{
  auth_service, org_service, tenant_service, signup_service, flag_source,
}

module _ (ports : Ports) where
  -- `RegisterWithEmail`
  unfoldable pub register_with_email : SignupRegistration → Op (Unit {0})
  unfolding signup_service
  register_with_email i = (signup_service ports).register_with_email i

  -- `VerifySignup`
  unfoldable pub verify_signup : SignupVerification → Op TokenPair
  unfolding signup_service
  verify_signup i = (signup_service ports).verify_signup i

  -- `CreateOrg`
  unfoldable pub create_org : String → String → String → Op Organization
  unfolding org_service
  create_org name slug access_token = (org_service ports).create_org name slug access_token

  -- `SetOrgSlug`
  unfoldable pub set_org_slug : String → String → String → Op Organization
  unfolding org_service
  set_org_slug org_id slug access_token = (org_service ports).set_org_slug org_id slug access_token

  -- `ResolveTenant`
  unfoldable pub resolve_tenant : String → Op Tenant
  unfolding tenant_service
  resolve_tenant slug = (tenant_service ports).resolve_tenant slug

  -- `ListMyOrgs`
  unfoldable pub list_my_orgs : String → Op (List Organization)
  unfolding org_service
  list_my_orgs access_token = (org_service ports).list_my_orgs access_token

  -- `ListMembers`
  unfoldable pub list_members : String → String → Op (List Membership)
  unfolding org_service
  list_members org_id access_token = (org_service ports).list_members org_id access_token

  -- `AddMember`
  unfoldable pub add_member : String → String → String → Op (Unit {0})
  unfolding org_service
  add_member org_id user_id access_token =
      (org_service ports).add_member org_id user_id access_token

  -- `RemoveMember`
  unfoldable pub remove_member : String → String → String → Op (Unit {0})
  unfolding org_service
  remove_member org_id user_id access_token =
      (org_service ports).remove_member org_id user_id access_token

  -- `SuspendMember`
  unfoldable pub suspend_member : String → String → String → Op (Unit {0})
  unfolding org_service
  suspend_member org_id user_id access_token =
      (org_service ports).suspend_member org_id user_id access_token

  -- `SetMemberRole`
  unfoldable pub set_member_role : String → String → String → String → Op Membership
  unfolding org_service
  set_member_role org_id user_id role access_token =
      (org_service ports).set_member_role org_id user_id role access_token

  -- `InviteMember`
  unfoldable pub invite_member : String → String → String → Op Invite
  unfolding org_service
  invite_member org_id email access_token =
      (org_service ports).invite_member org_id email access_token

  -- `AcceptInvite`
  unfoldable pub accept_invite : String → String → Op Invite
  unfolding org_service
  accept_invite token access_token = (org_service ports).accept_invite token access_token

  -- `RevokeInvite`
  unfoldable pub revoke_invite : String → String → String → Op (Unit {0})
  unfolding org_service
  revoke_invite org_id invite_id access_token =
      (org_service ports).revoke_invite org_id invite_id access_token

  -- `ListInvites`
  unfoldable pub list_invites : String → String → Op (List Invite)
  unfolding org_service
  list_invites org_id access_token = (org_service ports).list_invites org_id access_token

  -- `SelectOrg`
  unfoldable pub select_org : String → String → String → Op TokenPair
  unfolding org_service
  select_org org_id refresh_token access_token =
      (org_service ports).select_org org_id refresh_token access_token

  -- `VerifyOTP`
  unfoldable pub verify_otp : OtpVerification → Op TokenPair
  unfolding auth_service
  verify_otp i = (auth_service ports).verify_otp i

  -- `RefreshToken`
  unfoldable pub refresh_token : String → Op TokenPair
  unfolding auth_service
  refresh_token token = (auth_service ports).refresh_token token

  -- `ValidateAPIToken`
  unfoldable pub validate_api_token : String → Op ApiIdentity
  unfolding auth_service
  validate_api_token secret = (auth_service ports).validate_api_token secret

  -- `ListFlags`, for the client's base URL
  unfoldable pub list_flags : String → Op FlagSet
  unfolding flag_source
  list_flags base = (flag_source ports base).list_flags
