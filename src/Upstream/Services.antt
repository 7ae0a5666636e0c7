-- ===== src/Upstream/Services.antt =====
-- The client of auth/client.go implements the ports of the domain.
use orbit_api_gateway.Base.{String}
use orbit_api_gateway.Domain.Services.{
  AuthService, OrgService, TenantService, SignupService, FlagSource,
}
use orbit_api_gateway.World.{Ports}
use orbit_api_gateway.Upstream.Client
use orbit_api_gateway.Upstream.Orgs
use orbit_api_gateway.Upstream.Flags

module _ (ports : Ports) where
  unfoldable pub auth_service : AuthService
  unfolding Client.request_otp Client.verify_otp Client.login_with_password Client.refresh_token
      Client.validate_api_token
  auth_service = record {
    request_otp = Client.request_otp ports;
    verify_otp = Client.verify_otp ports;
    login_with_password = Client.login_with_password ports;
    refresh_token = Client.refresh_token ports;
    validate_api_token = Client.validate_api_token ports;
  }

  unfoldable pub org_service : OrgService
  unfolding Orgs.create_org Orgs.set_org_slug Orgs.list_my_orgs Orgs.list_members Orgs.add_member
      Orgs.remove_member Orgs.suspend_member Orgs.set_member_role Orgs.invite_member
      Orgs.accept_invite Orgs.revoke_invite Orgs.list_invites Orgs.select_org
  org_service = record {
    create_org = Orgs.create_org ports;
    set_org_slug = Orgs.set_org_slug ports;
    list_my_orgs = Orgs.list_my_orgs ports;
    list_members = Orgs.list_members ports;
    add_member = Orgs.add_member ports;
    remove_member = Orgs.remove_member ports;
    suspend_member = Orgs.suspend_member ports;
    set_member_role = Orgs.set_member_role ports;
    invite_member = Orgs.invite_member ports;
    accept_invite = Orgs.accept_invite ports;
    revoke_invite = Orgs.revoke_invite ports;
    list_invites = Orgs.list_invites ports;
    select_org = Orgs.select_org ports;
  }

  unfoldable pub tenant_service : TenantService
  unfolding Orgs.resolve_tenant
  tenant_service = record { resolve_tenant = Orgs.resolve_tenant ports }

  unfoldable pub signup_service : SignupService
  unfolding Client.register_with_email Client.verify_signup
  signup_service = record {
    register_with_email = Client.register_with_email ports;
    verify_signup = Client.verify_signup ports;
  }

  -- With the base URL that main.go sets on the client.
  unfoldable pub flag_source : String → FlagSource
  unfolding Flags.list_flags
  flag_source base = record { list_flags = Flags.list_flags ports base }
