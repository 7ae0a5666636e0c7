-- ===== src/Upstream/Orgs.antt =====
-- The calls of auth/client.go to orbit-auth's OrgService and TenantService.
use Prim.Native.String.{◌++◌}
use orbit_api_gateway.Base.{String, some, List, [], ◌∷◌}
use orbit_api_gateway.Base.Map.{Map}
use orbit_api_gateway.Json.{Json, field, get_list}
use orbit_api_gateway.Grpc.{Rpc}
use orbit_api_gateway.Domain.Auth.{TokenPair}
use orbit_api_gateway.Domain.Orgs.{Organization, Membership, Invite, Tenant}
use orbit_api_gateway.World.{Ports, Op}
use orbit_api_gateway.Upstream.Status.{org_upstream_error, tenant_upstream_error}
use orbit_api_gateway.Upstream.Convert.{
  token_pair, organization, organizations, membership, memberships, invite, invites, tenant,
}
use orbit_api_gateway.Upstream.Client.{invoke, plain_rpc}

-- A call under `callerContext`: the caller's token is the "authorization" metadata.
unfoldable pub caller_rpc : String → String → Map String → Rpc
caller_rpc access_token method fields = record {
  method = method;
  authorization = some ("Bearer " ++ access_token);
  fields = fields;
}

module _ (ports : Ports) where
  -- A call of OrgService.
  unfoldable pub org_call : {A : Type 0} → (Json → A) → String → String → Map String → Op A
  unfolding invoke caller_rpc org_upstream_error
  org_call convert access_token method fields =
      invoke ports org_upstream_error convert (caller_rpc access_token method fields)

  -- `Client.CreateOrg`
  unfoldable pub create_org : String → String → String → Op Organization
  unfolding org_call
  create_org name slug access_token =
      org_call (λ m. organization (field "organization" m)) access_token "CreateOrg"
        (("name", name) ∷ ("slug", slug) ∷ [])

  -- `Client.SetOrgSlug`
  unfoldable pub set_org_slug : String → String → String → Op Organization
  unfolding org_call
  set_org_slug org_id slug access_token =
      org_call (λ m. organization (field "organization" m)) access_token "SetOrgSlug"
        (("org_id", org_id) ∷ ("slug", slug) ∷ [])

  -- `Client.ResolveTenant`
  unfoldable pub resolve_tenant : String → Op Tenant
  unfolding invoke
  resolve_tenant slug =
      invoke ports tenant_upstream_error tenant (plain_rpc "ResolveTenant" (("slug", slug) ∷ []))

  -- `Client.ListMyOrgs`
  unfoldable pub list_my_orgs : String → Op (List Organization)
  unfolding org_call
  list_my_orgs access_token =
      org_call (λ m. organizations (get_list "organizations" m)) access_token "ListMyOrgs" []

  -- `Client.ListMembers`
  unfoldable pub list_members : String → String → Op (List Membership)
  unfolding org_call
  list_members org_id access_token =
      org_call (λ m. memberships (get_list "members" m)) access_token "ListMembers"
        (("org_id", org_id) ∷ [])

  -- `Client.AddMember`
  unfoldable pub add_member : String → String → String → Op (Unit {0})
  unfolding org_call
  add_member org_id user_id access_token =
      org_call (λ m. tt) access_token "AddMember" (("org_id", org_id) ∷ ("user_id", user_id) ∷ [])

  -- `Client.RemoveMember`
  unfoldable pub remove_member : String → String → String → Op (Unit {0})
  unfolding org_call
  remove_member org_id user_id access_token =
      org_call (λ m. tt) access_token "RemoveMember"
        (("org_id", org_id) ∷ ("user_id", user_id) ∷ [])

  -- `Client.SuspendMember`
  unfoldable pub suspend_member : String → String → String → Op (Unit {0})
  unfolding org_call
  suspend_member org_id user_id access_token =
      org_call (λ m. tt) access_token "SuspendMember"
        (("org_id", org_id) ∷ ("user_id", user_id) ∷ [])

  -- `Client.SetMemberRole`
  unfoldable pub set_member_role : String → String → String → String → Op Membership
  unfolding org_call
  set_member_role org_id user_id role access_token =
      org_call (λ m. membership (field "membership" m)) access_token "SetMemberRole"
        (("org_id", org_id) ∷ ("user_id", user_id) ∷ ("role", role) ∷ [])

  -- `Client.InviteMember`
  unfoldable pub invite_member : String → String → String → Op Invite
  unfolding org_call
  invite_member org_id email access_token =
      org_call (λ m. invite (field "invite" m)) access_token "InviteMember"
        (("org_id", org_id) ∷ ("email", email) ∷ [])

  -- `Client.AcceptInvite`
  unfoldable pub accept_invite : String → String → Op Invite
  unfolding org_call
  accept_invite token access_token =
      org_call (λ m. invite (field "invite" m)) access_token "AcceptInvite" (("token", token) ∷ [])

  -- `Client.RevokeInvite`
  unfoldable pub revoke_invite : String → String → String → Op (Unit {0})
  unfolding org_call
  revoke_invite org_id invite_id access_token =
      org_call (λ m. tt) access_token "RevokeInvite"
        (("org_id", org_id) ∷ ("invite_id", invite_id) ∷ [])

  -- `Client.ListInvites`
  unfoldable pub list_invites : String → String → Op (List Invite)
  unfolding org_call
  list_invites org_id access_token =
      org_call (λ m. invites (get_list "invites" m)) access_token "ListInvites"
        (("org_id", org_id) ∷ [])

  -- `Client.SelectOrg`
  unfoldable pub select_org : String → String → String → Op TokenPair
  unfolding org_call
  select_org org_id refresh_token access_token =
      org_call (λ m. token_pair (field "tokens" m)) access_token "SelectOrg"
        (("org_id", org_id) ∷ ("refresh_token", refresh_token) ∷ [])
