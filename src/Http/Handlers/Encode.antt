-- ===== src/Http/Handlers/Encode.antt =====
-- The JSON documents of httpapi/orgs.go and httpapi/flags.go.
pub mod Flags
use orbit_api_gateway.Base.{String, List, [], ◌∷◌, ◌++◌, map}
use orbit_api_gateway.Json.{Json, str, bool, arr, of_elems, object}
use orbit_api_gateway.Domain.Orgs.{Organization, Membership, Invite, Tenant}
use orbit_api_gateway.Domain.Flags.{FeatureFlag, FlagSet}
use orbit_api_gateway.Http.Handlers.Ownership.{unless_empty}

-- `organizationJSON`
pub record OrganizationJson : Type 0 where
  pub id : String
  pub name : String
  pub slug : String
  pub created_at : String
  pub updated_at : String

-- How encoding/json writes it.
unfoldable pub encode_organization : OrganizationJson → Json
encode_organization org = object (
    ("id", str org.id)
    ∷ ("name", str org.name)
    ∷ ("slug", str org.slug)
    ∷ ("created_at", str org.created_at)
    ∷ ("updated_at", str org.updated_at)
    ∷ [])

-- `organizationJSONFrom`
unfoldable pub organization_json : Organization → OrganizationJson
organization_json org = record {
  id = org.id;
  name = org.name;
  slug = org.slug;
  created_at = org.created_at;
  updated_at = org.updated_at;
}

-- `organizationsJSON`
unfoldable pub organizations_json : List Organization → List OrganizationJson
unfolding organization_json
organizations_json [] = []
organizations_json (org ∷ orgs) = organization_json org ∷ organizations_json orgs

-- `membershipJSON`
pub record MembershipJson : Type 0 where
  pub org_id : String
  pub user_id : String
  pub status : String
  pub role : String
  pub created_at : String
  pub updated_at : String

-- How encoding/json writes it.
unfoldable pub encode_membership : MembershipJson → Json
encode_membership member = object (
    ("org_id", str member.org_id)
    ∷ ("user_id", str member.user_id)
    ∷ ("status", str member.status)
    ∷ ("role", str member.role)
    ∷ ("created_at", str member.created_at)
    ∷ ("updated_at", str member.updated_at)
    ∷ [])

-- `membershipJSONFrom`
unfoldable pub membership_json : Membership → MembershipJson
membership_json member = record {
  org_id = member.org_id;
  user_id = member.user_id;
  status = member.status;
  role = member.role;
  created_at = member.created_at;
  updated_at = member.updated_at;
}

-- `membershipsJSON`
unfoldable pub memberships_json : List Membership → List MembershipJson
unfolding membership_json
memberships_json [] = []
memberships_json (member ∷ members) = membership_json member ∷ memberships_json members

-- `inviteJSON`
pub record InviteJson : Type 0 where
  pub id : String
  pub org_id : String
  pub email : String
  pub inviter_id : String
  pub status : String
  pub expires_at : String
  pub accepted_at : String
  pub created_at : String

-- How encoding/json writes it: "accepted_at" is left out where it is empty.
unfoldable pub encode_invite : InviteJson → Json
encode_invite invite = object (
    ("id", str invite.id)
    ∷ ("org_id", str invite.org_id)
    ∷ ("email", str invite.email)
    ∷ ("inviter_id", str invite.inviter_id)
    ∷ ("status", str invite.status)
    ∷ ("expires_at", str invite.expires_at)
    ∷ (unless_empty "accepted_at" invite.accepted_at
        ++ (("created_at", str invite.created_at) ∷ [])))

-- `inviteJSONFrom`
unfoldable pub invite_json : Invite → InviteJson
invite_json invite = record {
  id = invite.id;
  org_id = invite.org_id;
  email = invite.email;
  inviter_id = invite.inviter_id;
  status = invite.status;
  expires_at = invite.expires_at;
  accepted_at = invite.accepted_at;
  created_at = invite.created_at;
}

-- `invitesJSON`
unfoldable pub invites_json : List Invite → List InviteJson
unfolding invite_json
invites_json [] = []
invites_json (invite ∷ invites) = invite_json invite ∷ invites_json invites

-- The document of a `tenantJSON`.
unfoldable pub tenant_json : Tenant → Json
tenant_json tenant = object (
    ("org_id", str tenant.org_id)
    ∷ ("slug", str tenant.slug)
    ∷ ("name", str tenant.name)
    ∷ ("retired", bool tenant.retired)
    ∷ [])

abbrev one_member : String → Json → Json
one_member name v = object ((name, v) ∷ [])

-- `organizationEnvelope`
unfoldable pub organization_envelope : OrganizationJson → Json
unfolding encode_organization
organization_envelope org = one_member "organization" (encode_organization org)

-- `organizationList`
unfoldable pub organization_list : List OrganizationJson → Json
unfolding encode_organization
organization_list orgs = one_member "organizations" (arr (of_elems (map encode_organization orgs)))

-- `membershipEnvelope`
unfoldable pub membership_envelope : MembershipJson → Json
unfolding encode_membership
membership_envelope member = one_member "membership" (encode_membership member)

-- `membershipList`
unfoldable pub membership_list : List MembershipJson → Json
unfolding encode_membership
membership_list members = one_member "members" (arr (of_elems (map encode_membership members)))

-- `inviteEnvelope`
unfoldable pub invite_envelope : InviteJson → Json
unfolding encode_invite
invite_envelope invite = one_member "invite" (encode_invite invite)

-- `inviteList`
unfoldable pub invite_list : List InviteJson → Json
unfolding encode_invite
invite_list invites = one_member "invites" (arr (of_elems (map encode_invite invites)))

-- `revokeResponse`
unfoldable pub revoke_response : String → Json
revoke_response status = one_member "status" (str status)

-- `featureFlagsJSON`
unfoldable pub feature_flags_json : List FeatureFlag → List Json
feature_flags_json [] = []
feature_flags_json (flag ∷ flags) =
    object (
      ("name", str flag.name)
      ∷ ("enabled", bool flag.enabled)
      ∷ ("description", str flag.description)
      ∷ [])
    ∷ feature_flags_json flags

-- The document of a `flagSetJSON`.
unfoldable pub flag_set_json : FlagSet → Json
unfolding feature_flags_json
flag_set_json set =
    object
      (("version", str set.version) ∷ ("flags", arr (of_elems (feature_flags_json set.flags))) ∷ [])
