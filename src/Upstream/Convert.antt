-- ===== src/Upstream/Convert.antt =====
-- The conversions of auth/client.go from wire messages to domain types.
use orbit_api_gateway.Base.{String, List, [], ◌∷◌}
use orbit_api_gateway.Json.{Json, str, get_string, get_bool, get_list}
use orbit_api_gateway.Domain.Auth.{TokenPair, ApiIdentity}
use orbit_api_gateway.Domain.Orgs.{Organization, Membership, Invite, Tenant}

-- `tokenPair`
unfoldable pub token_pair : Json → TokenPair
unfolding get_string
token_pair m = record {
  access_token = get_string "access_token" m;
  refresh_token = get_string "refresh_token" m;
  expires_at = get_string "expires_at" m;
}

-- `organization`
unfoldable pub organization : Json → Organization
unfolding get_string
organization m = record {
  id = get_string "id" m;
  name = get_string "name" m;
  slug = get_string "slug" m;
  created_at = get_string "created_at" m;
  updated_at = get_string "updated_at" m;
}

-- `organizations`
unfoldable pub organizations : List Json → List Organization
unfolding organization
organizations [] = []
organizations (org ∷ orgs) = organization org ∷ organizations orgs

-- `membership`
unfoldable pub membership : Json → Membership
unfolding get_string
membership m = record {
  org_id = get_string "org_id" m;
  user_id = get_string "user_id" m;
  status = get_string "status" m;
  role = get_string "role" m;
  created_at = get_string "created_at" m;
  updated_at = get_string "updated_at" m;
}

-- `memberships`
unfoldable pub memberships : List Json → List Membership
unfolding membership
memberships [] = []
memberships (m ∷ members) = membership m ∷ memberships members

-- `invite`
unfoldable pub invite : Json → Invite
unfolding get_string
invite m = record {
  id = get_string "id" m;
  org_id = get_string "org_id" m;
  email = get_string "email" m;
  inviter_id = get_string "inviter_id" m;
  status = get_string "status" m;
  expires_at = get_string "expires_at" m;
  accepted_at = get_string "accepted_at" m;
  created_at = get_string "created_at" m;
}

-- `invites`
unfoldable pub invites : List Json → List Invite
unfolding invite
invites [] = []
invites (item ∷ items) = invite item ∷ invites items

-- The tenant that `ResolveTenant` builds from its answer.
unfoldable pub tenant : Json → Tenant
unfolding get_string get_bool
tenant m = record {
  org_id = get_string "org_id" m;
  name = get_string "name" m;
  slug = get_string "slug" m;
  retired = get_bool "retired" m;
}

-- `resp.GetScopes()`: a repeated string field.
unfoldable pub strings : List Json → List String
strings [] = []
strings (str s ∷ vs) = s ∷ strings vs
strings (_ ∷ vs) = strings vs

-- The identity that `ValidateAPIToken` builds from its answer.
unfoldable pub api_identity : Json → ApiIdentity
unfolding get_string get_list strings
api_identity m = record { user_id = get_string "user_id" m; scopes = strings (get_list "scopes" m) }
