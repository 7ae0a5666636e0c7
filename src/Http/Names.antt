-- ===== src/Http/Names.antt =====
-- The constants of httpapi/orgs.go: the templates of the routes, which name their budgets, and two
-- statuses.
use Prim.Native.String.{◌++◌}
use orbit_api_gateway.Base.{String}

abbrev pub route_signup : String
route_signup = "/api/v1/auth/signup"

abbrev pub route_signup_verify : String
route_signup_verify = "/api/v1/auth/signup/verify"

abbrev pub route_org_list : String
route_org_list = "/api/v1/orgs"

abbrev pub route_org_create : String
route_org_create = "/api/v1/orgs"

abbrev pub route_org_members : String
route_org_members = "/api/v1/orgs/{org_id}/members"

abbrev pub route_org_member_role : String
route_org_member_role = "/api/v1/orgs/{org_id}/members/{user_id}/role"

abbrev pub route_org_slug : String
route_org_slug = "/api/v1/orgs/{org_id}/slug"

abbrev pub route_tenant_resolve : String
route_tenant_resolve = "/api/v1/public/tenants/{slug}"

abbrev pub route_org_invites : String
route_org_invites = "/api/v1/orgs/{org_id}/invites"

abbrev pub route_org_invite_rev : String
route_org_invite_rev = "/api/v1/orgs/{org_id}/invites/{invite_id}"

abbrev pub route_invite_accept : String
route_invite_accept = "/api/v1/invites/accept"

abbrev pub route_session_org : String
route_session_org = "/api/v1/session/org"

abbrev pub route_flags : String
route_flags = "/api/v1/flags"

abbrev pub signup_status_verification_sent : String
signup_status_verification_sent = "verification_sent"

abbrev pub revoke_status : String
revoke_status = "revoked"

-- The pattern of a GET request for a path.
abbrev pub get_of : String → String
get_of path = "GET " ++ path
