-- ===== src/Http/Handlers/Members.antt =====
-- The membership and invitation routes of httpapi/orgs.go.
use orbit_api_gateway.Base.{String, Option}
use orbit_api_gateway.Base.Strings.{trim_space}
use orbit_api_gateway.Json.{Json, string_field}
use orbit_api_gateway.Service.Passed.{
  list_members, add_member, remove_member, suspend_member, set_member_role, invite_member,
  accept_invite, revoke_invite, list_invites,
}
use orbit_api_gateway.Http.Names.{revoke_status}
use orbit_api_gateway.Http.Message.{HandlerFunc, path_value}
use orbit_api_gateway.Http.Limits.{Edge}
use orbit_api_gateway.Http.Handlers.Encode.{
  membership_json, memberships_json, membership_envelope, membership_list, invite_json,
  invites_json, invite_envelope, invite_list, revoke_response,
}
use orbit_api_gateway.Http.Handlers.Orgs.{bearer_route, bearer_body_route}

-- Decoding of an `addMemberBody`.
unfoldable pub decode_add_member : Json → Option String
unfolding string_field
decode_add_member doc = string_field "user_id" doc

-- Decoding of a `setMemberRoleBody`.
unfoldable pub decode_set_member_role : Json → Option String
unfolding string_field
decode_set_member_role doc = string_field "role" doc

-- Decoding of an `inviteMemberBody`.
unfoldable pub decode_invite_member : Json → Option String
unfolding string_field
decode_invite_member doc = string_field "email" doc

-- Decoding of an `acceptInviteBody`.
unfoldable pub decode_accept_invite : Json → Option String
unfolding string_field
decode_accept_invite doc = string_field "token" doc

module _ (edge : Edge) where
  -- `listMembers`
  unfoldable pub list_members_route : HandlerFunc
  unfolding bearer_route list_members memberships_json membership_list
  list_members_route r =
      bearer_route edge (list_members edge.ports (path_value "org_id" r))
        (λ ms. membership_list (memberships_json ms)) r

  -- `addMember`
  unfoldable pub add_member_route : HandlerFunc
  unfolding bearer_body_route decode_add_member add_member revoke_response
  add_member_route r =
      bearer_body_route edge decode_add_member
        (λ user_id token. add_member edge.ports (path_value "org_id" r) user_id token)
        (λ _. revoke_response "added") r

  -- `removeMember`
  unfoldable pub remove_member_route : HandlerFunc
  unfolding bearer_route remove_member revoke_response
  remove_member_route r =
      bearer_route edge (remove_member edge.ports (path_value "org_id" r) (path_value "user_id" r))
        (λ _. revoke_response "removed") r

  -- `suspendMember`
  unfoldable pub suspend_member_route : HandlerFunc
  unfolding bearer_route suspend_member revoke_response
  suspend_member_route r =
      bearer_route edge (suspend_member edge.ports (path_value "org_id" r) (path_value "user_id" r))
        (λ _. revoke_response "suspended") r

  -- `setMemberRole`
  unfoldable pub set_member_role_route : HandlerFunc
  unfolding bearer_body_route decode_set_member_role set_member_role membership_json
      membership_envelope
  set_member_role_route r =
      bearer_body_route edge decode_set_member_role
        (λ role token.
          set_member_role edge.ports (path_value "org_id" r) (path_value "user_id" r)
            (trim_space role) token)
        (λ m. membership_envelope (membership_json m)) r

  -- `createInvite`
  unfoldable pub create_invite_route : HandlerFunc
  unfolding bearer_body_route decode_invite_member invite_member invite_json invite_envelope
  create_invite_route r =
      bearer_body_route edge decode_invite_member
        (λ email token. invite_member edge.ports (path_value "org_id" r) email token)
        (λ i. invite_envelope (invite_json i)) r

  -- `listInvites`
  unfoldable pub list_invites_route : HandlerFunc
  unfolding bearer_route list_invites invites_json invite_list
  list_invites_route r =
      bearer_route edge (list_invites edge.ports (path_value "org_id" r))
        (λ is. invite_list (invites_json is)) r

  -- `revokeInvite`
  unfoldable pub revoke_invite_route : HandlerFunc
  unfolding bearer_route revoke_invite revoke_response
  revoke_invite_route r =
      bearer_route edge
        (revoke_invite edge.ports (path_value "org_id" r) (path_value "invite_id" r))
        (λ _. revoke_response revoke_status) r

  -- `acceptInvite`
  unfoldable pub accept_invite_route : HandlerFunc
  unfolding bearer_body_route decode_accept_invite accept_invite invite_json invite_envelope
  accept_invite_route =
      bearer_body_route edge decode_accept_invite
        (λ token access. accept_invite edge.ports token access)
        (λ i. invite_envelope (invite_json i))
