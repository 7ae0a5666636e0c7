-- ===== src/Http/Handlers/Callers.antt =====
-- The organization routes act for the caller whose token the request carries, and for no one else.
use Prim.Native.String.{◌++◌}
use orbit_api_gateway.Base.{◌≡◌, refl, String, some}
use orbit_api_gateway.Grpc.{Rpc}
use orbit_api_gateway.World.{World, rpc, note_call}
use orbit_api_gateway.Http.Message.{Request, Conn, HandlerFunc, get_header}
use orbit_api_gateway.Http.Limits.{Edge, bearer_token}
use orbit_api_gateway.Http.Handlers.Orgs.{list_orgs_route, create_org_route, set_org_slug_route}
use orbit_api_gateway.Http.Handlers.Orgs.Bearer.{
  ActsFor, Confined, same, asked, bearer_route-Confined, bearer_body_route-Confined,
}
use orbit_api_gateway.Http.Handlers.Members.{
  list_members_route, add_member_route, remove_member_route, suspend_member_route,
  set_member_role_route, create_invite_route, list_invites_route, revoke_invite_route,
  accept_invite_route,
}

-- The routes of an organization that ask for a bearer token and answer with a document.
pub data OrgRoute : Type 0 where
  on_orgs on_create on_slug on_members on_add on_remove on_suspend on_role : OrgRoute
  on_invites on_invite on_revoke on_accept : OrgRoute

abbrev pub handler_of : Edge → OrgRoute → HandlerFunc
handler_of edge on_orgs = list_orgs_route edge
handler_of edge on_create = create_org_route edge
handler_of edge on_slug = set_org_slug_route edge
handler_of edge on_members = list_members_route edge
handler_of edge on_add = add_member_route edge
handler_of edge on_remove = remove_member_route edge
handler_of edge on_suspend = suspend_member_route edge
handler_of edge on_role = set_member_role_route edge
handler_of edge on_invites = list_invites_route edge
handler_of edge on_invite = create_invite_route edge
handler_of edge on_revoke = revoke_invite_route edge
handler_of edge on_accept = accept_invite_route edge

-- One call under a token is all that an operation does.
asked_once :
    (token : String) (w : World) (r : Rpc)
    → r.authorization ≡ some ("Bearer " ++ token)
    → ActsFor token w (note_call (rpc r) w)
asked_once token w r e = record {
  stores = record { challenges = refl; claims = refl; audit = refl };
  calls = asked r same e;
}

-- A request without a bearer token gets 401 from each of the organization routes, and nothing else
-- happens. For any other request, each route leaves the stores alone, and every gRPC call it makes
-- carries the token of that request.
pub org_routes-Confined :
    (edge : Edge) (route : OrgRoute) (r : Request) (c : Conn)
    → Confined (bearer_token (get_header "Authorization" r)) c (handler_of edge route r c)
unfolding list_orgs_route create_org_route set_org_slug_route list_members_route add_member_route
    remove_member_route suspend_member_route set_member_role_route create_invite_route
    list_invites_route revoke_invite_route accept_invite_route
org_routes-Confined edge on_orgs r c =
    bearer_route-Confined edge _ r c _ (λ token. asked_once token c.world _ refl)
org_routes-Confined edge on_create r c =
    bearer_body_route-Confined edge _ r c _ _ (λ body token. asked_once token c.world _ refl)
org_routes-Confined edge on_slug r c =
    bearer_body_route-Confined edge _ r c _ _ (λ body token. asked_once token c.world _ refl)
org_routes-Confined edge on_members r c =
    bearer_route-Confined edge _ r c _ (λ token. asked_once token c.world _ refl)
org_routes-Confined edge on_add r c =
    bearer_body_route-Confined edge _ r c _ _ (λ body token. asked_once token c.world _ refl)
org_routes-Confined edge on_remove r c =
    bearer_route-Confined edge _ r c _ (λ token. asked_once token c.world _ refl)
org_routes-Confined edge on_suspend r c =
    bearer_route-Confined edge _ r c _ (λ token. asked_once token c.world _ refl)
org_routes-Confined edge on_role r c =
    bearer_body_route-Confined edge _ r c _ _ (λ body token. asked_once token c.world _ refl)
org_routes-Confined edge on_invites r c =
    bearer_route-Confined edge _ r c _ (λ token. asked_once token c.world _ refl)
org_routes-Confined edge on_invite r c =
    bearer_body_route-Confined edge _ r c _ _ (λ body token. asked_once token c.world _ refl)
org_routes-Confined edge on_revoke r c =
    bearer_route-Confined edge _ r c _ (λ token. asked_once token c.world _ refl)
org_routes-Confined edge on_accept r c =
    bearer_body_route-Confined edge _ r c _ _ (λ body token. asked_once token c.world _ refl)
