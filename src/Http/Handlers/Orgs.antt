-- ===== src/Http/Handlers/Orgs.antt =====
-- The organization, tenant and session routes of httpapi/orgs.go. The methods of
-- application/orgs.go that they call pass on to the adapter.
pub mod Bearer
use orbit_api_gateway.Base.{String, Option, some}
use orbit_api_gateway.Base.Strings.{trim_space}
use orbit_api_gateway.Json.{Json, string_field}
use orbit_api_gateway.World.{Op}
use orbit_api_gateway.Service.Passed.{
  create_org, set_org_slug, list_my_orgs, resolve_tenant, select_org,
}
use orbit_api_gateway.Http.Names.{route_session_org}
use orbit_api_gateway.Http.Message.{
  HandlerFunc, ◌>>=◌, ◌>>◌, call, answer, finish, path_value, set_header,
}
use orbit_api_gateway.Http.Response.{write_json, decode_json_body, write_app_error}
use orbit_api_gateway.Http.Limits.{Edge, require_bearer, check_org_limit}
use orbit_api_gateway.Http.Handlers.Auth.{◌<&>◌, write_tokens}
use orbit_api_gateway.Http.Handlers.Encode.{
  organization_json, organizations_json, organization_envelope, organization_list, tenant_json,
}

-- Decoding of a `createOrgBody`: the name and the slug.
unfoldable pub decode_create_org : Json → Option (String × String)
unfolding string_field
decode_create_org doc =
    string_field "name" doc <&> λ n. string_field "slug" doc <&> λ s. some (n, s)

-- Decoding of a `setOrgSlugBody`.
unfoldable pub decode_set_org_slug : Json → Option String
unfolding string_field
decode_set_org_slug doc = string_field "slug" doc

-- Decoding of a `selectOrgBody`: the organization and the refresh token.
unfoldable pub decode_select_org : Json → Option (String × String)
unfolding string_field
decode_select_org doc =
    string_field "org_id" doc <&> λ o. string_field "refresh_token" doc <&> λ t. some (o, t)

module _ (edge : Edge) where
  -- A route behind a bearer token that asks orbit-auth and answers 200 with a document.
  unfoldable pub bearer_route : {A : Type 0} → (String → Op A) → (A → Json) → HandlerFunc
  unfolding require_bearer write_app_error
  bearer_route op document r c = finish (
      (do
        token ← require_bearer r
        result ← call write_app_error (op token)
        answer {A = Unit {0}} (write_json 200 (document result)))
        c)

  -- The same for a route that decodes a body between the two.
  unfoldable pub bearer_body_route :
      {A B : Type 0} → (Json → Option B) → (B → String → Op A) → (A → Json) → HandlerFunc
  unfolding require_bearer decode_json_body write_app_error
  bearer_body_route decode op document r c = finish (
      (do
        token ← require_bearer r
        body ← decode_json_body decode r
        result ← call write_app_error (op body token)
        answer {A = Unit {0}} (write_json 200 (document result)))
        c)

  -- `listOrgs`
  unfoldable pub list_orgs_route : HandlerFunc
  unfolding bearer_route list_my_orgs organizations_json organization_list
  list_orgs_route =
      bearer_route (list_my_orgs edge.ports) (λ orgs. organization_list (organizations_json orgs))

  -- `createOrg`
  unfoldable pub create_org_route : HandlerFunc
  unfolding bearer_body_route decode_create_org create_org organization_json organization_envelope
  create_org_route =
      bearer_body_route decode_create_org
        (λ body token. create_org edge.ports body.0 (trim_space body.1) token)
        (λ org. organization_envelope (organization_json org))

  -- `setOrgSlug`
  unfoldable pub set_org_slug_route : HandlerFunc
  unfolding bearer_body_route decode_set_org_slug set_org_slug organization_json
      organization_envelope
  set_org_slug_route r =
      bearer_body_route decode_set_org_slug
        (λ slug token. set_org_slug edge.ports (path_value "org_id" r) (trim_space slug) token)
        (λ org. organization_envelope (organization_json org)) r

  -- `resolveTenant`
  unfoldable pub resolve_tenant_route : HandlerFunc
  unfolding resolve_tenant write_app_error tenant_json
  resolve_tenant_route r c = finish (
      (do
        tenant ← call write_app_error (resolve_tenant edge.ports (trim_space (path_value "slug" r)))
        answer {A = Unit {0}} (λ w.
            write_json 200 (tenant_json tenant)
              (set_header "Cache-Control" "public, max-age=30" w)))
        c)

  -- `selectOrg`
  unfoldable pub select_org_route : HandlerFunc
  unfolding require_bearer decode_json_body decode_select_org check_org_limit select_org
      write_app_error write_tokens
  select_org_route r c = finish (
      (do
        token ← require_bearer r
        body ← decode_json_body decode_select_org r
        check_org_limit edge body.0 route_session_org
        tokens ← call write_app_error (select_org edge.ports body.0 body.1 token)
        answer {A = Unit {0}} (write_tokens tokens))
        c)
