-- ===== src/Http/Handlers/Onboarding.antt =====
-- The onboarding route of httpapi/handlers.go.
use orbit_api_gateway.Base.{String, Option, some, List, [], ◌∷◌}
use orbit_api_gateway.Json.{Json, str, bool, arr, of_elems, object, string_field, map_field}
use orbit_api_gateway.Domain.Onboarding.{
  ClaimInput, ClaimResult, ClaimUser, ClaimCredentials, ClaimWorkspace,
}
use orbit_api_gateway.Service.Claims.{claim}
use orbit_api_gateway.Http.Message.{HandlerFunc, ◌>>=◌, call, answer, finish, get_header}
use orbit_api_gateway.Http.Response.{write_json, decode_json_body, write_app_error}
use orbit_api_gateway.Http.Limits.{Edge}
use orbit_api_gateway.Http.Handlers.Auth.{◌<&>◌}

-- Decoding of an `OnboardClaimRequest`, into the input that it becomes.
unfoldable pub decode_claim : Json → Option ClaimInput
unfolding string_field map_field
decode_claim doc = string_field "invite_token" doc <&> λ t. string_field "desired_uid" doc <&> λ u.
    string_field "email" doc <&> λ e. string_field "display_name" doc <&> λ d.
    string_field "ssh_public_key" doc <&> λ k. string_field "machine_fingerprint" doc <&> λ f.
    string_field "scope" doc <&> λ s. map_field "metadata" doc <&> λ m. some (record {
      invite_token = t;
      desired_uid = u;
      email = e;
      display_name = d;
      ssh_public_key = k;
      machine_fingerprint = f;
      scope = s;
      metadata = m;
    })

abbrev text_values : List String → List Json
text_values [] = []
text_values (s ∷ ss) = str s ∷ text_values ss

-- The document of an `OnboardUser`.
unfoldable pub onboard_user : ClaimUser → Json
onboard_user user = object (
    ("uid", str user.uid)
    ∷ ("email", str user.email)
    ∷ ("display_name", str user.display_name)
    ∷ ("groups", arr (of_elems (text_values user.groups)))
    ∷ [])

-- The document of an `OnboardCredentials`.
unfoldable pub onboard_credentials : ClaimCredentials → Json
onboard_credentials c = object (
    ("forgejo_username", str c.forgejo_username)
    ∷ ("forgejo_mcp_token", str c.forgejo_mcp_token)
    ∷ ("wireguard_config", str c.wire_guard_config)
    ∷ [])

-- The document of an `OnboardWorkspaceInfo`.
unfoldable pub onboard_workspace_info : ClaimWorkspace → Json
onboard_workspace_info workspace = object (
    ("git_remote_base", str workspace.git_remote_base)
    ∷ ("default_manifest_scope", str workspace.default_manifest_scope)
    ∷ [])

-- The document of an `OnboardClaimResponse`.
unfoldable pub claim_document : ClaimResult → Json
unfolding onboard_user onboard_credentials onboard_workspace_info
claim_document result = object (
    ("status", str result.status)
    ∷ ("idempotent_replay", bool result.idempotent_replay)
    ∷ ("user", onboard_user result.user)
    ∷ ("credentials", onboard_credentials result.credentials)
    ∷ ("workspace", onboard_workspace_info result.workspace)
    ∷ [])

module _ (edge : Edge) where
  -- `claim`
  unfoldable pub claim_route : HandlerFunc
  unfolding decode_json_body decode_claim write_app_error claim_document
  claim_route r c = finish (
      (do
        body ← decode_json_body decode_claim r
        result ←
            call write_app_error (claim edge.ports.runtime body (get_header "Idempotency-Key" r))
        answer {A = Unit {0}} (write_json 200 (claim_document result)))
        c)
