-- ===== src/Http/Handlers/Ownership.antt =====
-- The ownership routes of httpapi/handlers.go.
use orbit_api_gateway.Base.{String, Option, some, List, [], ◌∷◌, ◌++◌, ◌==◌, if◌then◌else◌}
use orbit_api_gateway.Json.{Json, str, object, string_field}
use orbit_api_gateway.Domain.Ownership.{ChallengeGrant, OwnershipProof}
use orbit_api_gateway.World.{Tick}
use orbit_api_gateway.Service.Challenges.{challenge, verify_challenge}
use orbit_api_gateway.Http.Message.{HandlerFunc, ◌>>=◌, ◌>>◌, call, answer, respond, finish}
use orbit_api_gateway.Http.Response.{
  write_json, decode_json_body, write_app_error, write_limit_error,
}
use orbit_api_gateway.Http.Limits.{Edge}
use orbit_api_gateway.Http.Handlers.Auth.{◌<&>◌, budget_headers}

-- Decoding of an `AdminChallengeRequest`: the address; the display name is read and not used.
unfoldable pub decode_challenge : Json → Option String
unfolding string_field
decode_challenge doc =
    string_field "email" doc <&> λ e. string_field "display_name" doc <&> λ _. some e

-- Decoding of an `AdminVerifyRequest`: the address and the code.
unfoldable pub decode_verify : Json → Option (String × String)
unfolding string_field
decode_verify doc = string_field "email" doc <&> λ e. string_field "code" doc <&> λ c. some (e, c)

-- A member that is left out where it is empty.
abbrev pub unless_empty : String → String → List (String × Json)
unless_empty name s = if s == "" then [] else (name, str s) ∷ []

-- The document of an `AdminChallengeResponse`.
unfoldable pub challenge_document : ChallengeGrant → Json
challenge_document grant =
    object (("status", str grant.status) ∷ ("expires_in", str grant.expires_in) ∷ [])

module _ (edge : Edge) (tick : Tick) where
  -- The document of an `AdminVerifyResponse`.
  unfoldable pub proof_document : OwnershipProof → Json
  proof_document p = object (
      ("status", str p.status)
      ∷ ("email", str p.email)
      ∷ (unless_empty "display_name" p.display_name
          ++ (("key_fingerprint", str p.key_fingerprint)
              ∷ ("verified_at", str (edge.ports.runtime.time_json p.verified_at))
              ∷ [])))

  -- `challenge`
  unfoldable pub challenge_route : HandlerFunc
  unfolding decode_json_body decode_challenge write_limit_error challenge_document
  challenge_route r c = finish (
      (do
        email ← decode_json_body decode_challenge r
        receipt ← call write_limit_error (challenge edge.ports tick email)
        respond (budget_headers receipt.identifier_limit)
        answer {A = Unit {0}} (write_json 200 (challenge_document receipt.grant)))
        c)

  -- `verifyChallenge`
  unfoldable pub verify_challenge_route : HandlerFunc
  unfolding decode_json_body decode_verify write_app_error proof_document
  verify_challenge_route r c = finish (
      (do
        body ← decode_json_body decode_verify r
        proof ← call write_app_error (verify_challenge edge.ports tick body.0 body.1)
        answer {A = Unit {0}} (write_json 200 (proof_document proof)))
        c)
