-- ===== src/Service/Claims.antt =====
-- application/onboarding.go
pub mod Replay
pub mod Derived
use Prim.Native.String.{◌++◌}
use orbit_api_gateway.Base.{String, true, false, ◌||◌, none, some, ◌==◌, if◌then◌else◌}
use orbit_api_gateway.Base.Strings.{trim_space}
use orbit_api_gateway.Domain.Runtime.{Runtime}
use orbit_api_gateway.Domain.Failure.{Kind, app}
use orbit_api_gateway.Domain.Onboarding.{
  ClaimInput, ClaimResult, claim_status_provisioned, claim_git_remote_base,
  claim_default_manifest_scope, normalize_uid, claim_defaults, claim_credentials_for,
}
use orbit_api_gateway.Memory.Stores.{get, put}
use orbit_api_gateway.World.{Op, logged, pure, fail, note_call}

-- The key under which a claim is kept.
unfoldable pub claim_key : String → String → String → String
claim_key token uid idempotency_key =
    if idempotency_key == "" then token ++ (":" ++ uid) else idempotency_key

module _ (rt : Runtime) where
  -- The result that a first claim stores.
  unfoldable pub provision : String → String → ClaimInput → ClaimResult
  provision token uid input =
      let (email, display_name, groups) = claim_defaults rt uid input.email input.display_name in
      record {
        status = claim_status_provisioned;
        idempotent_replay = false;
        user = record { uid = uid; email = email; display_name = display_name; groups = groups };
        credentials = claim_credentials_for rt token uid;
        workspace = record {
          git_remote_base = claim_git_remote_base;
          default_manifest_scope = claim_default_manifest_scope;
        };
      }

  -- `Claim`, from the trimmed token and the normalized UID on.
  unfoldable pub claim_as : String → String → ClaimInput → String → Op ClaimResult
  claim_as token uid input idempotency_key w =
      if token == "" || uid == ""
      then fail (app Kind.invalid_argument "invite_token and desired_uid are required") w
      else let key = claim_key token uid idempotency_key in
        let result = provision token uid input in
        elim (get key w.claims) [
          | some cached ↦
              pure (record cached { idempotent_replay = true })
                (note_call (logged "onboard_claim_replayed" uid) w)
          | none ↦ pure result (
              note_call (logged "onboard_claim_provisioned" uid)
                (record w { claims = put key result w.claims }))
        ]

  -- `Claim`
  unfoldable pub claim : ClaimInput → String → Op ClaimResult
  unfolding claim_as
  claim input idempotency_key =
      claim_as (trim_space input.invite_token) (normalize_uid rt input.desired_uid) input
        idempotency_key
