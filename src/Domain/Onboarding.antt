-- ===== src/Domain/Onboarding.antt =====
-- domain/onboarding.go: workstation claims, and what a claim derives from its token and UID.
use Prim.Native.String.{◌++◌}
use orbit_api_gateway.Base.{ℕ, ◌+◌, ◌%◌, String, Bool, List, [], ◌∷◌, take, ◌==◌, if◌then◌else◌}
use orbit_api_gateway.Base.Map.{Map}
use orbit_api_gateway.Base.Strings.{trim_space, to_lower, hex, itoa_ℕ}
use orbit_api_gateway.Domain.Runtime.{Runtime}

abbrev pub claim_status_provisioned : String
claim_status_provisioned = "provisioned"

abbrev pub claim_default_email_domain : String
claim_default_email_domain = "manova.space"

abbrev pub claim_default_manifest_scope : String
claim_default_manifest_scope = "core"

abbrev pub claim_git_remote_base : String
claim_git_remote_base = "ssh://git@git.internal.manova.space:2222/manova"

pub record ClaimInput : Type 0 where
  pub invite_token : String
  pub desired_uid : String
  pub email : String
  pub display_name : String
  pub ssh_public_key : String
  pub machine_fingerprint : String
  pub scope : String
  pub metadata : Map String

pub record ClaimUser : Type 0 where
  pub uid : String
  pub email : String
  pub display_name : String
  pub groups : List String

pub record ClaimCredentials : Type 0 where
  pub forgejo_username : String
  pub forgejo_mcp_token : String
  pub wire_guard_config : String

pub record ClaimWorkspace : Type 0 where
  pub git_remote_base : String
  pub default_manifest_scope : String

pub record ClaimResult : Type 0 where
  pub status : String
  pub idempotent_replay : Bool
  pub user : ClaimUser
  pub credentials : ClaimCredentials
  pub workspace : ClaimWorkspace

-- The first byte of a digest, `sum[0]`; a digest is never empty.
abbrev pub first_byte : List ℕ → ℕ
first_byte [] = 0
first_byte (b ∷ bs) = b

-- The last octet of the client's address.
unfoldable pub host_octet : List ℕ → ℕ
host_octet sum = first_byte sum % 200 + 10

-- `wireGuardConfig`
unfoldable pub wire_guard_config : ℕ → String
unfolding itoa_ℕ
wire_guard_config octet =
    "[Interface]\nPrivateKey = <generated-client-key>\nAddress = 10.42.0."
    ++ (itoa_ℕ octet
        ++ "/32\nDNS = 10.42.0.1\n\n[Peer]\nPublicKey = 4gZ+examplePublicKeyOrbitGatewayVPNControllerKey=\nEndpoint = vpn.internal.manova.space:51820\nAllowedIPs = 10.42.0.0/16, 172.28.0.0/16\nPersistentKeepalive = 25")

module _ (rt : Runtime) where
  -- `NormalizeUID`
  unfoldable pub normalize_uid : String → String
  unfolding to_lower trim_space
  normalize_uid uid = to_lower rt.wide_lower (trim_space uid)

  -- `ClaimDefaults`: the email, the display name and the groups.
  unfoldable pub claim_defaults : String → String → String → String × String × List String
  unfolding trim_space
  claim_defaults uid email display_name =
      let email' = trim_space email in
      let display_name' = trim_space display_name in
      (
        if email' == "" then uid ++ ("@" ++ claim_default_email_domain) else email',
        if display_name' == "" then rt.title uid else display_name',
        "dev" ∷ "orbit" ∷ [],
      )

  -- `ClaimCredentialsFor`
  unfoldable pub claim_credentials_for : String → String → ClaimCredentials
  unfolding hex wire_guard_config host_octet
  claim_credentials_for invite_token uid =
      let sum = rt.sha256 (invite_token ++ (":" ++ uid)) in
      record {
        forgejo_username = uid;
        forgejo_mcp_token = "mcp_" ++ hex (take 16 sum);
        wire_guard_config = wire_guard_config (host_octet sum);
      }
