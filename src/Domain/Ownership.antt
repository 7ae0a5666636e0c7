-- ===== src/Domain/Ownership.antt =====
-- domain/ownership.go: ownership challenges and the fingerprint of a verified one.
use Prim.Native.String.{◌++◌}
use orbit_api_gateway.Base.{ℕ, ◌*◌, String, take}
use orbit_api_gateway.Base.Strings.{hex}
use orbit_api_gateway.Domain.Runtime.{Runtime, Time, minute}

abbrev pub challenge_ttl : ℕ
challenge_ttl = 10 * minute

abbrev pub challenge_expires_in : String
challenge_expires_in = "10m"

abbrev pub challenge_status_dispatched : String
challenge_status_dispatched = "challenge_dispatched"

abbrev pub proof_status_verified : String
proof_status_verified = "verified"

pub record Challenge : Type 0 where
  pub code : String
  pub expires_at : Time

pub record ChallengeGrant : Type 0 where
  pub status : String
  pub expires_in : String

pub record OwnershipProof : Type 0 where
  pub status : String
  pub email : String
  pub display_name : String
  pub key_fingerprint : String
  pub verified_at : Time

-- `KeyFingerprint`
unfoldable pub key_fingerprint : Runtime → String → String → Time → String
unfolding hex
key_fingerprint rt email code at =
    hex (take 16 (rt.sha256 (email ++ (":" ++ (code ++ (":" ++ rt.time_string at))))))
