-- ===== src/Service/Challenges.antt =====
-- application/ownership.go
pub mod Address
pub mod Verdict
pub mod Codes
pub mod Budget
use orbit_api_gateway.Base.{
  ◌+◌, String, Bool, not, ◌&&◌, ◌||◌, Option, none, some, ◌==◌, ltb, if◌then◌else◌,
}
use orbit_api_gateway.Base.Strings.{trim_space, to_lower, contains}
use orbit_api_gateway.Domain.Runtime.{Runtime, Time}
use orbit_api_gateway.Domain.Ratelimit.{Decision}
use orbit_api_gateway.Domain.Failure.{Kind, app, Result, ok, err}
use orbit_api_gateway.Domain.Ownership.{
  Challenge, ChallengeGrant, OwnershipProof, challenge_ttl, challenge_expires_in,
  challenge_status_dispatched, proof_status_verified, key_fingerprint,
}
use orbit_api_gateway.Memory.Stores.{save, confirm}
use orbit_api_gateway.World.{Ports, Tick, Op, pure, fail, ◌>>=◌, ◌>>◌, modify}
use orbit_api_gateway.Service.Limits.{check_identifier_limit}

pub record ChallengeReceipt : Type 0 where
  pub grant : ChallengeGrant
  pub identifier_limit : Option Decision

-- `strings.TrimSpace(strings.ToLower(email))`
unfoldable pub normalize_email : Runtime → String → String
normalize_email rt email = trim_space (to_lower rt.wide_lower email)

-- The function that `VerifyChallenge` hands to `Confirm`.
unfoldable pub accepts : String → Time → Challenge → Bool
accepts code now candidate = candidate.code == code && not (ltb candidate.expires_at now)

module _ (ports : Ports) (tick : Tick) where
  -- `Challenge`, from the normalized address on.
  unfoldable pub dispatch_challenge : String → Op ChallengeReceipt
  unfolding save
  dispatch_challenge email =
      if email == "" || not (contains email b'@')
      then fail (app Kind.invalid_argument "valid email is required")
      else do
        limit ← check_identifier_limit ports.runtime ports.limiter email
        modify λ w. record w {
          challenges =
              save email (record { code = tick.code; expires_at = tick.now + challenge_ttl })
                w.challenges;
        }
        pure (record {
          grant = record {
            status = challenge_status_dispatched;
            expires_in = challenge_expires_in;
          };
          identifier_limit = limit;
        })

  -- `Challenge`
  unfoldable pub challenge : String → Op ChallengeReceipt
  unfolding dispatch_challenge
  challenge email = dispatch_challenge (normalize_email ports.runtime email)

  -- The answer to what `Confirm` found.
  abbrev pub proof_of : String → String → Option Challenge → Result OwnershipProof
  proof_of email code none = err (app Kind.unauthenticated "invalid or expired verification code")
  proof_of email code (some _) = ok (record {
    status = proof_status_verified;
    email = email;
    display_name = "";
    key_fingerprint = key_fingerprint ports.runtime email code tick.now;
    verified_at = tick.now;
  })

  -- `VerifyChallenge`, from the normalized address and code on.
  unfoldable pub confirm_challenge : String → String → Op OwnershipProof
  confirm_challenge email code w =
      if email == "" || code == ""
      then fail (app Kind.invalid_argument "email and code are required") w
      else let (found, rest) = confirm email (accepts code tick.now) w.challenges in
        (proof_of email code found, record w { challenges = rest })

  -- `VerifyChallenge`
  unfoldable pub verify_challenge : String → String → Op OwnershipProof
  unfolding confirm_challenge
  verify_challenge email code =
      confirm_challenge (normalize_email ports.runtime email) (trim_space code)
