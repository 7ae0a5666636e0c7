-- ===== src/Service/Limits.antt =====
-- application/ratelimit.go, `CheckKeyLimit` of application/orgs.go and `checkIdentifierLimit` of
-- application/auth.go. What needs a limiter takes it; without one the edge calls none of these.
pub mod Effects
use orbit_api_gateway.Base.{String, true, false, Option, none, some, ◌==◌, if◌then◌else◌}
use orbit_api_gateway.Base.Int.{pos}
use orbit_api_gateway.Base.Strings.{trim_space}
use orbit_api_gateway.Domain.Runtime.{Runtime}
use orbit_api_gateway.Domain.Ratelimit.{
  Policy, Decision, client_key, policy_for, identifier_key, otp_request_identifier_policy,
}
use orbit_api_gateway.Domain.Failure.{Failure, Result, limit, ok, err}
use orbit_api_gateway.World.{World, Op, rate_check, Limiter, pure, ◌>>=◌, note_call}

abbrev pub no_decision : Decision
no_decision = record {
  allowed = false;
  limit = pos 0;
  remaining = pos 0;
  reset_at = 0;
  retry_after = pos 0;
}

abbrev pub limiter_unavailable : Failure
limiter_unavailable = limit (record { decision = no_decision; unavailable = true })

abbrev pub limit_exceeded : Decision → Failure
limit_exceeded d = limit (record { decision = d; unavailable = false })

-- What `allow` makes of the limiter's answer.
unfoldable pub settle : Option Decision → World → Result Decision × World
settle none w = (err limiter_unavailable, w)
settle (some d) w = (if d.allowed then ok d else err (limit_exceeded d), w)

-- `allow`
unfoldable pub allow : Limiter → String → Policy → Op Decision
unfolding settle
allow limiter key policy w =
    settle (limiter w.calls key policy) (note_call (rate_check key policy) w)

-- `CheckClassLimit`
unfoldable pub check_class_limit : Limiter → String → String → Op Decision
unfolding allow
check_class_limit limiter class client_ip =
    allow limiter (client_key class client_ip) (policy_for class)

-- `CheckKeyLimit`
unfoldable pub check_key_limit : Limiter → String → Policy → Op Decision
unfolding allow
check_key_limit limiter key policy = allow limiter key policy

-- `checkIdentifierLimit`
unfoldable pub check_identifier_limit : Runtime → Option Limiter → String → Op (Option Decision)
unfolding allow
check_identifier_limit rt none identifier = pure none
check_identifier_limit rt (some limiter) identifier =
    if trim_space identifier == "" then pure none else do
      decision ← allow limiter (identifier_key rt identifier) otp_request_identifier_policy
      pure (some decision)
