-- ===== src/RateLimit.antt =====
-- `internal/infrastructure/ratelimit`: the adapter of the package orbit-rate-limiting, whose limiter
-- and keys are parameters.
use orbit_api_gateway.Base.{ℕ, String, Bool, Option, none, some, List}
use orbit_api_gateway.Base.Int.{ℤ}
use orbit_api_gateway.Domain.Runtime.{Runtime, Time}
use orbit_api_gateway.Domain.Ratelimit.{Policy, Decision}
use orbit_api_gateway.World.{Call, Limiter}

-- `ratelimiting.Policy`, as far as the adapter fills it in.
pub record LibraryPolicy : Type 0 where
  pub class : String
  pub limit : ℕ
  pub window : ℕ

-- `ratelimiting.Decision`, as far as the adapter reads it.
pub record LibraryDecision : Type 0 where
  pub allowed : Bool
  pub limit : ℤ
  pub remaining : ℤ
  pub reset_at : Time
  pub retry_after : ℤ

-- `ratelimiting.Limiter`; `none` is an error.
abbrev pub LibraryLimiter : Type 0
LibraryLimiter = List Call → String → LibraryPolicy → Option LibraryDecision

-- `Adapter`
pub record Adapter : Type 0 where
  pub limiter : LibraryLimiter

-- `New`: no adapter without a limiter.
unfoldable pub new_adapter : Option LibraryLimiter → Option Adapter
new_adapter none = none
new_adapter (some limiter) = some (record { limiter = limiter })

-- `toLibraryPolicy`
unfoldable pub to_library_policy : Policy → LibraryPolicy
to_library_policy policy = record {
  class = policy.class;
  limit = policy.limit;
  window = policy.window;
}

abbrev domain_decision : LibraryDecision → Decision
domain_decision d = record {
  allowed = d.allowed;
  limit = d.limit;
  remaining = d.remaining;
  reset_at = d.reset_at;
  retry_after = d.retry_after;
}

-- `Adapter.Allow`
unfoldable pub adapter_allow : Adapter → Limiter
unfolding to_library_policy
adapter_allow a calls key policy = elim (a.limiter calls key (to_library_policy policy)) [
  | none ↦ none
  | some d ↦ some (domain_decision d)
]

-- `KeyForIP`
abbrev pub key_for_ip : Runtime → String → String → String
key_for_ip rt ip route = rt.key_for_ip ip route

-- `KeyForOrg`
abbrev pub key_for_org : Runtime → String → String → String
key_for_org rt org_id route = rt.key_for_org org_id route
