-- ===== src/Service/Wiring.antt =====
-- application/service.go: the ports that the service is built from. A port that is nil is `none`.
use orbit_api_gateway.Base.{String, Bool, Option, none, some, List, [], is_some}
use orbit_api_gateway.Domain.Services.{
  AuthService, OrgService, TenantService, SignupService, FlagSource,
}
use orbit_api_gateway.Domain.Runtime.{Time}
use orbit_api_gateway.Memory.Stores.{Challenges, Claims, AuditStore}
use orbit_api_gateway.World.{Call, Limiter}

-- A function that logs, by the lines that it adds.
abbrev pub Logger : Type 0
Logger = String → String → List Call

-- `Deps`, with the stores at the start. The clock and the code generator are functions of the
-- requests served so far; the assets are read by the routes.
pub record Deps : Type 0 where
  pub auth : Option AuthService
  pub orgs : Option OrgService
  pub signup : Option SignupService
  pub tenants : Option TenantService
  pub flags : Option FlagSource
  pub limiter : Option Limiter
  pub clock : Option (List Call → Time)
  pub codes : Option (List Call → String)
  pub challenges : Challenges
  pub claims : Claims
  pub audit : Option AuditStore
  pub logger : Option Logger

-- `Service`
pub record Service : Type 0 where
  pub auth : Option AuthService
  pub orgs : Option OrgService
  pub signup : Option SignupService
  pub tenants : Option TenantService
  pub flags : Option FlagSource
  pub limiter : Option Limiter
  pub clock : Option (List Call → Time)
  pub codes : Option (List Call → String)
  pub challenges : Challenges
  pub claims : Claims
  pub audit : Option AuditStore
  pub logger : Logger

abbrev logger_or_silent : Option Logger → Logger
logger_or_silent none = λ message arg. []
logger_or_silent (some logger) = logger

-- `NewService`
unfoldable pub new_service : Deps → Service
new_service deps = record {
  auth = deps.auth;
  orgs = deps.orgs;
  signup = deps.signup;
  tenants = deps.tenants;
  flags = deps.flags;
  limiter = deps.limiter;
  clock = deps.clock;
  codes = deps.codes;
  challenges = deps.challenges;
  claims = deps.claims;
  audit = deps.audit;
  logger = logger_or_silent deps.logger;
}

-- `HasAuth`
abbrev pub has_auth : Service → Bool
has_auth s = is_some s.auth

-- `HasOrgs`
abbrev pub has_orgs : Service → Bool
has_orgs s = is_some s.orgs

-- `HasTenants`
abbrev pub has_tenants : Service → Bool
has_tenants s = is_some s.tenants

-- `HasSignup`
abbrev pub has_signup : Service → Bool
has_signup s = is_some s.signup

-- `HasFlags`
abbrev pub has_flags : Service → Bool
has_flags s = is_some s.flags

-- `HasLimiter`
abbrev pub has_limiter : Service → Bool
has_limiter s = is_some s.limiter

-- `HasAudit`
abbrev pub has_audit : Service → Bool
has_audit s = is_some s.audit

-- `AuditStore`
abbrev pub audit_store : Service → Option AuditStore
audit_store s = s.audit
