-- ===== src/Startup/Process.antt =====
-- What `main` of cmd/gateway builds of its configuration: the service, the edge and the health
-- server. The listeners, the log and the shutdown belong to Fiber and to the observability package.
use orbit_api_gateway.Base.{String, Option, none, some, List}
use orbit_api_gateway.Domain.Runtime.{Time}
use orbit_api_gateway.RateLimit.{LibraryLimiter, new_adapter, adapter_allow}
use orbit_api_gateway.Memory.Stores.{new_challenges, new_claims, new_audit_store}
use orbit_api_gateway.World.{Ports, Limiter, Call}
use orbit_api_gateway.Upstream.Services.{
  auth_service, org_service, tenant_service, signup_service, flag_source,
}
use orbit_api_gateway.Service.Wiring.{Deps, Logger, new_service}
use orbit_api_gateway.Http.Message.{HandlerFunc}
use orbit_api_gateway.Http.Routes.{Assets}
use orbit_api_gateway.Http.Server.{Options, Server, new, new_health, serve_jwks}
use orbit_api_gateway.Startup.{Host, LimiterKind, redis, memory, Config, startup}

-- What the process is linked with: the services that it calls, the limiters of orbit-rate-limiting,
-- the clock, the generator, the files and the handlers of the observability package.
pub record Outside : Type 0 where
  pub ports : Ports
  pub redis_limiter : String → LibraryLimiter
  pub memory_limiter : LibraryLimiter
  pub clock : List Call → Time
  pub codes : List Call → String
  pub logger : Logger
  pub assets : Assets
  pub health : HandlerFunc
  pub readiness : HandlerFunc

-- The port that `ratelimit.New` gives to the service, over the two limiters of orbit-rate-limiting.
unfoldable pub wire_limiter :
    (String → LibraryLimiter) → LibraryLimiter → LimiterKind → Option Limiter
unfolding new_adapter adapter_allow
wire_limiter redis_limiter memory_limiter (redis addr) =
    elim (new_adapter (some (redis_limiter addr))) [ none ↦ none | some a ↦ some (adapter_allow a) ]
wire_limiter redis_limiter memory_limiter memory = elim (new_adapter (some memory_limiter)) [
  | none ↦ none
  | some a ↦ some (adapter_allow a)
]

module _ (outside : Outside) (config : Config) where
  -- The ports that `main` hands to `NewService`.
  unfoldable pub deps : Deps
  unfolding wire_limiter auth_service org_service tenant_service signup_service flag_source
  deps = record {
    auth = some (auth_service outside.ports);
    orgs = some (org_service outside.ports);
    signup = some (signup_service outside.ports);
    tenants = some (tenant_service outside.ports);
    flags = some (flag_source outside.ports config.client.auth_http_url);
    limiter = wire_limiter outside.redis_limiter outside.memory_limiter config.limiter;
    clock = some outside.clock;
    codes = some outside.codes;
    challenges = new_challenges;
    claims = new_claims;
    audit = some new_audit_store;
    logger = some outside.logger;
  }

  -- The options that `main` hands to `New`.
  abbrev pub options : Options
  options = record {
    trust_proxy = config.trust_proxy;
    jwt_secret = config.jwt_secret;
    staff_secret = config.staff_secret;
  }

  -- The key set is published where there is one.
  abbrev pub publish : Option String → Server → Server
  publish none s = s
  publish (some body) s = serve_jwks body s

  -- The edge that `main` listens on.
  unfoldable pub edge_server : Server
  unfolding deps new_service new serve_jwks
  edge_server =
      publish config.jwks
        (new outside.ports (new_service deps) options config.client.auth_http_url outside.assets)

-- The two servers of a process that has started.
pub record Process : Type 0 where
  pub config : Config
  pub server : Server
  pub health_server : Server

abbrev pub process_of : Outside → Config → Process
process_of outside config = record {
  config = config;
  server = edge_server outside config;
  health_server = new_health outside.health outside.readiness;
}

-- `main`, up to the listeners; `none` is `os.Exit(1)` or the panic.
unfoldable pub boot : Outside → Host → Option Process
unfolding startup edge_server new_health
boot outside host = elim (startup host) [
  | none ↦ none
  | some config ↦ some (process_of outside config)
]
