-- ===== src/Startup.antt =====
-- `cmd/gateway/main.go`: what the process needs in its environment before it listens.
pub mod Process
pub mod Guarantees
pub mod Ready
use orbit_api_gateway.Base.{String, Bool, not, ◌&&◌, Option, none, some, ◌==◌, if◌then◌else◌}
use orbit_api_gateway.Json.{same_key}
use orbit_api_gateway.Jwks.{Document}
use orbit_api_gateway.Upstream.Dial.{Client, new_client}

-- The environment, and whether the outside calls of the startup succeed.
pub record Host : Type 0 where
  -- `os.Getenv`: the empty text where a variable is not set
  pub getenv : String → String
  -- `observability.Configure`
  pub configures : Bool
  -- `grpc.NewClient` of an address
  pub dials : String → Bool
  -- the ping of the Redis server at an address
  pub pings : String → Bool
  -- `jwks.Load` of a directory
  pub key_set : String → Option Document

pub data LimiterKind : Type 0 where
  redis : String → LimiterKind
  memory : LimiterKind

-- What the process runs with.
pub record Config : Type 0 where
  pub client : Client
  pub limiter : LimiterKind
  pub trust_proxy : Bool
  pub jwt_secret : String
  pub staff_secret : String
  pub jwks : Option String
  pub http_port : String
  pub health_port : String

-- `none` is `os.Exit(1)`, or the panic where the observability package cannot be configured.
infixl 5 ◌>>=◌ ◌>>◌
abbrev ◌>>=◌ {ℓ κ} : {A : Type ℓ} {B : Type κ} → Option A → (A → Option B) → Option B
none >>= k = none
some a >>= k = k a

abbrev ◌>>◌ : {B : Type 0} → Option (Unit {0}) → Option B → Option B
m >> k = m >>= λ _. k

abbrev exit_if : Bool → Option (Unit {0})
exit_if b = if b then none else some tt

-- `resolveJWTSecret`
unfoldable pub resolve_jwt_secret : String → Bool → String
resolve_jwt_secret secret dev =
    if not (secret == "") then secret else if dev then "dev-insecure-change-me" else ""

module _ (host : Host) where
  -- `envOr`
  unfoldable pub env_or : String → String → String
  env_or key fallback = if not (host.getenv key == "") then host.getenv key else fallback

  -- `DEPLOYMENT_ENVIRONMENT` is "dev".
  abbrev pub is_dev : Bool
  is_dev = host.getenv "DEPLOYMENT_ENVIRONMENT" == "dev"

  -- The choice of the limiter.
  unfoldable pub choose_limiter : Option LimiterKind
  choose_limiter =
      let addr = host.getenv "REDIS_ADDR" in
      if not (addr == "")
      then if host.pings addr then some (redis addr) else none
      else if is_dev
      then some memory
      else none

  -- The key set to publish, if any.
  unfoldable pub choose_jwks : Option (Option String)
  choose_jwks =
      let dir = host.getenv "JWT_PUBLIC_KEYS_DIR" in
      if not (dir == "")
      then elim (host.key_set dir) [ none ↦ none | some doc ↦ some (some doc.body) ]
      else if is_dev
      then some none
      else none

  -- `main`, up to the listeners.
  unfoldable pub startup : Option Config
  unfolding new_client env_or choose_limiter choose_jwks resolve_jwt_secret same_key
  startup = do
    exit_if (not host.configures)
    exit_if (host.getenv "JWT_SECRET" == "" && not is_dev)
    client ← new_client host.dials (env_or "AUTH_GRPC_ADDR" "localhost:10010")
    limiter ← choose_limiter
    jwks ← choose_jwks
    some (record {
      client = record client { auth_http_url = env_or "AUTH_HTTP_URL" "http://localhost:10011" };
      limiter = limiter;
      trust_proxy = same_key (host.getenv "RATE_LIMIT_TRUST_PROXY") "true";
      jwt_secret = resolve_jwt_secret (host.getenv "JWT_SECRET") is_dev;
      staff_secret = host.getenv "STAFF_SECRET";
      jwks = jwks;
      http_port = env_or "HTTP_PORT" "10001";
      health_port = env_or "HEALTH_PORT" "10014";
    })
