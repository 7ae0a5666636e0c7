-- ===== src/Startup/Guarantees.antt =====
-- What a process that has started runs with.
use orbit_api_gateway.Base.{
  ◌≡◌, ◌≢◌, ◌∙◌, ap, refl, inl, inr, String, Bool, true, false, not, ◌&&◌, Option, none, some, ◌==◌,
  arith, eq_iff, Bool-cases, Option-cases, if◌then◌else◌,
}
use orbit_api_gateway.Json.{same_key}
use orbit_api_gateway.Upstream.Dial.{Client, new_client}
use orbit_api_gateway.Startup.{
  Host, LimiterKind, redis, Config, resolve_jwt_secret, env_or, is_dev, choose_limiter, choose_jwks,
  startup, ◌>>=◌, exit_if,
}

-- A step of the startup that was passed.
bind-some :
    {A B : Type 0} (m : Option A) (k : A → Option B) {b : B}
    → (m >>= k) ≡ some b
    → (a : A) × (m ≡ some a) × (k a ≡ some b)
bind-some none k e = ground arith
bind-some (some a) k e = (a, refl, e)

-- The configuration of a process that has started, with the choices that it rests on.
record Started (host : Host) (config : Config) : Type 0 where
  secret : (host.getenv "JWT_SECRET" == "" && not (is_dev host)) ≡ false
  limiter : choose_limiter host ≡ some config.limiter
  jwks : choose_jwks host ≡ some config.jwks
  jwt_secret : config.jwt_secret ≡ resolve_jwt_secret (host.getenv "JWT_SECRET") (is_dev host)

-- The configuration that the startup ends with, for a client, a limiter and a key set.
abbrev config_of : Host → Client → LimiterKind → Option String → Config
config_of host client limiter jwks = record {
  client = record client { auth_http_url = env_or host "AUTH_HTTP_URL" "http://localhost:10011" };
  limiter = limiter;
  trust_proxy = same_key (host.getenv "RATE_LIMIT_TRUST_PROXY") "true";
  jwt_secret = resolve_jwt_secret (host.getenv "JWT_SECRET") (is_dev host);
  staff_secret = host.getenv "STAFF_SECRET";
  jwks = jwks;
  http_port = env_or host "HTTP_PORT" "10001";
  health_port = env_or host "HEALTH_PORT" "10014";
}

startup-Started : (host : Host) (config : Config) → startup host ≡ some config → Started host config
unfolding startup
startup-Started host config e =
    let (_, _, e0) = bind-some (exit_if (not host.configures)) _ e in
    let (_, secret, e1) =
      bind-some (exit_if (host.getenv "JWT_SECRET" == "" && not (is_dev host))) _ e0 in
    let (client, _, e2) =
      bind-some (new_client host.dials (env_or host "AUTH_GRPC_ADDR" "localhost:10010")) _ e1 in
    let (limiter, l, e3) = bind-some (choose_limiter host) _ e2 in
    let (jwks, j, made) = bind-some (choose_jwks host) _ e3 in
    let field : (A : Type 0) (f : Config → A)
        → some (f (config_of host client limiter jwks)) ≡ some (f config) =
      λ A f. ap (λ o. elim o [ none ↦ none | some c ↦ some (f c) ]) made in
    record {
      secret = ground (arith, secret);
      limiter = l ∙ field LimiterKind (λ c. c.limiter);
      jwks = j ∙ field (Option String) (λ c. c.jwks);
      jwt_secret = ground (arith, field String (λ c. c.jwt_secret));
    }

dev-filled :
    (dev : Bool) → not dev ≡ false → ((if dev then "dev-insecure-change-me" else "") == "") ≡ false
dev-filled true e = refl
dev-filled false e = ground arith

-- The secret is not empty where one is set, or in development.
resolve_jwt_secret-filled :
    (secret : String) (dev : Bool)
    → (secret == "" && not dev) ≡ false
    → resolve_jwt_secret secret dev ≢ ""
unfolding resolve_jwt_secret
resolve_jwt_secret-filled secret dev e blank = elim (Bool-cases (secret == "")) [
  | inl s ↦ ground (
    arith,
    dev-filled dev (rw s at e),
    eq_iff (if dev then "dev-insecure-change-me" else "") "",
    rw s at blank,
  )
  | inr s ↦ ground (arith, eq_iff secret "", rw s at blank)
]

-- A process that has started has a secret for its tokens.
pub startup-secret :
    (host : Host) (config : Config) → startup host ≡ some config → config.jwt_secret ≢ ""
startup-secret host config e =
    let started = startup-Started host config e in
    rw started.jwt_secret
      (resolve_jwt_secret-filled (host.getenv "JWT_SECRET") (is_dev host) started.secret)

-- Outside development the limiter is a Redis server that answered.
choose_limiter-shared :
    (host : Host) (limiter : LimiterKind)
    → is_dev host ≡ false
    → choose_limiter host ≡ some limiter
    → (addr : String) × (addr ≢ "") × (host.pings addr ≡ true) × (limiter ≡ redis addr)
unfolding choose_limiter
choose_limiter-shared host limiter d e =
    let addr = host.getenv "REDIS_ADDR" in
    (
      addr,
      ground (arith, eq_iff addr ""),
      ground (arith, eq_iff addr ""),
      ground (arith, eq_iff addr ""),
    )

-- Outside development there is a key set.
choose_jwks-published :
    (host : Host) (jwks : Option String)
    → is_dev host ≡ false
    → choose_jwks host ≡ some jwks
    → (body : String) × (jwks ≡ some body)
unfolding choose_jwks
choose_jwks-published host none d e =
    elim (Option-cases (host.key_set (host.getenv "JWT_PUBLIC_KEYS_DIR"))) [
      | inl k ↦ ground (arith)
      | inr (body, k) ↦ ground (arith)
    ]
choose_jwks-published host (some body) d e = (body, refl)

-- What a process outside development runs with: the secret of its environment, a limiter that all
-- replicas share, and a key set.
pub record Production (host : Host) (config : Config) : Type 0 where
  pub secret : config.jwt_secret ≡ host.getenv "JWT_SECRET"
  pub limiter :
      (addr : String) × (addr ≢ "") × (host.pings addr ≡ true) × (config.limiter ≡ redis addr)
  pub jwks : (body : String) × (config.jwks ≡ some body)

-- Outside development, a process that has started runs with the secret of its environment, with
-- a Redis limiter that answered, and with a key set to publish.
pub startup-Production :
    (host : Host) (config : Config)
    → is_dev host ≡ false
    → startup host ≡ some config
    → Production host config
unfolding resolve_jwt_secret
startup-Production host config d e =
    let started = startup-Started host config e in
    record {
      secret = ground (arith, started.jwt_secret, eq_iff (host.getenv "JWT_SECRET") "");
      limiter = choose_limiter-shared host config.limiter d started.limiter;
      jwks = choose_jwks-published host config.jwks d started.jwks;
    }
