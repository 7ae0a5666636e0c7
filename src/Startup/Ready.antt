-- ===== src/Startup/Ready.antt =====
-- The edge of a process that has started.
use mathlib.Core.List.{append-nil}
use orbit_api_gateway.Base.{
  ◌≡◌, ◌≢◌, ◌∙◌, sym, refl, inl, inr, String, true, false, Option, none, some, List, [], ◌∷◌, ◌++◌,
  map, ◌==◌, arith, eq_iff, is_some, Bool-cases, Option-cases,
}
use orbit_api_gateway.World.{Ports, Tick}
use orbit_api_gateway.Service.Wiring.{Service, new_service, has_audit}
use orbit_api_gateway.Http.Limits.{Edge}
use orbit_api_gateway.Http.Handlers.Static.{jwks_route}
use orbit_api_gateway.Http.Routes.{Wired, Assets, Route, routes}
use orbit_api_gateway.Http.Routes.Table.{distinct}
use orbit_api_gateway.Http.Tokens.{misconfigured}
use orbit_api_gateway.Http.Server.{Server, edge_of, new, serve_jwks, token_auth}
use orbit_api_gateway.Startup.{Host, LimiterKind, redis, memory, Config, startup}
use orbit_api_gateway.Startup.Guarantees.{startup-secret}
use orbit_api_gateway.Startup.Process.{
  Outside, Process, wire_limiter, deps, options, publish, edge_server, process_of, boot,
}

-- Every upstream port.
abbrev pub everything : Wired
everything = record { auth = true; signup = true; flags = true; orgs = true; tenants = true }

-- The route of a key set that is published.
abbrev pub key_set_routes : Option String → List Route
key_set_routes none = []
key_set_routes (some body) =
    record { pattern = "GET /.well-known/jwks.json"; handler = jwks_route body } ∷ []

-- The edge behind the table of a process.
abbrev pub edge_behind : Outside → Config → Edge
edge_behind outside config =
    edge_of outside.ports (new_service (deps outside config)) (options outside config)
      config.client.auth_http_url

-- A process at a request: all routes are in its table, and the key set if it has one, each pattern
-- once; a limiter stands before them; and its token middleware has a secret and an audit trail.
pub record IsReady (outside : Outside) (p : Process) (tick : Tick) : Type 0 where
  pub table :
      p.server.mux tick
      ≡ routes (edge_behind outside p.config) tick everything outside.assets
        ++ key_set_routes p.config.jwks
  pub patterns : distinct (map (λ r. r.pattern) (p.server.mux tick)) ≡ true
  pub limited : is_some (edge_behind outside p.config).ports.limiter ≡ true
  pub configured : misconfigured (token_auth outside.ports p.server) tick ≡ false
  pub audited : (token_auth outside.ports p.server).audited ≡ true

-- A secret that is set is enough for the gates.
token_auth-configured :
    (ports : Ports) (s : Server) (tick : Tick)
    → s.jwt_secret ≢ ""
    → misconfigured (token_auth ports s) tick ≡ false
unfolding token_auth
token_auth-configured ports s tick filled = elim (Bool-cases (s.staff_secret == "")) [
  | inl e ↦ rw e (ground (arith, filled, eq_iff s.jwt_secret ""))
  | inr e ↦ rw e (ground (arith, filled, eq_iff s.jwt_secret ""))
]

-- The gates write to the trail of the service.
token_auth-audited :
    (ports : Ports) (s : Server) (svc : Service)
    → s.svc ≡ some svc
    → (token_auth ports s).audited ≡ has_audit svc
unfolding token_auth
token_auth-audited ports s svc e = elim (Bool-cases (s.staff_secret == "")) [
  | inl b ↦ rw (b, e) refl
  | inr b ↦ rw (b, e) refl
]

module _ (outside : Outside) (tick : Tick) where
  limiter-wired :
      (kind : LimiterKind)
      → is_some (wire_limiter outside.redis_limiter outside.memory_limiter kind) ≡ true
  unfolding wire_limiter
  limiter-wired (redis addr) = refl
  limiter-wired memory = refl

  limited_edge : (config : Config) → is_some (edge_behind outside config).ports.limiter ≡ true
  unfolding deps edge_of new_service
  limited_edge config = limiter-wired config.limiter

  audit_wired : (config : Config) → has_audit (new_service (deps outside config)) ≡ true
  unfolding deps new_service
  audit_wired config = refl

  module _ (config : Config) where
    -- Publishing a key set adds its route, and changes nothing else of a server.
    publish-mux :
        (jwks : Option String) (s : Server)
        → (publish outside config jwks s).mux tick ≡ s.mux tick ++ key_set_routes jwks
    unfolding serve_jwks
    publish-mux none s = sym (append-nil (s.mux tick))
    publish-mux (some body) s = refl

    publish-svc : (jwks : Option String) (s : Server) → (publish outside config jwks s).svc ≡ s.svc
    unfolding serve_jwks
    publish-svc none s = refl
    publish-svc (some body) s = refl

    publish-secret :
        (jwks : Option String) (s : Server)
        → (publish outside config jwks s).jwt_secret ≡ s.jwt_secret
    unfolding serve_jwks
    publish-secret none s = refl
    publish-secret (some body) s = refl

    -- The edge before the key set.
    abbrev plain : Server
    plain =
        new outside.ports (new_service (deps outside config)) (options outside config)
          config.client.auth_http_url outside.assets

    edge_server-table :
        (edge_server outside config).mux tick
        ≡ routes (edge_behind outside config) tick everything outside.assets
          ++ key_set_routes config.jwks
    unfolding edge_server
    edge_server-table = publish-mux config.jwks plain

    edge_server-svc : (edge_server outside config).svc ≡ some (new_service (deps outside config))
    unfolding edge_server
    edge_server-svc = publish-svc config.jwks plain

    edge_server-secret : (edge_server outside config).jwt_secret ≡ config.jwt_secret
    unfolding edge_server
    edge_server-secret = publish-secret config.jwks plain

  routes-distinct_with :
      (edge : Edge) (assets : Assets) (jwks : Option String)
      → distinct (map (λ r. r.pattern) (routes edge tick everything assets ++ key_set_routes jwks))
        ≡ true
  unfolding routes
  routes-distinct_with edge assets none = refl
  routes-distinct_with edge assets (some body) = refl

  edge_server-IsReady :
      (config : Config) (p : Process)
      → p ≡ process_of outside config
      → config.jwt_secret ≢ ""
      → IsReady outside p tick
  edge_server-IsReady config p e secret = rw e (record {
    table = edge_server-table config;
    patterns =
        rw (edge_server-table config)
          (routes-distinct_with (edge_behind outside config) outside.assets config.jwks);
    limited = limited_edge config;
    configured =
        token_auth-configured outside.ports (edge_server outside config) tick
          (rw (edge_server-secret config) secret);
    audited =
        token_auth-audited outside.ports (edge_server outside config)
          (new_service (deps outside config)) (edge_server-svc config)
        ∙ audit_wired config;
  })

-- A process that has started, at any request: its edge serves every route of the table, as all
-- upstream ports are wired, and the key set where it has one, with no pattern twice; the budgets
-- have a limiter; and no gate of its token middleware refuses every request as misconfigured, or
-- has no audit trail.
pub boot-IsReady :
    (outside : Outside) (host : Host) (p : Process) (tick : Tick)
    → boot outside host ≡ some p
    → IsReady outside p tick
unfolding boot
boot-IsReady outside host p tick e = elim (Option-cases (startup host)) [
  | inl n ↦ absurd (cc (rw (n, boot) at e))
  | inr (config, started) ↦
      edge_server-IsReady outside tick config p (cc (rw (started, boot) at e))
        (startup-secret host config started)
]
