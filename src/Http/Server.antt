-- ===== src/Http/Server.antt =====
-- `New`, `NewHealth`, `newServer` and `ServeJWKS` of httpapi/server.go, and the token middleware that
-- a server gives to its deployment. A server is the table that it registers on the mux of net/http,
-- with the settings of the Fiber app that stands before it.
use orbit_api_gateway.Base.{
  ℕ, ◌*◌, ◌^◌, String, Bool, false, Option, none, some, List, [], ◌∷◌, ◌++◌,
}
use orbit_api_gateway.Domain.Runtime.{second}
use orbit_api_gateway.World.{Ports, Tick}
use orbit_api_gateway.Service.Wiring.{Service, has_audit}
use orbit_api_gateway.Http.Message.{HandlerFunc}
use orbit_api_gateway.Http.Limits.{Edge}
use orbit_api_gateway.Http.Handlers.Static.{jwks_route}
use orbit_api_gateway.Http.Routes.{Assets, Route, wired_ports, routes}
use orbit_api_gateway.Http.Tokens.{TokenAuth, new_token_auth, with_staff_secret}
use orbit_api_gateway.Http.Tokens.Gates.{StaffAuth, new_staff_auth}

-- `Options`
pub record Options : Type 0 where
  pub trust_proxy : Bool
  pub jwt_secret : String
  pub staff_secret : String

-- The settings of the Fiber app: durations, and the bytes of a body that it buffers.
pub record FrontConfig : Type 0 where
  pub read_timeout : ℕ
  pub write_timeout : ℕ
  pub idle_timeout : ℕ
  pub body_limit : ℕ

-- What `newServer` gives to Fiber.
abbrev pub front_config : FrontConfig
front_config = record {
  read_timeout = 30 * second;
  write_timeout = 30 * second;
  idle_timeout = 60 * second;
  body_limit = 4 * 2 ^ 20;
}

-- `Server`: the table at each request, and what the token middleware is made of.
pub record Server : Type 0 where
  pub front : FrontConfig
  pub mux : Tick → List Route
  pub svc : Option Service
  pub jwt_secret : String
  pub staff_secret : String

-- `newServer`
unfoldable pub new_server : (Tick → List Route) → Server
new_server mux = record {
  front = front_config;
  mux = mux;
  svc = none;
  jwt_secret = "";
  staff_secret = "";
}

-- `NewHealth`, over the two handlers of the observability package.
unfoldable pub new_health : HandlerFunc → HandlerFunc → Server
unfolding new_server
new_health health readiness = new_server λ tick.
    record { pattern = "/healthz"; handler = health }
    ∷ record { pattern = "/readyz"; handler = readiness }
    ∷ []

abbrev audited : Option Service → Bool
audited none = false
audited (some svc) = has_audit svc

module _ (ports : Ports) where
  -- The handlers of `New`: the limiter of the service, and the other services as its ports reach
  -- them.
  unfoldable pub edge_of : Service → Options → String → Edge
  edge_of svc opts auth_http_url = record {
    ports = record ports { limiter = svc.limiter };
    trust_proxy = opts.trust_proxy;
    auth_http_url = auth_http_url;
  }

  -- `New`
  unfoldable pub new : Service → Options → String → Assets → Server
  unfolding new_server
  new svc opts auth_http_url assets =
      record (new_server
        λ tick. routes (edge_of svc opts auth_http_url) tick (wired_ports svc) assets) {
          svc = some svc;
          jwt_secret = opts.jwt_secret;
          staff_secret = opts.staff_secret;
        }

  -- `Server.TokenAuth`
  unfoldable pub token_auth : Server → TokenAuth
  unfolding new_token_auth with_staff_secret
  token_auth s =
      with_staff_secret s.staff_secret (new_token_auth ports (audited s.svc) s.jwt_secret)

  -- `Server.StaffAuth`
  unfoldable pub staff_auth : Server → StaffAuth
  unfolding token_auth new_staff_auth
  staff_auth s = new_staff_auth (token_auth s)

-- `ServeJWKS`
unfoldable pub serve_jwks : String → Server → Server
serve_jwks body s = record s {
  mux = λ tick.
      s.mux tick
      ++ record { pattern = "GET /.well-known/jwks.json"; handler = jwks_route body } ∷ [];
}
