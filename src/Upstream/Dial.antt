-- ===== src/Upstream/Dial.antt =====
-- The connection of auth/client.go: `NewClient` and `Close`. The gRPC package is a parameter.
use orbit_api_gateway.Base.{ℕ, ◌*◌, String, Bool, true, Option, none, some, if◌then◌else◌}
use orbit_api_gateway.Domain.Runtime.{second}

-- `Client`: the target of its connection, which the stubs of the four services share, and the HTTP
-- side.
pub record Client : Type 0 where
  pub conn : Option String
  pub auth_http_url : String
  pub http_timeout : ℕ

-- `NewClient`, by whether `grpc.NewClient` takes the address.
unfoldable pub new_client : (String → Bool) → String → Option Client
new_client dials addr =
    if dials addr
    then some (record { conn = some addr; auth_http_url = ""; http_timeout = 5 * second })
    else none

-- `Close`, by whether the connection closes without an error.
unfoldable pub close : (String → Bool) → Client → Bool
close closes client = elim client.conn [ none ↦ true | some target ↦ closes target ]
