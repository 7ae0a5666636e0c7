-- ===== src/Tests/Samples.antt =====
-- A small deployment: its ports, its worlds and its requests.
use orbit_api_gateway.Base.{
  ℕ, ◌+◌, ◌*◌, refl, String, true, false, none, some, List, [], ◌∷◌, ◌==◌, arith, if◌then◌else◌,
  ltb, length,
}
use orbit_api_gateway.Base.Int.{pos}
use orbit_api_gateway.Base.Strings.{lower_rune}
use orbit_api_gateway.Json.{str, arr, of_elems, object}
use orbit_api_gateway.Grpc.{reply, unreachable}
use orbit_api_gateway.Domain.Runtime.{Runtime, IsLowerTable, minute, second}
use orbit_api_gateway.Domain.Ratelimit.{Decision}
use orbit_api_gateway.Domain.Auth.{OtpRequest}
use orbit_api_gateway.Domain.Audit.{AuditEntry}
use orbit_api_gateway.Domain.Onboarding.{ClaimInput}
use orbit_api_gateway.World.{empty_world, Limiter, Ports, Tick}
use orbit_api_gateway.Http.Message.{Request, Conn, empty_context, fresh_response}
use orbit_api_gateway.Http.Limits.{Edge}
use orbit_api_gateway.Http.Routes.{Wired, Assets}
use orbit_api_gateway.Http.Tokens.{TokenAuth, Claims}
use orbit_api_gateway.Startup.{Host, Config, redis}

abbrev digest_of : String → List ℕ
digest_of text = 7 ∷ 200 ∷ 15 ∷ 0 ∷ 31 ∷ 64 ∷ 99 ∷ 255 ∷ []

abbrev pub staff_claims : Claims
staff_claims = ("staff_subject", str "agent-7") ∷ ("reason", str "outage") ∷ []

-- Tokens here are the word "staff", signed under the secret "ordinary".
abbrev pub sample_runtime : Runtime
sample_runtime = record {
  wide_lower = λ c. c;
  title = λ s. s;
  sha256 = digest_of;
  time_string = λ t. "noon";
  time_json = λ t. "noon";
  jwt_decode = λ token. if token == "staff" then some ("HS256", staff_claims) else none;
  jwt_signed = λ secret token. secret == "ordinary";
  jwt_current = λ now claims. true;
  key_for_ip = λ ip route. ip;
  key_for_org = λ org route. org;
  is_url = λ text. true;
}

pub sample_table : IsLowerTable sample_runtime
unfolding lower_rune
sample_table = record { idempotent = λ c h. ground arith; spaces = λ c h. refl }

abbrev pub two_a_minute : Decision
two_a_minute = record {
  allowed = true;
  limit = pos 2;
  remaining = pos 1;
  reset_at = 0;
  retry_after = pos 0;
}

-- The first two calls of a process are allowed, and every later one is denied.
abbrev pub sample_limiter : Limiter
sample_limiter calls key policy =
    if ltb (length calls) 2
    then some two_a_minute
    else some
        (record two_a_minute { allowed = false; remaining = pos 0; retry_after = pos 1500000000 })

abbrev pub sample_ports : Ports
sample_ports = record {
  runtime = sample_runtime;
  limiter = some sample_limiter;
  upstream = λ calls r.
      reply
        (object (("user_id", str "user-3") ∷ ("scopes", arr (of_elems (str "read" ∷ []))) ∷ []));
  auth_http = λ calls url. unreachable;
}

abbrev pub noon : Tick
noon = record { now = 1000000000000; code = "042137" }

abbrev pub later : Tick
later = record { now = 1000000000000 + 5 * minute; code = "990011" }

abbrev pub laptop : ClaimInput
laptop = record {
  invite_token = "team:a ";
  desired_uid = "Ann";
  email = "";
  display_name = "";
  ssh_public_key = "";
  machine_fingerprint = "";
  scope = "";
  metadata = [];
}

abbrev pub other_laptop : ClaimInput
other_laptop = record laptop { invite_token = "team"; desired_uid = "a:ann" }

abbrev pub otp : OtpRequest
otp = record { identifier = "ann@example.org"; channel = "email"; email = ""; correlation_id = "" }

abbrev pub conn : Conn
conn = record { world = empty_world; response = fresh_response }

abbrev pub request : Request
request = record {
  method = "GET";
  path = "/api/v1/orgs";
  path_values = ("org_id", "org-1") ∷ [];
  headers = ("Authorization", "Bearer staff") ∷ [];
  remote_addr = "10.0.0.1:4000";
  body = record { value = some (object (("org_id", str "org-1") ∷ [])); value_end = 18 };
  context = empty_context;
}

abbrev pub staff_request : Request
staff_request = record request {
  context = record empty_context {
    is_staff = true;
    staff_subject = "agent-7";
    break_glass_reason = "outage";
  };
}

abbrev pub edge : Edge
edge = record { ports = sample_ports; trust_proxy = false; auth_http_url = "" }

abbrev pub auth : TokenAuth
auth = record {
  ports = sample_ports;
  audited = true;
  secret = "ordinary";
  staff_secret = "distinct";
}

abbrev pub entry : AuditEntry
entry = record {
  id = "";
  org_id = "org-1";
  actor = "agent-7";
  actor_type = "staff";
  is_staff = true;
  break_glass = false;
  reason = "";
  action = "GET /";
  resource = "/";
  timestamp = 0;
}

abbrev pub environment : String → String
environment key =
    if key == "JWT_SECRET"
    then "ordinary"
    else if key == "REDIS_ADDR"
    then "redis:6379"
    else if key == "JWT_PUBLIC_KEYS_DIR"
    then "/keys"
    else ""

abbrev pub host : Host
host = record {
  getenv = environment;
  configures = true;
  dials = λ addr. true;
  pings = λ addr. true;
  key_set = λ dir. some (record { body = "{}"; keys = 0 });
}

abbrev pub config : Config
config = record {
  client = record {
    conn = some "localhost:10010";
    auth_http_url = "http://localhost:10011";
    http_timeout = 5 * second;
  };
  limiter = redis "redis:6379";
  trust_proxy = false;
  jwt_secret = "ordinary";
  staff_secret = "";
  jwks = some "{}";
  http_port = "10001";
  health_port = "10014";
}

abbrev pub wired : Wired
wired = record { auth = true; signup = true; flags = true; orgs = true; tenants = true }

abbrev pub assets : Assets
assets = record { install_script = "#!/bin/sh"; openapi_spec = none; manifest = none }
