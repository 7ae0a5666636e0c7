-- ===== src/Tests/Edge.antt =====
-- The edge: budgets, callers, failures and the table of routes.
use orbit_api_gateway.Base.{
  ◌+◌, ◌*◌, ◌≤◌, ◌<◌, ◌≡◌, ◌⊎◌, refl, true, false, [], none, some, ◌∷◌, arith,
}
use orbit_api_gateway.Base.Int.{pos, negsuc}
use orbit_api_gateway.Domain.Runtime.{second}
use orbit_api_gateway.Domain.Ratelimit.{client_key, policy_for, class_auth_password}
use orbit_api_gateway.Domain.Flags.{FlagSet}
use orbit_api_gateway.World.{empty_world, rate_check, note_call}
use orbit_api_gateway.Http.Message.{get_header}
use orbit_api_gateway.Http.Response.{retry_seconds}
use orbit_api_gateway.Http.Response.Rendering.{retry_seconds_bounds}
use orbit_api_gateway.Http.Client.{client_ip}
use orbit_api_gateway.Http.Limits.{bearer_token, wrap}
use orbit_api_gateway.Http.Limits.Denial.{Guarded, wrap-Guarded}
use orbit_api_gateway.Http.Handlers.Auth.{login_route}
use orbit_api_gateway.Upstream.Flags.{decode_flags}
use orbit_api_gateway.Http.Handlers.Encode.{flag_set_json}
use orbit_api_gateway.Http.Handlers.Encode.Flags.{decode_flags-json}
use orbit_api_gateway.Http.Handlers.Orgs.Bearer.{Confined}
use orbit_api_gateway.Http.Handlers.Callers.{on_members, handler_of, org_routes-Confined}
use orbit_api_gateway.Startup.{startup}
use orbit_api_gateway.Startup.Process.{Outside, process_of, boot}
use orbit_api_gateway.Startup.Ready.{IsReady, boot-IsReady}
use orbit_api_gateway.Http.Handlers.Static.{health_route}
use orbit_api_gateway.Startup.Guarantees.{Production, startup-Production}
use orbit_api_gateway.Tests.Samples.{
  sample_limiter, sample_ports, noon, conn, request, edge, assets, host, config,
}

wrap-Guarded_example :
    let key = client_key class_auth_password (client_ip false request) in
    Guarded
      (sample_limiter [] key (policy_for class_auth_password))
      (note_call (rate_check key (policy_for class_auth_password)) empty_world)
      (login_route edge)
      request
      conn
      (wrap edge class_auth_password (login_route edge) request conn)
wrap-Guarded_example =
    wrap-Guarded edge class_auth_password (login_route edge) request conn sample_limiter refl

org_routes-Confined_example :
    Confined
      (bearer_token (get_header "Authorization" request))
      conn
      (handler_of edge on_members request conn)
org_routes-Confined_example = org_routes-Confined edge on_members request conn

retry_seconds_bounds_example :
    (retry_seconds (negsuc 4) ≡ 1)
    × (((2500000000 < second) × (retry_seconds (pos 2500000000) ≡ 1))
        ⊎ ((1 ≤ retry_seconds (pos 2500000000))
            × (retry_seconds (pos 2500000000) * second ≤ 2500000000)
            × (2500000000 < (retry_seconds (pos 2500000000) + 1) * second)))
retry_seconds_bounds_example = retry_seconds_bounds 2500000000 4 (omega arith)

-- A delay whose float rounds up to the next whole second, and the longest one below 2^24 seconds.
rounded : retry_seconds (pos 16777216999999999) ≡ 16777217
unfolding retry_seconds
rounded = refl

not_rounded : retry_seconds (pos 16777215999999999) ≡ 16777215
unfolding retry_seconds
not_rounded = refl

abbrev outside : Outside
outside = record {
  ports = sample_ports;
  redis_limiter = λ addr calls key policy. none;
  memory_limiter = λ calls key policy. none;
  clock = λ calls. noon.now;
  codes = λ calls. noon.code;
  logger = λ message arg. [];
  assets = assets;
  health = health_route;
  readiness = health_route;
}

boot-IsReady_example : IsReady outside (process_of outside config) noon
unfolding boot
boot-IsReady_example = boot-IsReady outside host (process_of outside config) noon refl

startup-Production_example : Production host config
unfolding startup
startup-Production_example = startup-Production host config refl refl

abbrev flag_set : FlagSet
flag_set = record {
  version = "7";
  flags = record { name = "dark"; enabled = true; description = "Dark mode" } ∷ [];
}

decode_flags-json_example : decode_flags (flag_set_json flag_set) ≡ some flag_set
decode_flags-json_example = decode_flags-json flag_set
