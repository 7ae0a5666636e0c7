-- ===== src/Tests/Front.antt =====
-- The front and the answers.
use orbit_api_gateway.Base.{
  ◌⊎◌, ◌≡◌, refl, String, [], ◌∷◌, ◌==◌, if◌then◌else◌, get_or, some, false,
}
use orbit_api_gateway.Base.Map.{Map, lookup, insert, erase, lookup-insert, lookup-erase}
use orbit_api_gateway.World.{empty_world, Limiter}
use orbit_api_gateway.Http.Message.{fresh_response, get_header}
use orbit_api_gateway.Http.Handlers.Static.{health_route}
use orbit_api_gateway.Http.Routes.{Route, routes}
use orbit_api_gateway.Http.Limits.{Edge, bearer_token, wrap}
use orbit_api_gateway.Http.Handlers.Auth.{request_otp_route}
use orbit_api_gateway.Http.Beside.{Sent}
use orbit_api_gateway.Http.Effects.Senders.{routes-Sent}
use orbit_api_gateway.Http.Refusal.{Refuses, Checked, Unkeyed, routes-Checked}
use orbit_api_gateway.Domain.Ratelimit.{class_auth_otp_request}
use orbit_api_gateway.Http.Answers.{Answered}
use orbit_api_gateway.Http.Answers.Table.{routes-Answered}
use orbit_api_gateway.Http.Front.{ResponseHeader, rate_limit_header_spellings, respell_headers}
use orbit_api_gateway.Http.Front.Published.{Published, respell_headers-Published}
use orbit_api_gateway.Tests.Samples.{sample_ports, two_a_minute, noon, request, edge, wired, assets}

routes-Answered_example :
    Answered
      (health_route request (record { world = empty_world; response = fresh_response })).response
unfolding routes
routes-Answered_example =
    routes-Answered edge noon wired assets 0
      (record { pattern = "GET /healthz"; handler = health_route }) request empty_world refl

-- A store of headers that spells the names of the budget its own way.
abbrev own_spelling : String → String
own_spelling name =
    if name == "X-RateLimit-Limit"
    then "X-Ratelimit-Limit"
    else if name == "X-RateLimit-Remaining"
    then "X-Ratelimit-Remaining"
    else if name == "X-RateLimit-Reset"
    then "X-Ratelimit-Reset"
    else name

abbrev headers : ResponseHeader (Map String)
headers = record {
  peek = λ key h. get_or "" (lookup (own_spelling key) h);
  del = λ key h. erase (own_spelling key) h;
  set_canonical = λ key value h. insert key value h;
  canonical = own_spelling;
  sent = λ name h. lookup name h;
  peek_lem = λ key h. refl;
  del_lem = λ key name h. lookup-erase (own_spelling key) name h;
  set_canonical_lem = λ key value name h. lookup-insert key name value h;
}

abbrev budget : Map String
budget =
    ("Content-Type", "application/json")
    ∷ ("X-Ratelimit-Limit", "5")
    ∷ ("X-Ratelimit-Remaining", "4")
    ∷ ("X-Ratelimit-Reset", "1793588600")
    ∷ []

respell_headers-Published_example :
    Published headers (respell_headers headers budget) "5" "4" "1793588600"
    × (lookup "Content-Type" (respell_headers headers budget) ≡ lookup "Content-Type" budget)
unfolding lookup rate_limit_header_spellings
respell_headers-Published_example =
    respell_headers-Published headers budget "5" "4" "1793588600" "Content-Type"
      (refl, (refl, (refl, tt))) refl refl refl refl refl refl
      ((refl, refl), ((refl, refl), ((refl, refl), tt)))

-- The route for a one-time password.
abbrev otp_route : Edge → Route
otp_route e = record {
  pattern = "POST /api/v1/auth/otp/request";
  handler = wrap e class_auth_otp_request (request_otp_route e);
}

routes-Sent_example :
    Sent
      (bearer_token (get_header "Authorization" request))
      []
      ((otp_route edge).handler request
        (record { world = empty_world; response = fresh_response })).world.calls
unfolding routes
routes-Sent_example = routes-Sent edge noon wired assets 1 (otp_route edge) request empty_world refl

abbrev closed : Limiter
closed calls key policy = some (record two_a_minute { allowed = false })

closed-Refuses : Refuses closed
closed-Refuses calls key policy d e = cc

abbrev closed_edge : Edge
closed_edge = record edge { ports = record sample_ports { limiter = some closed } }

routes-Checked_example :
    Checked empty_world
      ((otp_route closed_edge).handler request
        (record { world = empty_world; response = fresh_response })).world
    ⊎ Unkeyed closed_edge request (otp_route closed_edge).handler
unfolding routes
routes-Checked_example =
    routes-Checked closed_edge noon wired assets closed 1 (otp_route closed_edge) request
      empty_world refl closed-Refuses refl
