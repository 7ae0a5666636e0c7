-- ===== src/Tests/Handlers.antt =====
-- The routes of the ownership codes and of the onboarding.
use orbit_api_gateway.Base.{[], ◌∷◌, some}
use orbit_api_gateway.Json.{str, object}
use orbit_api_gateway.Service.Challenges.{challenge}
use orbit_api_gateway.World.{World, empty_world}
use orbit_api_gateway.Http.Message.{Request, Conn}
use orbit_api_gateway.Http.Handlers.Ownership.{challenge_route, verify_challenge_route}
use orbit_api_gateway.Http.Handlers.Onboarding.{claim_route}
use orbit_api_gateway.Http.Handlers.Auth.{
  decode_otp_verify, decode_login, decode_refresh, verify_otp_route, login_route,
  refresh_token_route,
}
use orbit_api_gateway.Upstream.Convert.{token_pair}
use orbit_api_gateway.Http.Handlers.Exchange.{
  verify_rpc, login_rpc, refresh_rpc, nested_tokens, Exchanged, token_routes-Exchanged,
}
use orbit_api_gateway.Http.Handlers.Dispatch.{DispatchOutcome, challenge_route-DispatchOutcome}
use orbit_api_gateway.Http.Handlers.Verification.{
  VerifyOutcome, verify_challenge_route-VerifyOutcome,
}
use orbit_api_gateway.Http.Handlers.Provisioning.{ClaimOutcome, claim_route-ClaimOutcome}
use orbit_api_gateway.Tests.Samples.{sample_ports, noon, later, conn, request, edge}

abbrev asked : World
asked = (challenge sample_ports noon "ann@example.org" empty_world).1

abbrev asked_conn : Conn
asked_conn = record conn { world = asked }

-- A request that gives the code that was sent.
abbrev code_request : Request
code_request = record request {
  body = record {
    value = some (object (("email", str "ann@example.org") ∷ ("code", str "042137") ∷ []));
    value_end = 44;
  };
}

-- A request that claims a UID with an invitation.
abbrev claim_request : Request
claim_request = record request {
  body = record {
    value = some (object (("invite_token", str "team:a") ∷ ("desired_uid", str "ann") ∷ []));
    value_end = 46;
  };
}

-- A request for a code.
abbrev ask_request : Request
ask_request = record request {
  body = record { value = some (object (("email", str "ann@example.org") ∷ [])); value_end = 27 };
}

challenge_route-DispatchOutcome_example :
    DispatchOutcome edge noon ask_request conn (challenge_route edge noon ask_request conn)
challenge_route-DispatchOutcome_example = challenge_route-DispatchOutcome edge noon ask_request conn

verify_challenge_route-VerifyOutcome_example :
    VerifyOutcome edge later code_request asked_conn
      (verify_challenge_route edge later code_request asked_conn)
verify_challenge_route-VerifyOutcome_example =
    verify_challenge_route-VerifyOutcome edge later code_request asked_conn

claim_route-ClaimOutcome_example :
    ClaimOutcome edge claim_request conn (claim_route edge claim_request conn)
claim_route-ClaimOutcome_example = claim_route-ClaimOutcome edge claim_request conn

-- A body that each of the three routes can decode.
abbrev token_request : Request
token_request = record request {
  body = record {
    value = some (
        object (
          ("identifier", str "ann@example.org")
          ∷ ("code", str "042137")
          ∷ ("password", str "secret")
          ∷ ("refresh_token", str "r-1")
          ∷ []));
    value_end = 99;
  };
}

token_routes-Exchanged_example :
    Exchanged edge decode_otp_verify verify_rpc nested_tokens token_request conn
      (verify_otp_route edge token_request conn)
    × Exchanged edge decode_login login_rpc token_pair token_request conn
        (login_route edge token_request conn)
    × Exchanged edge decode_refresh refresh_rpc token_pair token_request conn
        (refresh_token_route edge token_request conn)
token_routes-Exchanged_example = token_routes-Exchanged edge token_request conn
