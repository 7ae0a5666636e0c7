-- ===== src/Tests/Traffic.antt =====
-- What outlives the requests that the edge serves.
use orbit_api_gateway.Base.{◌≡◌, inr, refl, String, some, List, [], ◌∷◌, arith, eq_iff}
use orbit_api_gateway.Base.Map.{lookup}
use orbit_api_gateway.Base.Strings.{trim_space, to_lower, contains}
use orbit_api_gateway.Json.{str, object}
use orbit_api_gateway.Domain.Failure.{ok}
use orbit_api_gateway.Domain.Onboarding.{normalize_uid}
use orbit_api_gateway.Memory.Stores.{get}
use orbit_api_gateway.World.{World, empty_world}
use orbit_api_gateway.Service.Limits.{check_identifier_limit}
use orbit_api_gateway.Service.Challenges.{normalize_email, challenge, verify_challenge}
use orbit_api_gateway.Service.Challenges.Verdict.{proof}
use orbit_api_gateway.Service.Claims.{provision, claim}
use orbit_api_gateway.Service.Claims.Replay.{replayed}
use orbit_api_gateway.Service.History.{Request, ask_code, give_code, claim_machine, run}
use orbit_api_gateway.Service.History.WellFormed.{WellFormed}
use orbit_api_gateway.Service.History.Spares.{challenge-run-verify}
use orbit_api_gateway.Http.Limits.{wrap}
use orbit_api_gateway.Http.Handlers.Ownership.{challenge_route}
use orbit_api_gateway.Http.Routes.{routes}
use orbit_api_gateway.Http.Effects.Traffic.{Exchange, traffic}
use orbit_api_gateway.Http.Effects.Promises.{traffic-WellFormed, claim-traffic-claim}
use orbit_api_gateway.Tests.Samples.{
  sample_runtime, sample_ports, noon, later, laptop, request, edge, wired, assets,
}

-- A request for a code, on the route of the table that gives one.
abbrev ask : Exchange
ask = record {
  tick = noon;
  pick = 22;
  request = record request {
    method = "POST";
    path = "/api/v1/system/ownership/challenge";
    body = record { value = some (object (("email", str "ann@example.org") ∷ [])); value_end = 27 };
  };
}

-- The route is the one meant: the code is stored.
asked_one :
    lookup "ann@example.org" (traffic edge wired assets (ask ∷ []) empty_world).challenges
    ≡ some (record { code = "042137"; expires_at = 1600000000000 })
unfolding traffic routes lookup wrap challenge_route challenge normalize_email trim_space to_lower
    contains check_identifier_limit
asked_one = refl

empty_world-WellFormed : WellFormed empty_world
unfolding lookup
empty_world-WellFormed = record { challenges = λ k c e. cc e; claims = λ k c e. cc e; audit = tt }

traffic-WellFormed_example : WellFormed (traffic edge wired assets (ask ∷ []) empty_world)
traffic-WellFormed_example =
    traffic-WellFormed edge wired assets (ask ∷ []) empty_world empty_world-WellFormed

abbrev claimed : World
claimed = (claim sample_runtime laptop "" empty_world).1

claim-traffic-claim_example :
    (claim sample_runtime laptop "" (traffic edge wired assets (ask ∷ []) claimed)).0
    ≡ ok (replayed (provision sample_runtime "team:a" "ann" laptop))
unfolding claim trim_space normalize_uid get
claim-traffic-claim_example =
    claim-traffic-claim edge wired assets (ask ∷ []) laptop laptop "" "" empty_world claimed refl
      (ground (arith, eq_iff "team:a" "")) (ground (arith, eq_iff "ann" "")) refl

abbrev address : String
address = " Ann@Example.org"

-- A wrong code, a code for another address, and a claim.
abbrev others : List Request
others =
    give_code later "ann@example.org" "000000"
    ∷ ask_code later "bob@example.org"
    ∷ claim_machine laptop ""
    ∷ []

challenge-run-verify_example :
    let w' = (challenge sample_ports noon address empty_world).1 in
    (verify_challenge sample_ports later "ann@example.org" "042137 "
      (run sample_ports others w' []).0).0
    ≡ ok (proof sample_ports later (normalize_email sample_runtime address) noon.code)
unfolding challenge normalize_email trim_space to_lower contains check_identifier_limit
challenge-run-verify_example =
    challenge-run-verify sample_ports noon later address "ann@example.org" "042137 " empty_world
      (challenge sample_ports noon address empty_world).1 others [] refl
      (
        inr (ground (arith, eq_iff "000000" "042137")),
        (ground (arith, eq_iff "bob@example.org" "ann@example.org"), (tt, tt)),
      )
      refl refl (ground (arith, eq_iff "042137" "")) (omega arith)
