-- ===== src/Http/Effects/Stores.antt =====
-- The routes over the stores: each makes the request of the history that its body asks for.
use orbit_api_gateway.Base.{String, Option}
use orbit_api_gateway.World.{World, Tick}
use orbit_api_gateway.Service.History
use orbit_api_gateway.Service.Challenges.{challenge, verify_challenge}
use orbit_api_gateway.Service.Claims.{claim}
use orbit_api_gateway.Http.Message.{call, get_header}
use orbit_api_gateway.Http.Message.Reach.{bound-Reaches, called-Reaches, finish-Reaches}
use orbit_api_gateway.Http.Response.{write_app_error, write_limit_error, decode_json_body}
use orbit_api_gateway.Http.Limits.{Edge}
use orbit_api_gateway.Http.Handlers.Ownership.{
  decode_challenge, decode_verify, challenge_route, verify_challenge_route,
}
use orbit_api_gateway.Http.Handlers.Onboarding.{decode_claim, claim_route}
use orbit_api_gateway.Http.Effects.{IsKept, Keeps, decoded-Reaches}

module _ (edge : Edge) (tick : Tick) {caller : Option String} {P : World → Type 0}
    (kept : IsKept edge.ports caller P) where
  pub challenge_route-Keeps : Keeps caller P (challenge_route edge tick)
  unfolding challenge_route History.serve
  challenge_route-Keeps r c mine here = finish-Reaches P _ (
      bound-Reaches P (decode_json_body decode_challenge r c) _
        (decoded-Reaches P decode_challenge r c here)
        (λ email c1 here1.
          bound-Reaches P (call write_limit_error (challenge edge.ports tick email) c1) _
            (called-Reaches P write_limit_error c1 (challenge edge.ports tick email c1.world)
              (kept.used (History.ask_code tick email) c1.world here1))
            (λ receipt c2 here2. here2)))

  pub verify_challenge_route-Keeps : Keeps caller P (verify_challenge_route edge tick)
  unfolding verify_challenge_route History.serve
  verify_challenge_route-Keeps r c mine here = finish-Reaches P _ (
      bound-Reaches P (decode_json_body decode_verify r c) _
        (decoded-Reaches P decode_verify r c here)
        (λ body c1 here1.
          let op = verify_challenge edge.ports tick body.0 body.1 in
          bound-Reaches P (call write_app_error op c1) _
            (called-Reaches P write_app_error c1 (op c1.world)
              (kept.used (History.give_code tick body.0 body.1) c1.world here1))
            (λ proof c2 here2. here2)))

  pub claim_route-Keeps : Keeps caller P (claim_route edge)
  unfolding claim_route History.serve
  claim_route-Keeps r c mine here = finish-Reaches P _ (
      bound-Reaches P (decode_json_body decode_claim r c) _
        (decoded-Reaches P decode_claim r c here)
        (λ body c1 here1.
          let op = claim edge.ports.runtime body (get_header "Idempotency-Key" r) in
          bound-Reaches P (call write_app_error op c1) _
            (called-Reaches P write_app_error c1 (op c1.world) (
              kept.used (History.claim_machine body (get_header "Idempotency-Key" r)) c1.world
                here1))
            (λ result c2 here2. here2)))
