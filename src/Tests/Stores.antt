-- ===== src/Tests/Stores.antt =====
-- The stores: challenges, claims and the audit trail.
use orbit_api_gateway.Base.{
  ◌≡◌, ◌≢◌, ◌↔◌, true, ◌+◌, ◌*◌, ◌%◌, ◌^◌, refl, String, [], ◌∷◌, arith, eq_iff,
}
use orbit_api_gateway.Base.Map.{lookup}
use orbit_api_gateway.Base.Strings.{trim_space}
use orbit_api_gateway.Domain.Failure.{ok}
use orbit_api_gateway.Domain.Ownership.{OwnershipProof}
use orbit_api_gateway.Domain.Onboarding.{ClaimResult, normalize_uid, claim_credentials_for}
use orbit_api_gateway.Domain.Ratelimit.{identifier_key, otp_request_identifier_policy}
use orbit_api_gateway.World.{World, empty_world, rate_check, note_call}
use orbit_api_gateway.Memory.Stores.{get}
use orbit_api_gateway.Ids.{new_code}
use orbit_api_gateway.Ids.Digits.{Spells, new_code-Spells}
use orbit_api_gateway.Service.Challenges.{normalize_email, challenge, verify_challenge}
use orbit_api_gateway.Service.Claims.{provision, claim}
use orbit_api_gateway.Service.Claims.Replay.{replayed}
use orbit_api_gateway.Service.History.{ask_code, give_code, claim_machine, run}
use orbit_api_gateway.Service.History.Codes.{IsOpen, verify-run_iff}
use orbit_api_gateway.Service.History.Claims.{claim-run-claim, claim-shares}
use orbit_api_gateway.Service.Otp.{identifier_or, request_otp}
use orbit_api_gateway.Service.Otp.Budget.{Budgeted, request_otp-Budgeted}
use orbit_api_gateway.Tests.Samples.{
  sample_runtime, sample_limiter, sample_ports, noon, later, laptop, other_laptop, otp,
}

abbrev address : String
address = " Ann@Example.org"

abbrev asked : World
asked = (challenge sample_ports noon address empty_world).1

abbrev claimed : World
claimed = (claim sample_runtime laptop "" empty_world).1

verify-run_iff_example :
    let (w, events) =
      run sample_ports (ask_code noon address ∷ claim_machine laptop "" ∷ []) empty_world [] in
    let key = normalize_email sample_runtime address in
    ((p : OwnershipProof) × ((verify_challenge sample_ports later address "042137 " w).0 ≡ ok p))
    ↔ ((key ≢ "")
        × (trim_space "042137 " ≢ "")
        × IsOpen events key (trim_space "042137 ") later.now)
verify-run_iff_example =
    verify-run_iff sample_ports (ask_code noon address ∷ claim_machine laptop "" ∷ []) later address
      "042137 "

claim-run-claim_example :
    (claim sample_runtime laptop ""
      (run sample_ports (give_code later address "042137" ∷ []) claimed []).0).0
    ≡ ok (replayed (provision sample_runtime "team:a" "ann" laptop))
unfolding claim trim_space normalize_uid get
claim-run-claim_example =
    claim-run-claim sample_ports laptop laptop "" "" empty_world claimed
      (give_code later address "042137" ∷ []) [] refl (ground (arith, eq_iff "team:a" ""))
      (ground (arith, eq_iff "ann" "")) refl

abbrev longer_uid : String
longer_uid = "a:ann"

claim-shares_example :
    (given : ClaimResult) × ((claim sample_runtime other_laptop ""
        (claim sample_runtime laptop "" empty_world).1).0
      ≡ ok given)
    × (given.idempotent_replay ≡ true)
    × (given.user.uid ≡ "ann")
    × (given.credentials ≡ claim_credentials_for sample_runtime "team:a" "ann")
    × (longer_uid ≢ "ann")
unfolding trim_space normalize_uid lookup
claim-shares_example =
    claim-shares sample_ports laptop other_laptop "team" "a" "ann" empty_world refl refl refl refl
      (ground (arith, eq_iff "team" "")) (ground (arith, eq_iff "ann" "")) refl

new_code-Spells_example : Spells 6 ((3 * 2 ^ 16 + 200 * 2 ^ 8 + 9) % 1000000) (new_code 3 200 9)
new_code-Spells_example = new_code-Spells 3 200 9

request_otp-Budgeted_example :
    let key = identifier_key sample_runtime "ann@example.org" in
    Budgeted sample_ports otp
      (sample_limiter [] key otp_request_identifier_policy)
      (note_call (rate_check key otp_request_identifier_policy) empty_world)
      (request_otp sample_ports otp empty_world)
unfolding identifier_or trim_space
request_otp-Budgeted_example =
    request_otp-Budgeted sample_ports otp empty_world sample_limiter refl
      (ground (arith, eq_iff "ann@example.org" ""))
