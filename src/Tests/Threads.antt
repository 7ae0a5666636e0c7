-- ===== src/Tests/Threads.antt =====
-- Requests that interleave, on a small schedule.
use orbit_api_gateway.Base.{
  ℕ, zero, suc, ◌≤◌, ◌≡◌, ◌≢◌, ap, ◌↔◌, String, refl, List, [], ◌∷◌, arith, eq_iff,
}
use orbit_api_gateway.Base.Map.{lookup}
use orbit_api_gateway.Base.Strings.{trim_space, to_lower, contains}
use orbit_api_gateway.Domain.Failure.{ok}
use orbit_api_gateway.Domain.Onboarding.{ClaimInput, ClaimResult, normalize_uid, claim_defaults}
use orbit_api_gateway.Domain.Ownership.{OwnershipProof}
use orbit_api_gateway.Memory.Stores.{get, save, confirm}
use orbit_api_gateway.Service.Challenges.{normalize_email, accepts}
use orbit_api_gateway.Service.Claims.{claim_key, provision, claim}
use orbit_api_gateway.Service.Claims.Replay.{replayed}
use orbit_api_gateway.Service.Limits.{check_identifier_limit}
use orbit_api_gateway.Service.History
use orbit_api_gateway.Service.History.{Request, ask_code, give_code}
use orbit_api_gateway.Service.History.Codes.{IsOpen}
use orbit_api_gateway.Service.Threads.{
  Thread, asking, giving, proved, claiming, claimed, noting, Schedule, start, turn, move, run,
}
use orbit_api_gateway.Service.Threads.Alone.{three}
use orbit_api_gateway.Service.Threads.Finish.{turns_of}
use orbit_api_gateway.Service.Threads.Codes.{confirm-run_iff}
use orbit_api_gateway.Service.Threads.Codes.Proofs.{saves, proofs, proof_for, proofs-le-saves}
use orbit_api_gateway.Service.Threads.Claims.{key_of, made, IsFilled}
use orbit_api_gateway.Service.Threads.Claims.Sources.{IsNew, Origin, Answered, run-Answered}
use orbit_api_gateway.Service.Threads.Claims.Late.{run-late}
use orbit_api_gateway.Service.Threads.Claims.Race.{alternate, run-race}
use orbit_api_gateway.Tests.Samples.{sample_runtime, sample_ports, noon, later, laptop, entry}

abbrev renamed : ClaimInput
renamed = record laptop { display_name = "Ann B." }

-- One request for a code, two that give it, and two claims under one key.
abbrev requests : ℕ → Thread
requests zero = asking "ann@example.org"
requests (suc zero) = giving "Ann@example.org" "042137"
requests (suc (suc zero)) = giving "ann@example.org" " 042137"
requests (suc (suc (suc zero))) = claiming laptop "key-1"
requests (suc (suc (suc (suc zero)))) = claiming renamed "key-1"
requests other = noting entry

requests-IsNew : (j : ℕ) → IsNew (requests j)
requests-IsNew zero = tt
requests-IsNew (suc zero) = tt
requests-IsNew (suc (suc zero)) = tt
requests-IsNew (suc (suc (suc zero))) = tt
requests-IsNew (suc (suc (suc (suc zero)))) = tt
requests-IsNew (suc (suc (suc (suc (suc j))))) = tt

-- The code is dispatched, and both verifications read the clock before either compares.
abbrev both_wait : Schedule
both_wait = (0, noon) ∷ (0, noon) ∷ (1, later) ∷ (2, later) ∷ []

abbrev one_claims : Schedule
one_claims = three 3 noon

abbrev ask_and_give : List Request
ask_and_give = ask_code noon "ann@example.org" ∷ give_code later "Ann@example.org" "042137" ∷ []

confirm-run_iff_example :
    let s = run sample_ports both_wait (start requests) in
    ((p : OwnershipProof) × ((move sample_ports 1 later s).threads 1 ≡ proved (ok p)))
    ↔ IsOpen s.events "ann@example.org" "042137" later.now
unfolding run move turn normalize_email trim_space to_lower contains check_identifier_limit
confirm-run_iff_example =
    confirm-run_iff sample_ports both_wait requests 1 later later "ann@example.org" "042137" refl

proofs-le-saves_example :
    let s = run sample_ports both_wait (start requests) in
    proofs "ann@example.org" 3 s.threads ≤ saves "ann@example.org" s.events
unfolding proofs proof_for
proofs-le-saves_example = proofs-le-saves sample_ports "ann@example.org" 3 both_wait requests refl

run-Answered_example :
    Answered sample_ports requests 3
      (run sample_ports one_claims (start requests)).world.claims
      (made sample_runtime laptop)
unfolding run move turn trim_space normalize_uid to_lower claim_key get
run-Answered_example = run-Answered sample_ports requests one_claims 3 requests-IsNew refl

filled :
    (input : ClaimInput)
    → trim_space input.invite_token ≡ "team:a"
    → normalize_uid sample_runtime input.desired_uid ≡ "ann"
    → IsFilled sample_runtime input
filled input token uid = record {
  token = rw token (ground (arith, eq_iff "team:a" ""));
  uid = rw uid (ground (arith, eq_iff "ann" ""));
}

run-late_example :
    (first : ClaimResult) × Origin sample_ports requests
      (key_of sample_runtime renamed "key-1")
      first
    × ((run sample_ports (three 4 later) (run sample_ports one_claims (start requests))).threads 4
        ≡ claimed (ok (replayed first)))
unfolding run move turn trim_space normalize_uid to_lower claim_key get turns_of
run-late_example =
    run-late sample_ports requests one_claims (three 4 later) 3 4 laptop renamed "key-1" "key-1"
      requests-IsNew refl refl refl (filled renamed refl refl) refl refl (omega arith)

other_name : ¬ (◌≡◌ {A = String} "Ann B." "ann")
other_name e = ground (arith, eq_iff "Ann B." "ann")

renamed_apart : made sample_runtime renamed ≢ made sample_runtime laptop
unfolding provision claim_defaults trim_space normalize_uid to_lower
renamed_apart e = other_name (ap (λ (r : ClaimResult). r.user.display_name) e)

run-race_example :
    let s = run sample_ports (alternate 3 4 noon) (start requests) in
    (s.threads 3 ≡ claimed (ok (made sample_runtime laptop)))
    × (s.threads 4 ≡ claimed (ok (made sample_runtime renamed)))
    × ((claim sample_runtime laptop "key-1" s.world).0
        ≡ ok (replayed (made sample_runtime renamed)))
    × (replayed (made sample_runtime renamed) ≢ replayed (made sample_runtime laptop))
unfolding trim_space normalize_uid to_lower claim_key lookup
run-race_example =
    run-race sample_ports 3 4 noon laptop renamed "key-1" "key-1" (start requests) refl refl refl
      (filled laptop refl refl) (filled renamed refl refl) refl refl renamed_apart

-- Of two verifications that wait with the right code at once, one gets the proof.
one_proof :
    let s =
      run sample_ports
        ((1, later) ∷ (2, later) ∷ [])
        (run sample_ports both_wait (start requests)) in
    proofs "ann@example.org" 3 s.threads ≡ 1
unfolding run move turn normalize_email trim_space to_lower contains check_identifier_limit proofs
    proof_for accepts save confirm
one_proof = refl
