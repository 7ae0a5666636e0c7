-- ===== src/Service/Challenges/Codes.antt =====
-- Codes are accepted once, in time and for their own address only.
use orbit_api_gateway.Base.{ap, ◌+◌, ◌≤◌, ◌≡◌, ◌≢◌, refl, String, eq_refl}
use orbit_api_gateway.Base.Strings.{trim_space}
use orbit_api_gateway.Base.Map.{erase, lookup-insert, lookup-erase}
use orbit_api_gateway.Domain.Runtime.{Time}
use orbit_api_gateway.Domain.Failure.{Failure, ok, err}
use orbit_api_gateway.Domain.Ownership.{OwnershipProof, challenge_ttl}
use orbit_api_gateway.World.{World, Ports, Tick}
use orbit_api_gateway.Service.Challenges.{
  ChallengeReceipt, normalize_email, challenge, verify_challenge, confirm_challenge,
}
use orbit_api_gateway.Service.Challenges.Verdict.{
  IsPending, Verdict, Dispatched, proof, issued, confirm_challenge-Verdict,
  dispatch_challenge-Dispatched, not_empty_of_contains, Verdict-eq_ok, Verdict-eq_err,
}

-- `VerifyChallenge` succeeds exactly when the normalized address and the trimmed code are not
-- empty and fit a challenge that is stored, has this code and has not expired; the proof names
-- them, and the challenge is removed. Otherwise it fails and changes nothing.
pub verify_challenge-Verdict :
    (ports : Ports) (tick : Tick) (email code : String) (w : World)
    → Verdict ports tick
        (normalize_email ports.runtime email)
        (trim_space code)
        w
        (verify_challenge ports tick email code w)
unfolding verify_challenge
verify_challenge-Verdict ports tick email code w =
    confirm_challenge-Verdict ports tick (normalize_email ports.runtime email) (trim_space code) w

-- `Challenge` stores its code with the expiry ten minutes ahead under the normalized address,
-- which then holds an "@", or fails and leaves the stores as they were.
pub challenge-Dispatched :
    (ports : Ports) (tick : Tick) (email : String) (w : World)
    → Dispatched tick (normalize_email ports.runtime email) w (challenge ports tick email w)
unfolding challenge
challenge-Dispatched ports tick email w =
    dispatch_challenge-Dispatched ports tick (normalize_email ports.runtime email) w

-- A code that was dispatched and is not empty is accepted by the next request, up to ten minutes
-- later, from any spelling of the address with the same normal form and with spaces around the code.
pub verify-challenge :
    (ports ports' : Ports) (tick tick' : Tick) (email email' code : String) (w w' : World)
    {receipt : ChallengeReceipt}
    → challenge ports tick email w ≡ (ok receipt, w')
    → normalize_email ports'.runtime email' ≡ normalize_email ports.runtime email
    → trim_space code ≡ tick.code
    → tick.code ≢ ""
    → tick'.now ≤ tick.now + challenge_ttl
    → (verify_challenge ports' tick' email' code w').0
      ≡ ok (proof ports' tick' (normalize_email ports.runtime email) tick.code)
unfolding verify_challenge
verify-challenge ports ports' tick tick' email email' code w w' e same c filled in_time =
    let (holds, claims, audit, stored) = rw e at (challenge-Dispatched ports tick email w) in
    let key = normalize_email ports.runtime email in
    rw (same, c)
      (ap (λ r. r.0)
        (Verdict-eq_ok ports' tick' key tick.code w'
          (confirm_challenge ports' tick' key tick.code w')
          (confirm_challenge-Verdict ports' tick' key tick.code w')
          (record {
            has_email = not_empty_of_contains key b'@' holds;
            has_code = filled;
            pending = record {
              challenge = issued tick;
              stored = rw (stored, lookup-insert, eq_refl) refl;
              same = refl;
              in_time = in_time;
            };
          })))

erased_cannot :
    (key : String) (w w' : World)
    → w' ≡ record w { challenges = erase key w.challenges }
    → {code : String} {now : Time} → ¬ IsPending w' key code now
erased_cannot key w w' rest p = let gone = rw (rest, lookup-erase, eq_refl) at p.stored in cc gone

-- A code is accepted once: the next request for the address, in any spelling with the same normal
-- form and with any code at any time, fails and changes nothing.
pub verify-verify :
    (ports ports' : Ports) (tick tick' : Tick) (email email' code code' : String) (w w' : World)
    {found : OwnershipProof}
    → verify_challenge ports tick email code w ≡ (ok found, w')
    → normalize_email ports'.runtime email' ≡ normalize_email ports.runtime email
    → (f : Failure) × (verify_challenge ports' tick' email' code' w' ≡ (err f, w'))
unfolding verify_challenge
verify-verify ports ports' tick tick' email email' code code' w w' e same =
    let key = normalize_email ports.runtime email in
    let (_, _, rest) = rw e at (verify_challenge-Verdict ports tick email code w) in
    rw same (
      Verdict-eq_err ports' tick' key (trim_space code') w'
        (confirm_challenge ports' tick' key (trim_space code') w')
        (confirm_challenge-Verdict ports' tick' key (trim_space code') w')
        λ can. erased_cannot key w w' rest can.pending)
