-- ===== src/Service/History/Spares.antt =====
-- A code that was dispatched can be used, whatever else is asked of the use cases.
use orbit_api_gateway.Base.{
  ◌≡◌, ◌≢◌, ◌≤◌, ◌+◌, ◌⊎◌, inl, inr, refl, ap, String, some, List, [], ◌∷◌, All, eq_iff, eq_refl,
  arith,
}
use orbit_api_gateway.Base.Strings.{trim_space}
use orbit_api_gateway.Base.Map.{lookup, lookup-insert, lookup-erase}
use orbit_api_gateway.Domain.Runtime.{Runtime}
use orbit_api_gateway.Domain.Failure.{Result, ok, err}
use orbit_api_gateway.Domain.Ownership.{Challenge, OwnershipProof, challenge_ttl}
use orbit_api_gateway.World.{World, Ports, Tick}
use orbit_api_gateway.Service.Challenges.{
  ChallengeReceipt, normalize_email, challenge, verify_challenge, confirm_challenge,
}
use orbit_api_gateway.Service.Challenges.Verdict.{
  Verdict, Verdict-eq_ok, Dispatched, issued, proof, confirm_challenge-Verdict,
  not_empty_of_contains,
}
use orbit_api_gateway.Service.Challenges.Codes.{verify_challenge-Verdict, challenge-Dispatched}
use orbit_api_gateway.Service.Claims.Replay.{claim-SameOthers}
use orbit_api_gateway.Service.Audit.{record_audit}
use orbit_api_gateway.Service.History.{
  Request, ask_code, give_code, claim_machine, note_action, Event, serve, observe, run,
}

-- The request neither asks for a new code for the address, nor gives this code for it.
abbrev pub Spares : Runtime → String → String → Request → Type 0
Spares rt key code (ask_code tick email) = normalize_email rt email ≢ key
Spares rt key code (give_code tick email given) =
    (normalize_email rt email ≢ key) ⊎ (trim_space given ≢ code)
Spares rt key code (claim_machine input name) = Unit
Spares rt key code (note_action tick entry) = Unit

Dispatched-Spares :
    (tick : Tick) (asked key : String) (w : World) (res : Result ChallengeReceipt × World)
    {c : Challenge}
    → Dispatched tick asked w res
    → asked ≢ key
    → lookup key w.challenges ≡ some c
    → lookup key res.1.challenges ≡ some c
Dispatched-Spares tick asked key w (ok r, w') (_, _, _, stored) other e =
    rw stored (ground (arith, lookup-insert asked key (issued tick) w.challenges, eq_iff asked key))
Dispatched-Spares tick asked key w (err f, w') same other e = rw (same.challenges) e

module _ (ports : Ports) where
  Verdict-Spares :
      (tick : Tick) (asked given key : String) (w : World) (res : Result OwnershipProof × World)
      (c : Challenge)
      → Verdict ports tick asked given w res
      → ((asked ≢ key) ⊎ (given ≢ c.code))
      → lookup key w.challenges ≡ some c
      → lookup key res.1.challenges ≡ some c
  Verdict-Spares tick asked given key w (ok p, w') c (can, _, rest) spared e =
      let other : asked ≢ key = elim spared [
        | inl n ↦ n
        | inr n ↦ λ same.
            let found = rw same at can.pending.stored in
            let alike : can.pending.challenge ≡ c = cc in
            n (cc (ap (λ d. d.code) alike, can.pending.same))
      ] in
      rw rest (ground (arith, lookup-erase asked key w.challenges, eq_iff asked key))
  Verdict-Spares tick asked given key w (err f, w') c (_, same) spared e = rw same e

  serve-Spares :
      (r : Request) (key : String) (w : World) (c : Challenge)
      → Spares ports.runtime key c.code r
      → lookup key w.challenges ≡ some c
      → lookup key (serve ports r w).challenges ≡ some c
  unfolding serve record_audit
  serve-Spares (ask_code tick email) key w c spared e =
      Dispatched-Spares tick (normalize_email ports.runtime email) key w
        (challenge ports tick email w) (challenge-Dispatched ports tick email w) spared e
  serve-Spares (give_code tick email given) key w c spared e =
      Verdict-Spares tick (normalize_email ports.runtime email) (trim_space given) key w
        (verify_challenge ports tick email given w) c
        (verify_challenge-Verdict ports tick email given w) spared e
  serve-Spares (claim_machine input name) key w c spared e =
      rw ((claim-SameOthers ports.runtime input name w).challenges) e
  serve-Spares (note_action tick entry) key w c spared e = e

  run-Spares :
      (rs : List Request) (key : String) (w : World) (past : List Event) (c : Challenge)
      → All (Spares ports.runtime key c.code) rs
      → lookup key w.challenges ≡ some c
      → lookup key (run ports rs w past).0.challenges ≡ some c
  unfolding run
  run-Spares [] key w past c spared e = e
  run-Spares (r ∷ rs) key w past c (first, spared) e =
      run-Spares rs key (serve ports r w) (observe ports r w past) c spared
        (serve-Spares r key w c first e)

-- A code that was dispatched, and is not empty, is accepted up to ten minutes later, whatever was
-- asked in between, as long as no request asked for a new code for the address or gave this code for
-- it: codes that are wrong, other addresses, claims and notes of the trail do not use it up.
pub challenge-run-verify :
    (ports : Ports) (tick tick' : Tick) (email email' code : String) (w w' : World)
    (rs : List Request) (past : List Event) {receipt : ChallengeReceipt}
    → challenge ports tick email w ≡ (ok receipt, w')
    → All (Spares ports.runtime (normalize_email ports.runtime email) tick.code) rs
    → normalize_email ports.runtime email' ≡ normalize_email ports.runtime email
    → trim_space code ≡ tick.code
    → tick.code ≢ ""
    → tick'.now ≤ tick.now + challenge_ttl
    → (verify_challenge ports tick' email' code (run ports rs w' past).0).0
      ≡ ok (proof ports tick' (normalize_email ports.runtime email) tick.code)
unfolding verify_challenge
challenge-run-verify ports tick tick' email email' code w w' rs past e spared same c filled
      in_time =
    let (holds, claims, audit, stored) = rw e at (challenge-Dispatched ports tick email w) in
    let key = normalize_email ports.runtime email in
    let after = (run ports rs w' past).0 in
    rw (same, c)
      (ap (λ r. r.0)
        (Verdict-eq_ok ports tick' key tick.code after
          (confirm_challenge ports tick' key tick.code after)
          (confirm_challenge-Verdict ports tick' key tick.code after)
          (record {
            has_email = not_empty_of_contains key b'@' holds;
            has_code = filled;
            pending = record {
              challenge = issued tick;
              stored =
                  run-Spares ports rs key w' past (issued tick) spared
                    (rw (stored, lookup-insert, eq_refl) refl);
              same = refl;
              in_time = in_time;
            };
          })))
