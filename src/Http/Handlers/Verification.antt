-- ===== src/Http/Handlers/Verification.antt =====
-- What `verifyChallenge` of httpapi/handlers.go answers, by the body, the store and the clock.
use orbit_api_gateway.Base.{
  ℕ, ◌≡◌, ◌≢◌, ◌⊎◌, inl, inr, String, none, some, arith, eq_iff, Option-cases,
}
use orbit_api_gateway.Base.Map.{erase}
use orbit_api_gateway.Base.Strings.{trim_space}
use orbit_api_gateway.Domain.Failure.{Kind, app, Result, ok, err}
use orbit_api_gateway.Domain.Ownership.{OwnershipProof}
use orbit_api_gateway.World.{World, Tick}
use orbit_api_gateway.Service.Challenges.{normalize_email, confirm_challenge, verify_challenge}
use orbit_api_gateway.Service.Challenges.Verdict.{IsPending, CanProve, Verdict, proof}
use orbit_api_gateway.Service.Challenges.Codes.{verify_challenge-Verdict}
use orbit_api_gateway.Http.Message.{Request, Conn, answer, call, ◌>>=◌, finish}
use orbit_api_gateway.Http.Response.{
  write_json, error_body, write_app_error, decode_body, decode_json_body,
}
use orbit_api_gateway.Http.Limits.{Edge}
use orbit_api_gateway.Http.Handlers.Ownership.{
  decode_verify, proof_document, verify_challenge_route,
}

-- An error document, on the world as it was.
abbrev pub error_answer : ℕ → String → Conn → Conn
error_answer status message c = record c {
  response = write_json status (error_body message) c.response;
}

module _ (edge : Edge) (tick : Tick) (r : Request) (c : Conn) where
  abbrev key_in : String → String
  key_in email = normalize_email edge.ports.runtime email

  -- The answer to a verification, and the world after it.
  pub data VerifyOutcome : Conn → Type 0 where
    undecoded :
        decode_body decode_verify r.body ≡ none → VerifyOutcome (error_answer 400 "invalid json" c)
    blank :
        (email code : String)
        → decode_body decode_verify r.body ≡ some (email, code)
        → (key_in email ≡ "") ⊎ (trim_space code ≡ "")
        → VerifyOutcome (error_answer 400 "email and code are required" c)
    refused :
        (email code : String)
        → decode_body decode_verify r.body ≡ some (email, code)
        → key_in email ≢ ""
        → trim_space code ≢ ""
        → ¬ IsPending c.world (key_in email) (trim_space code) tick.now
        → VerifyOutcome (error_answer 401 "invalid or expired verification code" c)
    proved :
        (email code : String)
        → decode_body decode_verify r.body ≡ some (email, code)
        → CanProve c.world (key_in email) (trim_space code) tick.now
        → VerifyOutcome (record {
          world = record c.world { challenges = erase (key_in email) c.world.challenges };
          response =
              write_json 200
                (proof_document edge tick (proof edge.ports tick (key_in email) (trim_space code)))
                c.response;
        })

  -- Why `VerifyChallenge` fails.
  abbrev FailsAs : String → String → Result OwnershipProof → Type 0
  FailsAs key code (ok p) = Unit
  FailsAs key code (err f) =
      (((key ≡ "") ⊎ (code ≡ "")) × (f ≡ app Kind.invalid_argument "email and code are required"))
      ⊎ ((key ≢ "")
          × (code ≢ "")
          × (f ≡ app Kind.unauthenticated "invalid or expired verification code"))

  confirm_challenge-FailsAs :
      (key code : String) (w : World)
      → FailsAs key code (confirm_challenge edge.ports tick key code w).0
  unfolding confirm_challenge
  confirm_challenge-FailsAs key code w = ground (arith, eq_iff key "", eq_iff code "")

  shown-VerifyOutcome :
      (email code : String) (res : Result OwnershipProof × World)
      → decode_body decode_verify r.body ≡ some (email, code)
      → Verdict edge.ports tick (key_in email) (trim_space code) c.world res
      → FailsAs (key_in email) (trim_space code) res.0
      → VerifyOutcome (
          finish (
            (do
              p ← call write_app_error (λ _. res)
              answer {A = Unit {0}} (write_json 200 (proof_document edge tick p)))
              c))
  unfolding write_app_error
  shown-VerifyOutcome email code (ok p, w') d (can, same, rest) fails =
      rw (same, rest) (proved email code d can)
  shown-VerifyOutcome email code (err f, w') d (cannot, rest) (inl (empty, same)) =
      rw (same, rest) (blank email code d empty)
  shown-VerifyOutcome email code (err f, w') d (cannot, rest) (inr (key, filled, same)) =
      rw (same, rest)
        (refused email code d key filled
          (λ p. cannot (record { has_email = key; has_code = filled; pending = p })))

-- The verification route answers 400 to a body that is no such document, and to one with a blank
-- address or code; 401 where no challenge for the normalized address waits that has the trimmed
-- code and has not expired; and 200 with the proof otherwise, which takes the challenge out of its
-- store. Nothing else of the world changes, and but for the last nothing at all.
pub verify_challenge_route-VerifyOutcome :
    (edge : Edge) (tick : Tick) (r : Request) (c : Conn)
    → VerifyOutcome edge tick r c (verify_challenge_route edge tick r c)
unfolding verify_challenge_route verify_challenge
verify_challenge_route-VerifyOutcome edge tick r c =
    elim (Option-cases (decode_body decode_verify r.body)) [
      | inl e ↦ rw (e, decode_json_body) (undecoded e)
      | inr (body, e) ↦
          rw (e, decode_json_body)
            (shown-VerifyOutcome edge tick r c body.0 body.1
              (verify_challenge edge.ports tick body.0 body.1 c.world) e
              (verify_challenge-Verdict edge.ports tick body.0 body.1 c.world)
              (confirm_challenge-FailsAs edge tick r c (normalize_email edge.ports.runtime body.0)
                (trim_space body.1) c.world))
    ]
