-- ===== src/Http/Handlers/Dispatch.antt =====
-- What `challenge` of httpapi/handlers.go answers, by the body, the address and the limiter.
use mathlib.Core.Path.{subst}
use orbit_api_gateway.Base.{
  ◌≡◌, ◌≢◌, ◌⊎◌, inl, inr, refl, sym, String, true, false, ◌||◌, not, Option, none, some, ◌==◌,
  arith, eq_iff, Bool-cases, Option-cases,
}
use orbit_api_gateway.Base.Strings.{contains, trim_space}
use orbit_api_gateway.Domain.Failure.{Result}
use orbit_api_gateway.Domain.Ratelimit.{Decision, identifier_key, otp_request_identifier_policy}
use orbit_api_gateway.World.{World, Tick, Limiter, rate_check, note_call}
use orbit_api_gateway.Service.Challenges.{ChallengeReceipt, normalize_email, challenge}
use orbit_api_gateway.Service.Challenges.Budget.{
  dispatched_grant, issued_world, allowed_to, challenge-invalid, challenge-unlimited,
  challenge-blank, challenge-checked,
}
use orbit_api_gateway.Http.Message.{
  Request, Conn, HandlerFunc, answer, respond, call, ◌>>=◌, ◌>>◌, finish,
}
use orbit_api_gateway.Http.Response.{write_json, write_limit_error, decode_body, decode_json_body}
use orbit_api_gateway.Http.Limits.{Edge}
use orbit_api_gateway.Http.Limits.Denial.{Guarded}
use orbit_api_gateway.Http.Handlers.Auth.{budget_headers}
use orbit_api_gateway.Http.Handlers.Ownership.{
  decode_challenge, challenge_document, challenge_route,
}
use orbit_api_gateway.Http.Handlers.Verification.{error_answer}

module _ (edge : Edge) (tick : Tick) where
  -- The handler that stores the code and answers 200.
  abbrev issue : String → HandlerFunc
  issue key r c = record {
    world = issued_world tick key c.world;
    response = write_json 200 (challenge_document dispatched_grant) c.response;
  }

  -- What the handler makes of a result of `Challenge`.
  abbrev shown : Conn → Result ChallengeReceipt × World → Conn
  shown c res = finish (
      (do
        receipt ← call write_limit_error (λ _. res)
        respond (budget_headers receipt.identifier_limit)
        answer {A = Unit {0}} (write_json 200 (challenge_document receipt.grant)))
        c)

  module _ (r : Request) (c : Conn) where
    abbrev key_in : String → String
    key_in email = normalize_email edge.ports.runtime email

    -- The bucket of the address.
    abbrev bucket_in : String → String
    bucket_in email = identifier_key edge.ports.runtime (key_in email)

    -- The world after the question to the limiter.
    abbrev asked_world : String → World
    asked_world email =
        note_call (rate_check (bucket_in email) otp_request_identifier_policy) c.world

    -- The answer to a request for a code, and the world after it.
    pub data DispatchOutcome : Conn → Type 0 where
      undecoded :
          decode_body decode_challenge r.body ≡ none
          → DispatchOutcome (error_answer 400 "invalid json" c)
      invalid :
          (email : String)
          → decode_body decode_challenge r.body ≡ some email
          → (key_in email ≡ "") ⊎ (contains (key_in email) b'@' ≡ false)
          → DispatchOutcome (error_answer 400 "valid email is required" c)
      unlimited :
          (email : String)
          → decode_body decode_challenge r.body ≡ some email
          → contains (key_in email) b'@' ≡ true
          → (edge.ports.limiter ≡ none) ⊎ (trim_space (key_in email) ≡ "")
          → DispatchOutcome (issue (key_in email) r c)
      checked :
          (email : String) (limiter : Limiter) {c' : Conn}
          → decode_body decode_challenge r.body ≡ some email
          → contains (key_in email) b'@' ≡ true
          → edge.ports.limiter ≡ some limiter
          → trim_space (key_in email) ≢ ""
          → Guarded
              (limiter c.world.calls (bucket_in email) otp_request_identifier_policy)
              (asked_world email)
              (issue (key_in email))
              r
              c
              c'
          → DispatchOutcome c'

    asked-Guarded :
        (email : String) (o : Option Decision)
        → Guarded o
            (asked_world email)
            (issue (key_in email))
            r
            c
            (shown c (allowed_to tick (key_in email) o (asked_world email)))
    unfolding write_limit_error
    asked-Guarded email none = refl
    asked-Guarded email (some d) = elim (Bool-cases d.allowed) [
      | inl h ↦ rw h (inl (refl, refl))
      | inr h ↦ rw h (inr (refl, refl))
    ]

    called-DispatchOutcome :
        (email : String)
        → decode_body decode_challenge r.body ≡ some email
        → DispatchOutcome (shown c (challenge edge.ports tick email c.world))
    unfolding write_limit_error
    called-DispatchOutcome email d =
        let key = key_in email in
        elim (Bool-cases (key == "" || not (contains key b'@'))) [
          | inl e ↦
              subst (λ res. DispatchOutcome (shown c res))
                (sym (challenge-invalid edge.ports tick email c.world e))
                (invalid email d (ground (arith, eq_iff key "")))
          | inr e ↦
              let valid : contains key b'@' ≡ true = ground (arith, eq_iff key "") in
              elim (Option-cases edge.ports.limiter) [
                | inl absent ↦
                    subst (λ res. DispatchOutcome (shown c res))
                      (sym (challenge-unlimited edge.ports tick email c.world e absent))
                      (unlimited email d valid (inl absent))
                | inr (limiter, set) ↦ elim (Bool-cases (trim_space key == "")) [
                  | inl b ↦
                      subst (λ res. DispatchOutcome (shown c res))
                        (sym (challenge-blank edge.ports tick email c.world e limiter set b))
                        (unlimited email d valid (inr (ground (arith, eq_iff (trim_space key) ""))))
                  | inr b ↦
                      subst (λ res. DispatchOutcome (shown c res))
                        (sym (challenge-checked edge.ports tick email c.world e limiter set b))
                        (checked email limiter d valid set
                          (ground (arith, eq_iff (trim_space key) ""))
                          (asked-Guarded email (
                            limiter c.world.calls (bucket_in email) otp_request_identifier_policy)))
                ]
              ]
        ]

-- The route for codes answers 400 to a body that is no such document, and to an address whose
-- normal form is empty or holds no "@". Otherwise, with a limiter and an address that is not all
-- spaces, it asks the limiter once for the bucket of the address: a denial answers 429 with the
-- budget and a delay, a limiter that fails 503, and no code is stored. Where it is allowed, or not
-- asked, the code replaces the one of the address for ten minutes, and the answer is 200. Nothing
-- else of the world changes.
pub challenge_route-DispatchOutcome :
    (edge : Edge) (tick : Tick) (r : Request) (c : Conn)
    → DispatchOutcome edge tick r c (challenge_route edge tick r c)
unfolding challenge_route
challenge_route-DispatchOutcome edge tick r c =
    elim (Option-cases (decode_body decode_challenge r.body)) [
      | inl e ↦ rw (e, decode_json_body) (undecoded e)
      | inr (email, e) ↦ rw (e, decode_json_body) (called-DispatchOutcome edge tick r c email e)
    ]
