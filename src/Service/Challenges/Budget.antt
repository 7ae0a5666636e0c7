-- ===== src/Service/Challenges/Budget.antt =====
-- A code is sent only within the budget of its address: the results of `Challenge`.
use orbit_api_gateway.Base.{
  ◌+◌, ◌≡◌, inl, inr, refl, String, true, false, ◌||◌, not, Option, none, some, ◌==◌, Bool-cases,
  if◌then◌else◌,
}
use orbit_api_gateway.Base.Map.{insert}
use orbit_api_gateway.Base.Strings.{contains, trim_space}
use orbit_api_gateway.Domain.Failure.{Kind, app, Result, ok, err}
use orbit_api_gateway.Domain.Ownership.{
  ChallengeGrant, challenge_ttl, challenge_status_dispatched, challenge_expires_in,
}
use orbit_api_gateway.Domain.Ratelimit.{Decision, identifier_key, otp_request_identifier_policy}
use orbit_api_gateway.Memory.Stores.{save}
use orbit_api_gateway.World.{
  World, Ports, Op, Tick, Limiter, rate_check, note_call, modify, pure, ◌>>=◌, ◌>>◌,
}
use orbit_api_gateway.Service.Limits.{
  settle, allow, check_identifier_limit, limiter_unavailable, limit_exceeded,
}
use orbit_api_gateway.Service.Challenges.{
  ChallengeReceipt, normalize_email, dispatch_challenge, challenge,
}

abbrev pub dispatched_grant : ChallengeGrant
dispatched_grant = record {
  status = challenge_status_dispatched;
  expires_in = challenge_expires_in;
}

abbrev pub receipt_with : Option Decision → ChallengeReceipt
receipt_with limit = record { grant = dispatched_grant; identifier_limit = limit }

-- The new code of the address in its store, for ten minutes.
abbrev pub issued_world : Tick → String → World → World
issued_world tick key w = record w {
  challenges =
      insert key (record { code = tick.code; expires_at = tick.now + challenge_ttl }) w.challenges;
}

-- What the limiter's answer makes of a request, in the world in which the limiter was asked.
abbrev pub allowed_to : Tick → String → Option Decision → World → Result ChallengeReceipt × World
allowed_to tick key none asked = (err limiter_unavailable, asked)
allowed_to tick key (some d) asked =
    if d.allowed
    then (ok (receipt_with (some d)), issued_world tick key asked)
    else (err (limit_exceeded d), asked)

abbrev issue_code : Tick → String → Option Decision → Op ChallengeReceipt
issue_code tick key limit = do modify (issued_world tick key); pure (receipt_with limit)

settled-allowed_to :
    (tick : Tick) (key : String) (o : Option Decision) (asked : World)
    → (do
      limit ← do decision ← λ _. settle o asked; pure (some decision)
      issue_code tick key limit)
        asked
      ≡ allowed_to tick key o asked
unfolding settle
settled-allowed_to tick key none asked = refl
settled-allowed_to tick key (some d) asked = elim (Bool-cases d.allowed) [
  | inl h ↦ rw h refl
  | inr h ↦ rw h refl
]

module _ (ports : Ports) (tick : Tick) (email : String) (w : World) where
  abbrev key : String
  key = normalize_email ports.runtime email

  pub challenge-invalid :
      (key == "" || not (contains key b'@')) ≡ true
      → challenge ports tick email w
        ≡ (err (app Kind.invalid_argument "valid email is required"), w)
  unfolding challenge dispatch_challenge
  challenge-invalid e = rw e refl

  module _ (valid : (key == "" || not (contains key b'@')) ≡ false) where
    pub challenge-unlimited :
        ports.limiter ≡ none
        → challenge ports tick email w ≡ (ok (receipt_with none), issued_world tick key w)
    unfolding challenge dispatch_challenge check_identifier_limit save
    challenge-unlimited e = rw (valid, e, check_identifier_limit) refl

    module _ (limiter : Limiter) (e : ports.limiter ≡ some limiter) where
      pub challenge-blank :
          (trim_space key == "") ≡ true
          → challenge ports tick email w ≡ (ok (receipt_with none), issued_world tick key w)
      unfolding challenge dispatch_challenge check_identifier_limit save
      challenge-blank b = rw (valid, e, check_identifier_limit, b) refl

      pub challenge-checked :
          (trim_space key == "") ≡ false
          → let bucket = identifier_key ports.runtime key in
            challenge ports tick email w
            ≡ allowed_to tick key
                (limiter w.calls bucket otp_request_identifier_policy)
                (note_call (rate_check bucket otp_request_identifier_policy) w)
      unfolding challenge dispatch_challenge check_identifier_limit allow save
      challenge-checked b =
          let bucket = identifier_key ports.runtime key in
          rw (valid, e, b)
            (settled-allowed_to tick key (limiter w.calls bucket otp_request_identifier_policy)
              (note_call (rate_check bucket otp_request_identifier_policy) w))
