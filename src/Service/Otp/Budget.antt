-- ===== src/Service/Otp/Budget.antt =====
-- A one-time password is asked of orbit-auth only within the identifier's own budget.
use orbit_api_gateway.Base.{
  ◌≡◌, ◌≢◌, ◌⊎◌, inl, inr, refl, true, false, Option, none, some, ◌==◌, arith, eq_iff, Bool-cases,
}
use orbit_api_gateway.Base.Strings.{trim_space}
use orbit_api_gateway.Domain.Ratelimit.{Decision, identifier_key, otp_request_identifier_policy}
use orbit_api_gateway.Domain.Failure.{Result, err}
use orbit_api_gateway.Domain.Auth.{OtpRequest}
use orbit_api_gateway.World.{World, Ports, Limiter, Op, rate_check, pure, ◌>>=◌, note_call}
use orbit_api_gateway.Upstream.Client
use orbit_api_gateway.Service.Limits.{
  settle, allow, check_identifier_limit, limiter_unavailable, limit_exceeded,
}
use orbit_api_gateway.Service.Otp.{OtpReceipt, identifier_or, request_otp}

-- The call of orbit-auth, with the decision that the receipt reports.
abbrev pub asked_upstream : Ports → OtpRequest → Option Decision → Op OtpReceipt
asked_upstream ports i limit = do
  expires_at ← Client.request_otp ports i
  pure (record { expires_at = expires_at; identifier_limit = limit })

-- What the limiter's answer makes of a request, in the world in which the limiter was asked.
abbrev pub Budgeted :
    Ports → OtpRequest → Option Decision → World → Result OtpReceipt × World → Type 0
Budgeted ports i none asked res = res ≡ (err limiter_unavailable, asked)
Budgeted ports i (some d) asked res =
    ((d.allowed ≡ true) × (res ≡ asked_upstream ports i (some d) asked))
    ⊎ ((d.allowed ≡ false) × (res ≡ (err (limit_exceeded d), asked)))

settled-Budgeted :
    (ports : Ports) (i : OtpRequest) (o : Option Decision) (asked : World)
    → Budgeted ports i o asked (
        (do
          limit ← do decision ← λ _. settle o asked; pure (some decision)
          asked_upstream ports i limit)
          asked)
unfolding settle
settled-Budgeted ports i none asked = refl
settled-Budgeted ports i (some d) asked = elim (Bool-cases d.allowed) [
  | inl h ↦ rw h (inl (refl, refl))
  | inr h ↦ rw h (inr (refl, refl))
]

-- With a limiter, and for an identifier that is not blank, a request for a password asks the limiter first, once, for the bucket of
-- the identifier's hash. It asks orbit-auth only if the limiter allows it, and otherwise, or where
-- the limiter fails, it ends there with the error.
pub request_otp-Budgeted :
    (ports : Ports) (i : OtpRequest) (w : World) (limiter : Limiter)
    → let identifier = identifier_or i.identifier i.email in
      let key = identifier_key ports.runtime identifier in
      ports.limiter ≡ some limiter
      → trim_space identifier ≢ ""
      → Budgeted ports i
          (limiter w.calls key otp_request_identifier_policy)
          (note_call (rate_check key otp_request_identifier_policy) w)
          (request_otp ports i w)
unfolding request_otp check_identifier_limit allow
request_otp-Budgeted ports i w limiter e filled =
    let identifier = identifier_or i.identifier i.email in
    let key = identifier_key ports.runtime identifier in
    let blank : (trim_space identifier == "") ≡ false =
      ground (arith, eq_iff (trim_space identifier) "") in
    rw (e, blank)
      (settled-Budgeted ports i (limiter w.calls key otp_request_identifier_policy)
        (note_call (rate_check key otp_request_identifier_policy) w))
