-- ===== src/Http/Effects/Senders.antt =====
-- Whose tokens leave the process.
use orbit_api_gateway.Base.{
  ◌≡◌, refl, inl, inr, ℕ, String, Option, some, List, ◌||◌, ◌==◌, not, Bool-cases, Option-cases,
}
use orbit_api_gateway.Base.Strings.{trim_space, contains}
use orbit_api_gateway.Base.Map.{lookup}
use orbit_api_gateway.Domain.Failure.{Result, ok, err}
use orbit_api_gateway.Domain.Onboarding.{ClaimInput, normalize_uid}
use orbit_api_gateway.Domain.Runtime.{Runtime}
use orbit_api_gateway.Domain.Ratelimit.{Decision}
use orbit_api_gateway.Domain.Ownership.{challenge_status_dispatched, challenge_expires_in}
use orbit_api_gateway.Memory.Stores.{get, save}
use orbit_api_gateway.World.{World, Ports, Tick, Call, Op, ◌>>=◌, ◌>>◌, modify, pure}
use orbit_api_gateway.Service.Limits.{check_identifier_limit}
use orbit_api_gateway.Service.Challenges.{
  ChallengeReceipt, normalize_email, challenge, dispatch_challenge, verify_challenge,
  confirm_challenge,
}
use orbit_api_gateway.Service.Challenges.Verdict.{issued}
use orbit_api_gateway.Service.Claims.{claim_key, claim_as, claim}
use orbit_api_gateway.Service.Audit.{record_audit}
use orbit_api_gateway.Service.History
use orbit_api_gateway.Http.Message.{Request, fresh_response, get_header}
use orbit_api_gateway.Http.Limits.{Edge, bearer_token}
use orbit_api_gateway.Http.Routes.{Wired, Assets, Route, routes}
use orbit_api_gateway.Http.Routes.Walk.{route_at, served_at, routes-AllServe}
use orbit_api_gateway.Http.Beside.{
  Sent, no_call, plain_call, Sent-trans, check_identifier_limit-Beside,
}
use orbit_api_gateway.Http.Effects.{IsKept}
use orbit_api_gateway.Http.Effects.Table.{Keeps-IsServed}

-- `Challenge` behind the check of its budget.
abbrev stored_and_granted : Tick → String → Option Decision → Op ChallengeReceipt
stored_and_granted tick email limit = do
  modify λ w. record w { challenges = save email (issued tick) w.challenges }
  pure (record {
    grant = record { status = challenge_status_dispatched; expires_in = challenge_expires_in };
    identifier_limit = limit;
  })

module _ (caller : Option String) where
  -- An operation goes on with another, which may use the stores.
  bound-Sent :
      {A B : Type 0} (k : A → Op B) (before : List Call) (x : Result A × World)
      → Sent caller before x.1.calls
      → ((a : A) (w : World) → Sent caller w.calls (k a w).1.calls)
      → Sent caller before (((λ _. x) >>= k) x.1).1.calls
  bound-Sent k before (ok a, w') here rest =
      Sent-trans before w'.calls (k a w').1.calls here (rest a w')
  bound-Sent k before (err f, w') here rest = here

  dispatch_challenge-Sent :
      (ports : Ports) (tick : Tick) (email : String) (w : World)
      → Sent caller w.calls (dispatch_challenge ports tick email w).1.calls
  unfolding dispatch_challenge
  dispatch_challenge-Sent ports tick email w =
      elim (Bool-cases (email == "" || not (contains email b'@'))) [
        | inl e ↦ rw e no_call
        | inr e ↦ rw e (
            bound-Sent (λ limit. stored_and_granted tick email limit) w.calls
              (check_identifier_limit ports.runtime ports.limiter email w)
              (check_identifier_limit-Beside caller ports.runtime ports.limiter email w).calls
              (λ limit w'. no_call))
      ]

  confirm_challenge-Sent :
      (ports : Ports) (tick : Tick) (email code : String) (w : World)
      → Sent caller w.calls (confirm_challenge ports tick email code w).1.calls
  unfolding confirm_challenge
  confirm_challenge-Sent ports tick email code w = elim (Bool-cases (email == "" || code == "")) [
    | inl e ↦ rw e no_call
    | inr e ↦ rw e no_call
  ]

  claim_as-Sent :
      (rt : Runtime) (token uid : String) (input : ClaimInput) (key : String) (w : World)
      → Sent caller w.calls (claim_as rt token uid input key w).1.calls
  unfolding claim_as get
  claim_as-Sent rt token uid input key w = elim (Bool-cases (token == "" || uid == "")) [
    | inl e ↦ rw e no_call
    | inr e ↦ elim (Option-cases (lookup (claim_key token uid key) w.claims)) [
      | inl f ↦ rw (e, f) (plain_call _ no_call tt)
      | inr (cached, f) ↦ rw (e, f) (plain_call _ no_call tt)
    ]
  ]

  -- The use cases over the stores send no token.
  serve-Sent :
      (ports : Ports) (r : History.Request) (w : World)
      → Sent caller w.calls (History.serve ports r w).calls
  unfolding History.serve challenge verify_challenge claim record_audit
  serve-Sent ports (History.ask_code tick email) w =
      dispatch_challenge-Sent ports tick (normalize_email ports.runtime email) w
  serve-Sent ports (History.give_code tick email code) w =
      confirm_challenge-Sent ports tick (normalize_email ports.runtime email) (trim_space code) w
  serve-Sent ports (History.claim_machine input key) w =
      claim_as-Sent ports.runtime (trim_space input.invite_token)
        (normalize_uid ports.runtime input.desired_uid) input key w
  serve-Sent ports (History.note_action tick entry) w = no_call

  Sent-IsKept :
      (ports : Ports) (before : List Call) → IsKept ports caller (λ w. Sent caller before w.calls)
  Sent-IsKept ports before = record {
    aside = λ w w' beside here. Sent-trans before w.calls w'.calls here beside.calls;
    used = λ r w here.
        Sent-trans before w.calls (History.serve ports r w).calls here (serve-Sent ports r w);
  }

-- Whatever route of the table serves a request, whatever ports are wired and whatever they answer,
-- each call that the request adds to the log is a check of a budget, an HTTP read, a line of the
-- log, a gRPC call without a token, or a gRPC call that carries the bearer token of this request.
pub routes-Sent :
    (edge : Edge) (tick : Tick) (wired : Wired) (assets : Assets) (n : ℕ) (route : Route)
    (r : Request) (w : World)
    → route_at n (routes edge tick wired assets) ≡ some route
    → Sent
        (bearer_token (get_header "Authorization" r))
        w.calls
        (route.handler r (record { world = w; response = fresh_response })).world.calls
routes-Sent edge tick wired assets n route r w e =
    let caller = bearer_token (get_header "Authorization" r) in
    served_at _ n (routes edge tick wired assets) route
      (routes-AllServe edge tick
        (Keeps-IsServed edge tick caller (Sent-IsKept caller edge.ports w.calls)) wired assets)
      e r _ refl no_call
