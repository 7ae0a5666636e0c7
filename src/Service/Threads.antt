-- ===== src/Service/Threads.antt =====
-- The use cases of application/ownership.go, application/onboarding.go and `RecordAudit` as they
-- interleave: each request is a thread, and a turn of a thread takes it past its next access to
-- what threads share (a store under its mutex, the limiter, the log) or past its reading of the
-- clock and the code generator. A thread has at most three turns.
pub mod Turns
pub mod Alone
pub mod Finish
pub mod Codes
pub mod Claims
use orbit_api_gateway.Base.{
  ℕ, String, true, not, ◌&&◌, ◌||◌, Option, none, some, List, [], ◌∷◌, ◌==◌, eqb, if◌then◌else◌,
}
use orbit_api_gateway.Base.Strings.{trim_space, contains}
use orbit_api_gateway.Domain.Ratelimit.{Decision}
use orbit_api_gateway.Domain.Failure.{Kind, app, Result, ok, err}
use orbit_api_gateway.Domain.Ownership.{
  Challenge, OwnershipProof, challenge_expires_in, challenge_status_dispatched,
}
use orbit_api_gateway.Domain.Onboarding.{ClaimInput, ClaimResult, normalize_uid}
use orbit_api_gateway.Domain.Audit.{AuditEntry}
use orbit_api_gateway.Memory.Stores.{save, confirm, get, put, record_entry}
use orbit_api_gateway.World.{World, Ports, Tick, logged, empty_world, note_call}
use orbit_api_gateway.Service.Limits.{check_identifier_limit}
use orbit_api_gateway.Service.Challenges.{ChallengeReceipt, normalize_email, accepts, proof_of}
use orbit_api_gateway.Service.Challenges.Verdict.{issued}
use orbit_api_gateway.Service.Claims.{claim_key, provision}
use orbit_api_gateway.Service.Audit.{completed}
use orbit_api_gateway.Service.History.{Event, dispatched, accepted}

-- Where a request stands, with the local variables that are live there.
pub data Thread : Type 0 where
  -- before `Challenge`, before its `Save`, and after its return
  asking : String → Thread
  saving : String → Option Decision → Challenge → Thread
  asked : Result ChallengeReceipt → Thread
  -- before `VerifyChallenge`, before its `Confirm`, and after its return
  giving : String → String → Thread
  confirming : Tick → String → String → Thread
  proved : Result OwnershipProof → Thread
  -- before `Claim`, before its `Put`, before its line of the log, and after its return
  claiming : ClaimInput → String → Thread
  putting : String → String → ClaimResult → Thread
  logging : String → String → ClaimResult → Thread
  claimed : Result ClaimResult → Thread
  -- before `RecordAudit`, before its `Record`, and after its return
  noting : AuditEntry → Thread
  recording : AuditEntry → Thread
  noted : Thread

module _ (ports : Ports) (tick : Tick) where
  -- `Challenge` after the check of the limit
  abbrev pub await_save : String → Result (Option Decision) × World → Thread × World
  await_save email (err f, w) = (asked (err f), w)
  await_save email (ok limit, w) = (saving email limit (issued tick), w)

  -- `Challenge`, from the normalized address up to `Save`
  unfoldable pub begin_challenge : String → World → Thread × World
  begin_challenge email w =
      if email == "" || not (contains email b'@')
      then (asked (err (app Kind.invalid_argument "valid email is required")), w)
      else await_save email (check_identifier_limit ports.runtime ports.limiter email w)

  abbrev pub receipt : Option Decision → ChallengeReceipt
  receipt limit = record {
    grant = record { status = challenge_status_dispatched; expires_in = challenge_expires_in };
    identifier_limit = limit;
  }

  -- `VerifyChallenge`, from the normalized address and code up to `Confirm`
  unfoldable pub begin_verify : String → String → World → Thread × World
  begin_verify email code w =
      if email == "" || code == ""
      then (proved (err (app Kind.invalid_argument "email and code are required")), w)
      else (confirming tick email code, w)

  -- `Claim`, from the trimmed token and the normalized UID up to what follows `Get`
  unfoldable pub begin_claim : String → String → ClaimInput → String → World → Thread × World
  begin_claim token uid input idempotency_key w =
      if token == "" || uid == ""
      then (
        claimed (err (app Kind.invalid_argument "invite_token and desired_uid are required")),
        w,
      )
      else let key = claim_key token uid idempotency_key in
        elim (get key w.claims) [
          | some cached ↦
              (logging "onboard_claim_replayed" uid (record cached { idempotent_replay = true }), w)
          | none ↦ (putting key uid (provision ports.runtime token uid input), w)
        ]

  -- One turn of a thread, in which the clock and the generator answer with the tick.
  unfoldable pub turn : Thread → World → Thread × World
  unfolding begin_challenge begin_verify begin_claim
  turn (asking email) w = begin_challenge (normalize_email ports.runtime email) w
  turn (saving email limit challenge) w =
      (asked (ok (receipt limit)), record w { challenges = save email challenge w.challenges })
  turn (giving email code) w =
      begin_verify (normalize_email ports.runtime email) (trim_space code) w
  turn (confirming start email code) w =
      let (found, rest) = confirm email (accepts code start.now) w.challenges in
      (proved (proof_of ports start email code found), record w { challenges = rest })
  turn (claiming input idempotency_key) w =
      begin_claim (trim_space input.invite_token) (normalize_uid ports.runtime input.desired_uid)
        input idempotency_key w
  turn (putting key uid result) w = (
    logging "onboard_claim_provisioned" uid result,
    record w { claims = put key result w.claims },
  )
  turn (logging line uid result) w = (claimed (ok result), note_call (logged line uid) w)
  turn (noting entry) w = (recording (completed tick entry), w)
  turn (recording entry) w = (noted, record w { audit = record_entry entry w.audit })
  turn (asked r) w = (asked r, w)
  turn (proved r) w = (proved r, w)
  turn (claimed r) w = (claimed r, w)
  turn noted w = (noted, w)

-- The event of a turn: a `Save`, or a `Confirm` that finds what it accepts.
unfoldable pub witnessed : Thread → World → List Event → List Event
witnessed (saving email limit challenge) w past = dispatched email challenge ∷ past
witnessed (confirming start email code) w past =
    elim ((confirm email (accepts code start.now) w.challenges).0) [
      | none ↦ past
      | some _ ↦ accepted email ∷ past
    ]
witnessed other w past = past

-- The threads by their number, what they share, and the events so far, the latest first.
pub record System : Type 0 where
  pub threads : ℕ → Thread
  pub world : World
  pub events : List Event

abbrev pub update : ℕ → Thread → (ℕ → Thread) → ℕ → Thread
update i t threads j = if eqb i j then t else threads j

-- A process that has just started, with these requests to come.
abbrev pub start : (ℕ → Thread) → System
start threads = record { threads = threads; world = empty_world; events = [] }

-- Which threads have a turn, in this order, and what the clock and the generator answer in it.
abbrev pub Schedule : Type 0
Schedule = List (ℕ × Tick)

module _ (ports : Ports) where
  -- A turn of one thread of the system.
  unfoldable pub move : ℕ → Tick → System → System
  unfolding turn witnessed
  move i tick s =
      let (t, w) = turn ports tick (s.threads i) s.world in
      record {
        threads = update i t s.threads;
        world = w;
        events = witnessed (s.threads i) s.world s.events;
      }

  -- The system after a schedule.
  unfoldable pub run : Schedule → System → System
  run [] s = s
  run ((i, tick) ∷ rest) s = run rest (move i tick s)
