-- ===== src/Service/History.antt =====
-- The requests that reach the in-memory stores, one after the other, and what a client sees of
-- the ownership codes. Service.Threads lets them interleave.
pub mod Codes
pub mod Claims
pub mod WellFormed
pub mod Spares
use orbit_api_gateway.Base.{String, Option, none, some, List, [], ◌∷◌, ◌++◌, ◌==◌, if◌then◌else◌}
use orbit_api_gateway.Base.Strings.{trim_space}
use orbit_api_gateway.Domain.Runtime.{Runtime, Time}
use orbit_api_gateway.Domain.Failure.{Result, ok, err}
use orbit_api_gateway.Domain.Ownership.{Challenge}
use orbit_api_gateway.Domain.Onboarding.{ClaimInput}
use orbit_api_gateway.Domain.Audit.{AuditEntry}
use orbit_api_gateway.World.{World, Ports, Tick}
use orbit_api_gateway.Service.Challenges.{normalize_email, challenge, verify_challenge}
use orbit_api_gateway.Service.Challenges.Verdict.{issued}
use orbit_api_gateway.Service.Claims.{claim}
use orbit_api_gateway.Service.Audit.{record_audit}

pub data Request : Type 0 where
  ask_code : Tick → String → Request
  give_code : Tick → String → String → Request
  claim_machine : ClaimInput → String → Request
  note_action : Tick → AuditEntry → Request

-- What a client learns of the codes: one was dispatched to an address, or one was accepted.
pub data Event : Type 0 where
  dispatched : String → Challenge → Event
  accepted : String → Event

-- The challenge that is open for an address after the events, the latest first: the last one
-- dispatched to it, unless a code was accepted since.
unfoldable pub outstanding : String → List Event → Option Challenge
outstanding email [] = none
outstanding email (dispatched e c ∷ past) = if e == email then some c else outstanding email past
outstanding email (accepted e ∷ past) = if e == email then none else outstanding email past

module _ (ports : Ports) where
  unfoldable pub serve : Request → World → World
  serve (ask_code tick email) w = (challenge ports tick email w).1
  serve (give_code tick email code) w = (verify_challenge ports tick email code w).1
  serve (claim_machine input key) w = (claim ports.runtime input key w).1
  serve (note_action tick entry) w = record_audit tick entry w

  -- The event of a request is read from its answer.
  abbrev pub when_ok : {A : Type 0} → Result A → Event → List Event → List Event
  when_ok (ok a) event past = event ∷ past
  when_ok (err f) event past = past

  unfoldable pub observe : Request → World → List Event → List Event
  observe (ask_code tick email) w past =
      when_ok (challenge ports tick email w).0
        (dispatched (normalize_email ports.runtime email) (issued tick)) past
  observe (give_code tick email code) w past =
      when_ok (verify_challenge ports tick email code w).0
        (accepted (normalize_email ports.runtime email)) past
  observe (claim_machine input key) w past = past
  observe (note_action tick entry) w past = past

  -- The world and the events after a list of requests.
  unfoldable pub run : List Request → World → List Event → World × List Event
  unfolding serve observe
  run [] w past = (w, past)
  run (r ∷ rs) w past = run rs (serve r w) (observe r w past)
