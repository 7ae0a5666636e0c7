-- ===== src/Service/History/Codes.antt =====
-- The store of challenges implements the history of the codes.
use orbit_api_gateway.Base.{◌≡◌, ◌≢◌, ◌↔◌, refl, sym, ◌∙◌, String, some, List, [], ◌∷◌, ◌≤◌}
use orbit_api_gateway.Base.Strings.{trim_space}
use orbit_api_gateway.Base.Map.{lookup, lookup-insert, lookup-erase}
use orbit_api_gateway.Domain.Runtime.{Time}
use orbit_api_gateway.Domain.Failure.{Result, ok, err}
use orbit_api_gateway.Domain.Ownership.{Challenge, OwnershipProof}
use orbit_api_gateway.World.{World, Ports, Tick, empty_world}
use orbit_api_gateway.Service.Challenges.{
  ChallengeReceipt, normalize_email, challenge, verify_challenge,
}
use orbit_api_gateway.Service.Challenges.Verdict.{CanProve, Verdict, Dispatched, issued}
use orbit_api_gateway.Service.Challenges.Codes.{verify_challenge-Verdict, challenge-Dispatched}
use orbit_api_gateway.Service.Claims.Replay.{claim-SameOthers}
use orbit_api_gateway.Service.Audit.{record_audit}
use orbit_api_gateway.Service.History.{
  Request, ask_code, give_code, claim_machine, note_action, Event, dispatched, accepted,
  outstanding, serve, when_ok, observe, run,
}

-- Each address has in the store the challenge that the events leave open for it.
abbrev pub Agrees : World → List Event → Type 0
Agrees w past = (email : String) → lookup email w.challenges ≡ outstanding email past

-- The challenge that the events leave open for the address has this code and is in time.
pub record IsOpen (events : List Event) (email code : String) (now : Time) : Type 0 where
  pub challenge : Challenge
  pub last : outstanding email events ≡ some challenge
  pub same : challenge.code ≡ code
  pub in_time : now ≤ challenge.expires_at

pub empty-Agrees : Agrees empty_world []
unfolding lookup outstanding
empty-Agrees email = refl

module _ (ports : Ports) where
  Dispatched-Agrees :
      (tick : Tick) (key : String) (w : World) (past : List Event)
      (res : Result ChallengeReceipt × World)
      → Dispatched tick key w res
      → Agrees w past
      → Agrees res.1 (when_ok ports res.0 (dispatched key (issued tick)) past)
  unfolding outstanding
  Dispatched-Agrees tick key w past (ok r, w') (_, _, _, stored) agrees email =
      rw (stored, lookup-insert, agrees email)
  Dispatched-Agrees tick key w past (err f, w') same agrees email =
      rw (same.challenges) (agrees email)

  Verdict-Agrees :
      (tick : Tick) (key code : String) (w : World) (past : List Event)
      (res : Result OwnershipProof × World)
      → Verdict ports tick key code w res
      → Agrees w past
      → Agrees res.1 (when_ok ports res.0 (accepted key) past)
  unfolding outstanding
  Verdict-Agrees tick key code w past (ok p, w') (_, _, same) agrees email =
      rw (same, lookup-erase, agrees email)
  Verdict-Agrees tick key code w past (err f, w') (_, same) agrees email = rw same (agrees email)

  pub serve-Agrees :
      (r : Request) (w : World) (past : List Event)
      → Agrees w past
      → Agrees (serve ports r w) (observe ports r w past)
  unfolding serve observe record_audit
  serve-Agrees (ask_code tick email) w past agrees =
      Dispatched-Agrees tick (normalize_email ports.runtime email) w past
        (challenge ports tick email w) (challenge-Dispatched ports tick email w) agrees
  serve-Agrees (give_code tick email code) w past agrees =
      Verdict-Agrees tick (normalize_email ports.runtime email) (trim_space code) w past
        (verify_challenge ports tick email code w)
        (verify_challenge-Verdict ports tick email code w) agrees
  serve-Agrees (claim_machine input key) w past agrees =
      rw ((claim-SameOthers ports.runtime input key w).challenges) agrees
  serve-Agrees (note_action tick entry) w past agrees = agrees

  -- The store of challenges implements the history of events: from a world in which each address has
  -- stored exactly the challenge that the events leave open for it, any list of requests leads to a
  -- world and to events of which the same holds.
  pub run-Agrees :
      (rs : List Request) (w : World) (past : List Event)
      → Agrees w past
      → let (w', events) = run ports rs w past in Agrees w' events
  unfolding run
  run-Agrees [] w past agrees = agrees
  run-Agrees (r ∷ rs) w past agrees =
      run-Agrees rs (serve ports r w) (observe ports r w past) (serve-Agrees r w past agrees)

  Verdict-iff :
      (tick : Tick) (email code : String) (w : World) (res : Result OwnershipProof × World)
      → Verdict ports tick email code w res
      → ((p : OwnershipProof) × (res.0 ≡ ok p)) ↔ CanProve w email code tick.now
  Verdict-iff tick email code w (ok p, w') (can, _, _) = (λ _. can, λ _. (p, refl))
  Verdict-iff tick email code w (err f, w') (cannot, _) =
      (λ (p, e). cc e, λ can. absurd (cannot can))

-- Whatever requests came before, from startup on: verifying an address with a code succeeds exactly
-- when both are not blank and the last thing that happened to the address is that this code was
-- dispatched to it, no more than ten minutes ago. Any later challenge or accepted code for the
-- address closes it.
pub verify-run_iff :
    (ports : Ports) (rs : List Request) (tick : Tick) (email code : String)
    → let (w, events) = run ports rs empty_world [] in
      let key = normalize_email ports.runtime email in
      ((p : OwnershipProof) × ((verify_challenge ports tick email code w).0 ≡ ok p))
      ↔ ((key ≢ "") × (trim_space code ≢ "") × IsOpen events key (trim_space code) tick.now)
verify-run_iff ports rs tick email code =
    let (w, events) = run ports rs empty_world [] in
    let key = normalize_email ports.runtime email in
    let agrees = run-Agrees ports rs empty_world [] (λ e. empty-Agrees e) in
    let (to, from) =
      Verdict-iff ports tick key (trim_space code) w (verify_challenge ports tick email code w)
        (verify_challenge-Verdict ports tick email code w) in
    (
      λ h.
          let can = to h in
          (
            can.has_email,
            can.has_code,
            record {
              challenge = can.pending.challenge;
              last = sym (agrees key) ∙ can.pending.stored;
              same = can.pending.same;
              in_time = can.pending.in_time;
            },
          ),
      λ (e, c, open_). from (record {
        has_email = e;
        has_code = c;
        pending = record {
          challenge = open_.challenge;
          stored = agrees key ∙ open_.last;
          same = open_.same;
          in_time = open_.in_time;
        };
      }),
    )
