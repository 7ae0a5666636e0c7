-- ===== src/Service/Threads/Codes.antt =====
-- The ownership codes while requests interleave: `Confirm` compares and removes under one lock, so
-- the store of challenges still implements the history of events.
pub mod Proofs
use orbit_api_gateway.Base.{
  ℕ, ◌≤◌, ◌≡◌, ◌↔◌, refl, sym, ◌∙◌, ap, inl, inr, String, true, false, not, ◌||◌, Option, none,
  some, List, [], ◌∷◌, ◌==◌, eqb, arith, eq_iff, Bool-cases, Option-cases, if◌then◌else◌,
}
use orbit_api_gateway.Base.Strings.{contains}
use orbit_api_gateway.Base.Map.{lookup, lookup-insert, lookup-erase}
use orbit_api_gateway.Domain.Failure.{Result, ok, err}
use orbit_api_gateway.Domain.Ratelimit.{Decision}
use orbit_api_gateway.Domain.Ownership.{Challenge, OwnershipProof}
use orbit_api_gateway.Memory.Laws.{confirm_missing, confirm_accepted, confirm_refused}
use orbit_api_gateway.Memory.Stores.{save, confirm}
use orbit_api_gateway.World.{World, Ports, Tick}
use orbit_api_gateway.Service.Challenges.{accepts, normalize_email}
use orbit_api_gateway.Service.Challenges.Verdict.{accepts_iff}
use orbit_api_gateway.Service.Limits.{check_identifier_limit}
use orbit_api_gateway.Service.Limits.Effects.{check_identifier_limit-SameStores}
use orbit_api_gateway.Service.History.{Event, outstanding}
use orbit_api_gateway.Service.History.Codes.{Agrees, IsOpen, empty-Agrees}
use orbit_api_gateway.Service.Threads.Turns.{threads-move, begin_challenge-SameStores}
use orbit_api_gateway.Service.Threads.{
  Thread, asking, saving, asked, giving, confirming, proved, claiming, putting, logging, claimed,
  noting, recording, noted, begin_challenge, begin_claim, begin_verify, turn, witnessed, System,
  Schedule, start, move, run,
}

module _ (ports : Ports) where
  -- What `Confirm` leaves in the store, and the event that it makes.
  confirm-Agrees :
      (start : Tick) (email code : String) (w : World) (past : List Event)
      → Agrees w past
      → Agrees
          (record w { challenges = (confirm email (accepts code start.now) w.challenges).1 })
          (witnessed (confirming start email code) w past)
  unfolding witnessed confirm outstanding
  confirm-Agrees start email code w past agrees wanted =
      ground (arith, agrees wanted, lookup-erase email wanted w.challenges)

  pub turn-Agrees :
      (tick : Tick) (t : Thread) (w : World) (past : List Event)
      → Agrees w past
      → Agrees (turn ports tick t w).1 (witnessed t w past)
  unfolding turn witnessed save outstanding
  turn-Agrees tick (asking email) w past agrees wanted =
      rw (begin_challenge-SameStores ports tick (normalize_email ports.runtime email) w).challenges
        (agrees wanted)
  turn-Agrees tick (saving email limit c) w past agrees wanted = rw (lookup-insert, agrees wanted)
  turn-Agrees tick (confirming first email code) w past agrees wanted =
      confirm-Agrees first email code w past agrees wanted
  turn-Agrees tick (giving email code) w past agrees wanted = ground (arith, agrees wanted)
  turn-Agrees tick (claiming input key) w past agrees wanted = ground (arith, agrees wanted)
  turn-Agrees tick other w past agrees wanted = agrees wanted

  run-Agrees :
      (sch : Schedule) (s : System)
      → Agrees s.world s.events
      → let s' = run ports sch s in Agrees s'.world s'.events
  unfolding run move turn witnessed
  run-Agrees [] s agrees = agrees
  run-Agrees ((i, tick) ∷ rest) s agrees =
      run-Agrees rest (move ports i tick s) (turn-Agrees tick (s.threads i) s.world s.events agrees)

  pub start-Agrees :
      (sch : Schedule) (threads : ℕ → Thread)
      → let s = run ports sch (start threads) in Agrees s.world s.events
  start-Agrees sch threads = run-Agrees sch (start threads) (λ email. empty-Agrees email)

  confirm_iff :
      (start : Tick) (email code : String) (w : World) (past : List Event)
      → Agrees w past
      → ((c : Challenge) × ((confirm email (accepts code start.now) w.challenges).0 ≡ some c))
        ↔ IsOpen past email code start.now
  unfolding confirm
  confirm_iff start email code w past agrees = elim (Option-cases (lookup email w.challenges)) [
    | inl e ↦
        rw (confirm_missing email (accepts code start.now) w.challenges e)
          (λ (c, h). cc h, λ h. absurd (cc (agrees email, h.last, e)))
    | inr (c, e) ↦ elim (Bool-cases (accepts code start.now c)) [
      | inl h ↦
          let (same, in_time) = (accepts_iff code start.now c).0 h in
          rw (confirm_accepted email (accepts code start.now) w.challenges c e h) (
            λ _. record {
              challenge = c;
              last = sym (agrees email) ∙ e;
              same = same;
              in_time = in_time;
            },
            λ _. (c, refl),
          )
      | inr h ↦ rw (confirm_refused email (accepts code start.now) w.challenges c e h) (
        λ (c', k). cc k,
        λ o. ground (arith, agrees email, accepts_iff code start.now o.challenge),
      )
    ]
  ]

  proved_iff :
      (first tick : Tick) (email code : String) (w : World)
      → ((p : OwnershipProof) × ((turn ports tick (confirming first email code) w).0
            ≡ proved (ok p)))
        ↔ ((c : Challenge) × ((confirm email (accepts code first.now) w.challenges).0 ≡ some c))
  unfolding turn
  proved_iff first tick email code w =
      elim (Option-cases ((confirm email (accepts code first.now) w.challenges).0)) [
        | inl e ↦ rw e (λ (p, h). cc h, λ (c, h). cc h)
        | inr (c, e) ↦ rw e (λ _. (c, refl), λ _. (_, refl))
      ]

  -- Whatever requests interleave in a process, from its start on, and in whatever order they have
  -- their turns: a verification that has read the clock and is about to compare its code gets a
  -- proof exactly if the last thing that has happened to its address is that this code was stored
  -- for it, and the code has not expired at the time read.
  pub confirm-run_iff :
      (sch : Schedule) (threads : ℕ → Thread) (i : ℕ) (tick first : Tick) (email code : String)
      → let s = run ports sch (start threads) in
        s.threads i ≡ confirming first email code
        → ((p : OwnershipProof) × ((move ports i tick s).threads i ≡ proved (ok p)))
          ↔ IsOpen s.events email code first.now
  confirm-run_iff sch threads i tick first email code e =
      let s = run ports sch (start threads) in
      let moved = rw e at (threads-move ports tick s i) in
      let (to, from) = confirm_iff first email code s.world s.events (start-Agrees sch threads) in
      let (proof, found) = proved_iff first tick email code s.world in
      rw moved (λ p. to (proof p), λ o. found (from o))
