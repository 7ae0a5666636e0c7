-- ===== src/Service/Threads/Codes/Proofs.antt =====
-- How many proofs the codes that were stored are good for.
use orbit_api_gateway.Base.{
  ℕ, zero, suc, ◌+◌, ◌≤◌, ◌≡◌, refl, inl, inr, String, none, some, List, [], ◌∷◌, ◌==◌, eqb, arith,
  eq_iff, Bool-cases, if◌then◌else◌,
}
use orbit_api_gateway.Base.Map.{lookup}
use orbit_api_gateway.Domain.Failure.{ok}
use orbit_api_gateway.Domain.Ownership.{Challenge}
use orbit_api_gateway.Memory.Stores.{confirm}
use orbit_api_gateway.World.{World, Ports, Tick}
use orbit_api_gateway.Service.History.{Event, dispatched, accepted, outstanding}
use orbit_api_gateway.Service.History.Codes.{Agrees, empty-Agrees}
use orbit_api_gateway.Service.Threads.{
  Thread, asking, saving, giving, confirming, proved, claiming, turn, witnessed, System, Schedule,
  start, update, move, run,
}
use orbit_api_gateway.Service.Threads.Codes.{turn-Agrees}

-- How often a challenge was stored for the address.
unfoldable pub saves : String → List Event → ℕ
saves email [] = 0
saves email (dispatched e c ∷ past) = (if e == email then 1 else 0) + saves email past
saves email (accepted e ∷ past) = saves email past

-- Whether a thread has returned a proof for the address.
unfoldable pub proof_for : String → Thread → ℕ
proof_for email (proved (ok p)) = if p.email == email then 1 else 0
proof_for email other = 0

-- How many of the first n threads have.
unfoldable pub proofs : String → ℕ → (ℕ → Thread) → ℕ
proofs email zero threads = 0
proofs email (suc n) threads = proofs email n threads + proof_for email (threads n)

pending : String → List Event → ℕ
pending email past = elim (outstanding email past) [ none ↦ 0 | some c ↦ 1 ]

module _ (email : String) where
  proofs-update_of_le :
      (n i : ℕ) (t : Thread) (threads : ℕ → Thread)
      → n ≤ i
      → proofs email n (update i t threads) ≡ proofs email n threads
  unfolding proofs
  proofs-update_of_le zero i t threads h = refl
  proofs-update_of_le (suc n) i t threads h = ground (arith, proofs-update_of_le n i t threads)

  proofs-update :
      (n i : ℕ) (t : Thread) (threads : ℕ → Thread)
      → proof_for email (threads i) ≤ proof_for email t
      → proofs email n (update i t threads) + proof_for email (threads i)
        ≤ proofs email n threads + proof_for email t
  unfolding proofs
  proofs-update zero i t threads h = omega arith
  proofs-update (suc n) i t threads h = elim (Bool-cases (eqb i n)) [
    | inl same ↦ ground (arith, proofs-update_of_le n i t threads)
    | inr other ↦ ground (arith, proofs-update n i t threads)
  ]

  -- A code that is stored replaces the one before.
  save-balance :
      (e : String) (c : Challenge) (past : List Event)
      → 0 + (pending email (dispatched e c ∷ past) + saves email past)
        ≤ 0 + (pending email past + ((if e == email then 1 else 0) + saves email past))
  unfolding pending outstanding
  save-balance e c past = ground arith

  module _ (ports : Ports) where
    -- A proof uses up a code that was stored.
    confirm-balance :
        (tick first : Tick) (e code : String) (w : World) (past : List Event)
        → lookup e w.challenges ≡ outstanding e past
        → lookup email w.challenges ≡ outstanding email past
        → proof_for email (turn ports tick (confirming first e code) w).0
            + (pending email (witnessed (confirming first e code) w past) + saves email past)
          ≤ proof_for email (confirming first e code)
            + (pending email past + saves email (witnessed (confirming first e code) w past))
    unfolding turn witnessed confirm pending outstanding saves proof_for
    confirm-balance tick first e code w past here there = ground (arith, eq_iff e email)

    turn-balance :
        (tick : Tick) (t : Thread) (w : World) (past : List Event)
        → Agrees w past
        → proof_for email (turn ports tick t w).0
            + (pending email (witnessed t w past) + saves email past)
          ≤ proof_for email t + (pending email past + saves email (witnessed t w past))
    unfolding turn witnessed proof_for saves
    turn-balance tick (confirming first e code) w past agrees =
        confirm-balance tick first e code w past (agrees e) (agrees email)
    turn-balance tick (saving e limit c) w past agrees = save-balance e c past
    turn-balance tick (asking e) w past agrees = ground arith
    turn-balance tick (giving e code) w past agrees = ground arith
    turn-balance tick (claiming input key) w past agrees = ground arith
    turn-balance tick other w past agrees = ground arith

    proof_for-turn :
        (tick : Tick) (t : Thread) (w : World)
        → proof_for email t ≤ proof_for email (turn ports tick t w).0
    unfolding turn proof_for
    proof_for-turn tick (proved r) w = omega arith
    proof_for-turn tick other w = omega arith

    -- What a number of threads has proved, with the code that waits, is covered by what was stored.
    record IsCovered (n : ℕ) (s : System) : Type 0 where
      agrees : Agrees s.world s.events
      covered : proofs email n s.threads + pending email s.events ≤ saves email s.events

    move-IsCovered :
        (n i : ℕ) (tick : Tick) (s : System) → IsCovered n s → IsCovered n (move ports i tick s)
    unfolding move
    move-IsCovered n i tick s h =
        let (t, w) = turn ports tick (s.threads i) s.world in
        record {
          agrees = turn-Agrees ports tick (s.threads i) s.world s.events h.agrees;
          covered = omega (
            arith,
            h.covered,
            turn-balance tick (s.threads i) s.world s.events h.agrees,
            proofs-update n i t s.threads (proof_for-turn tick (s.threads i) s.world),
          );
        }

    run-IsCovered :
        (n : ℕ) (sch : Schedule) (s : System) → IsCovered n s → IsCovered n (run ports sch s)
    unfolding run
    run-IsCovered n [] s h = h
    run-IsCovered n ((i, tick) ∷ rest) s h =
        run-IsCovered n rest (move ports i tick s) (move-IsCovered n i tick s h)

-- Whatever requests interleave in a process in which no proof has been returned yet, from its start
-- on, and in whatever order they have their turns: however many of them verify an address at once,
-- no more get a proof for it than there were challenges stored for it.
pub proofs-le-saves :
    (ports : Ports) (email : String) (n : ℕ) (sch : Schedule) (threads : ℕ → Thread)
    → proofs email n threads ≡ 0
    → let s = run ports sch (start threads) in proofs email n s.threads ≤ saves email s.events
unfolding pending outstanding saves
proofs-le-saves ports email n sch threads none_yet =
    let first : IsCovered email ports n (start threads) = record {
      agrees = λ e. empty-Agrees e;
      covered = omega (arith, none_yet);
    } in
    omega (arith, (run-IsCovered email ports n sch (start threads) first).covered)
