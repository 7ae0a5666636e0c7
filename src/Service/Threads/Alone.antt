-- ===== src/Service/Threads/Alone.antt =====
-- A request that has its turns without interruption is the use case of the application.
use orbit_api_gateway.Base.{ℕ, suc, ◌≡◌, List, [], ◌∷◌}
use orbit_api_gateway.World.{World, Ports, Tick}
use orbit_api_gateway.Service.Challenges.{challenge, verify_challenge}
use orbit_api_gateway.Service.Claims.{claim}
use orbit_api_gateway.Service.History
use orbit_api_gateway.Service.History.{
  Request, ask_code, give_code, claim_machine, note_action, Event, serve,
}
use orbit_api_gateway.Service.Threads.{
  Thread, asking, asked, giving, proved, claiming, claimed, noting, noted, turn, witnessed,
  Schedule,
}

-- The thread of a request that has not begun, and what the clock and the generator answer to it.
abbrev pub thread_of : Request → Thread
thread_of (ask_code tick email) = asking email
thread_of (give_code tick email code) = giving email code
thread_of (claim_machine input key) = claiming input key
thread_of (note_action tick entry) = noting entry

-- A claim asks neither.
abbrev pub tick_of : Tick → Request → Tick
tick_of other (ask_code tick email) = tick
tick_of other (give_code tick email code) = tick
tick_of other (claim_machine input key) = other
tick_of other (note_action tick entry) = tick

abbrev pub three : ℕ → Tick → Schedule
three i tick = (i, tick) ∷ (i, tick) ∷ (i, tick) ∷ []

-- The threads from this number on have their turns one after the other.
abbrev pub in_turn : ℕ → Tick → List Request → Schedule
in_turn k other [] = []
in_turn k other (r ∷ rs) =
    let tick = tick_of other r in (k, tick) ∷ (k, tick) ∷ (k, tick) ∷ in_turn (suc k) other rs

module _ (ports : Ports) where
  -- The thread of a request that was answered at once in the world.
  abbrev pub answered : Request → World → Thread
  answered (ask_code tick email) w = asked (challenge ports tick email w).0
  answered (give_code tick email code) w = proved (verify_challenge ports tick email code w).0
  answered (claim_machine input key) w = claimed (claim ports.runtime input key w).0
  answered (note_action tick entry) w = noted

  -- A thread, the world and the events after a turn.
  abbrev one : Tick → Thread × World × List Event → Thread × World × List Event
  one tick (t, w, past) = let (t', w') = turn ports tick t w in (t', w', witnessed t w past)

  abbrev thrice : Tick → Thread → World → List Event → Thread × World × List Event
  thrice tick t w past = one tick (one tick (one tick (t, w, past)))

  -- The requests of the list stand, in their order, as the threads from this number on.
  abbrev pub Queued : ℕ → List Request → (ℕ → Thread) → Type 0
  Queued k [] threads = Unit
  Queued k (r ∷ rs) threads = (threads k ≡ thread_of r) × Queued (suc k) rs threads

  -- They are answered, each as its use case answers it in the world that those before it left.
  abbrev pub AllAnswered : ℕ → List Request → World → (ℕ → Thread) → Type 0
  AllAnswered k [] w threads = Unit
  AllAnswered k (r ∷ rs) w threads =
      (threads k ≡ answered r w) × AllAnswered (suc k) rs (serve ports r w) threads
