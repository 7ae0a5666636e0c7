-- ===== src/Service/Threads/Finish.antt =====
-- No request waits for another: its own turns finish it, whatever the others do.
use orbit_api_gateway.Base.{ℕ, ◌+◌, ◌-◌, ◌≤◌, ◌∷◌, [], eqb, arith, if◌then◌else◌}
use orbit_api_gateway.World.{World, Ports, Tick}
use orbit_api_gateway.Service.Threads.{
  Thread, asking, saving, asked, giving, confirming, proved, claiming, putting, logging, claimed,
  noting, recording, noted, turn, System, Schedule, move, run,
}

-- How many turns a thread has left at most.
unfoldable pub turns_left : Thread → ℕ
turns_left (asking email) = 2
turns_left (saving email limit challenge) = 1
turns_left (giving email code) = 2
turns_left (confirming start email code) = 1
turns_left (claiming input key) = 3
turns_left (putting key uid result) = 2
turns_left (logging line uid result) = 1
turns_left (noting entry) = 2
turns_left (recording entry) = 1
turns_left (asked r) = 0
turns_left (proved r) = 0
turns_left (claimed r) = 0
turns_left noted = 0

-- The turns that a schedule gives to a thread.
unfoldable pub turns_of : ℕ → Schedule → ℕ
turns_of i [] = 0
turns_of i ((j, tick) ∷ rest) = (if eqb j i then 1 else 0) + turns_of i rest

-- The use case of the thread has returned.
abbrev pub IsFinished : Thread → Type 0
IsFinished (asked r) = Unit
IsFinished (proved r) = Unit
IsFinished (claimed r) = Unit
IsFinished noted = Unit
IsFinished other = ⊥

IsFinished-of_no_turns : (t : Thread) → turns_left t ≤ 0 → IsFinished t
unfolding turns_left
IsFinished-of_no_turns (asked r) h = tt
IsFinished-of_no_turns (proved r) h = tt
IsFinished-of_no_turns (claimed r) h = tt
IsFinished-of_no_turns noted h = tt
IsFinished-of_no_turns other h = absurd (omega arith)

turns_left_bound : (t : Thread) → turns_left t ≤ 3
unfolding turns_left
turns_left_bound (asking email) = omega arith
turns_left_bound other = omega arith

module _ (ports : Ports) where
  turns_left-turn :
      (tick : Tick) (t : Thread) (w : World) → turns_left (turn ports tick t w).0 ≤ turns_left t - 1
  unfolding turns_left turn
  turns_left-turn tick (asking email) w = ground arith
  turns_left-turn tick (giving email code) w = ground arith
  turns_left-turn tick (claiming input key) w = ground arith
  turns_left-turn tick other w = ground arith

  turns_left-run :
      (sch : Schedule) (i : ℕ) (s : System)
      → turns_left ((run ports sch s).threads i) ≤ turns_left (s.threads i) - turns_of i sch
  unfolding run move turns_of
  turns_left-run [] i s = omega arith
  turns_left-run ((j, tick) ∷ rest) i s = ground (
    arith,
    turns_left-run rest i (move ports j tick s),
    turns_left-turn tick (s.threads i) s.world,
  )

  -- A thread that has three turns finishes: whatever the other threads do before, between and after
  -- them, and whatever the ports answer, its use case returns.
  pub run-IsFinished :
      (sch : Schedule) (i : ℕ) (s : System)
      → 3 ≤ turns_of i sch
      → IsFinished ((run ports sch s).threads i)
  run-IsFinished sch i s h =
      IsFinished-of_no_turns ((run ports sch s).threads i)
        (omega (arith, turns_left-run sch i s, turns_left_bound (s.threads i)))
