-- ===== src/Service/Threads/Turns.antt =====
-- A turn changes its own thread, and no other.
use orbit_api_gateway.Base.{ℕ, ◌≡◌, String, true, false, eqb, arith}
use orbit_api_gateway.World.{World, Ports, Tick}
use orbit_api_gateway.Service.Limits.Effects.{SameStores, check_identifier_limit-SameStores}
use orbit_api_gateway.Service.Threads.{
  Thread, System, begin_challenge, turn, witnessed, update, move,
}

pub eqb_refl : (i : ℕ) → eqb i i ≡ true
eqb_refl i = ground arith

-- `Challenge` leaves the stores alone up to its `Save`.
pub begin_challenge-SameStores :
    (ports : Ports) (tick : Tick) (email : String) (w : World)
    → SameStores w (begin_challenge ports tick email w).1
unfolding begin_challenge
begin_challenge-SameStores ports tick email w =
    ground (arith, check_identifier_limit-SameStores ports.runtime ports.limiter email w)

module _ (ports : Ports) (tick : Tick) (s : System) where
  pub threads-move :
      (i : ℕ) → (move ports i tick s).threads i ≡ (turn ports tick (s.threads i) s.world).0
  unfolding move
  threads-move i = rw (eqb_refl i)

  pub threads-move_other :
      (i j : ℕ) → eqb i j ≡ false → (move ports i tick s).threads j ≡ s.threads j
  unfolding move
  threads-move_other i j e = rw e

  -- The system after a turn, by what the thread and the world are then.
  pub move_lem :
      (i : ℕ) {t : Thread} {w : World}
      → turn ports tick (s.threads i) s.world ≡ (t, w)
      → move ports i tick s ≡ record {
        threads = update i t s.threads;
        world = w;
        events = witnessed (s.threads i) s.world s.events;
      }
  unfolding move
  move_lem i e = rw e
