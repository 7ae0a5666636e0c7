-- ===== src/Service/Threads/Claims/Late.antt =====
-- A claim that begins after another one under its key has returned.
use orbit_api_gateway.Base.{
  ℕ, ◌≤◌, ◌≡◌, sym, ◌∙◌, ap, refl, inl, inr, String, true, [], ◌∷◌, eqb, arith, Bool-cases,
}
use orbit_api_gateway.Base.Map.{Map}
use orbit_api_gateway.Domain.Failure.{ok}
use orbit_api_gateway.Domain.Onboarding.{ClaimInput, ClaimResult}
use orbit_api_gateway.World.{World, Ports, Tick}
use orbit_api_gateway.Service.Claims.{provision}
use orbit_api_gateway.Service.Claims.Replay.{replayed}
use orbit_api_gateway.Service.Threads.{
  Thread, claiming, logging, claimed, turn, System, Schedule, start, move, run,
}
use orbit_api_gateway.Service.Threads.Finish.{turns_of, IsFinished, run-IsFinished}
use orbit_api_gateway.Service.Threads.Claims.{key_of, IsFilled, begin_cached}
use orbit_api_gateway.Service.Threads.Claims.Sources.{
  IsNew, IsCached, insert-IsCached, Origin, Answered, turn-claims, run-IsSourced, start-IsSourced,
}

-- A claim that has not begun, or is being answered with a replay.
abbrev IsReplay : ClaimInput → String → Thread → Type 0
IsReplay input key (claiming input' key') = (input' ≡ input) × (key' ≡ key)
IsReplay input key (logging line uid r) = r.idempotent_replay ≡ true
IsReplay input key (claimed (ok r)) = r.idempotent_replay ≡ true
IsReplay input key other = ⊥

module _ (ports : Ports) (input : ClaimInput) (key : String)
    (filled : IsFilled ports.runtime input) where
  begin-IsReplay :
      (tick : Tick) (input' : ClaimInput) (key' : String) (w : World)
      → IsCached (key_of ports.runtime input key) w.claims
      → input' ≡ input
      → key' ≡ key
      → IsReplay input key (turn ports tick (claiming input' key') w).0
  begin-IsReplay tick input' key' w c e e' =
      rw (e, e', begin_cached ports tick input key w filled c.result c.found) refl

  turn-IsReplay :
      (tick : Tick) (t : Thread) (w : World)
      → IsCached (key_of ports.runtime input key) w.claims
      → IsReplay input key t
      → IsReplay input key (turn ports tick t w).0
  unfolding turn
  turn-IsReplay tick (claiming input' key') w c (e, e') = begin-IsReplay tick input' key' w c e e'
  turn-IsReplay tick (logging line uid r) w c h = h
  turn-IsReplay tick (claimed (ok r)) w c h = h
  turn-IsReplay tick other w c h = elim h [ ]

  -- What is in the cache stays there.
  turn-IsCached :
      (tick : Tick) (t : Thread) (w : World) (k : String)
      → IsCached k w.claims
      → IsCached k (turn ports tick t w).1.claims
  turn-IsCached tick t w k c = elim (turn-claims ports (λ _. t) tick t w) [
    | inl same ↦ rw same c
    | inr (key', uid, r, _, claims) ↦ rw claims (insert-IsCached key' k r w.claims c)
  ]

  record IsLate (j : ℕ) (s : System) : Type 0 where
    cached : IsCached (key_of ports.runtime input key) s.world.claims
    replay : IsReplay input key (s.threads j)

  move-IsLate : (i j : ℕ) (tick : Tick) (s : System) → IsLate j s → IsLate j (move ports i tick s)
  unfolding move
  move-IsLate i j tick s h = record {
    cached = turn-IsCached tick (s.threads i) s.world (key_of ports.runtime input key) h.cached;
    replay = elim (Bool-cases (eqb i j)) [
      | inl e ↦
          let same : i ≡ j = ground arith in
          rw (e, same) (turn-IsReplay tick (s.threads j) s.world h.cached h.replay)
      | inr e ↦ rw e h.replay
    ];
  }

  run-IsLate : (sch : Schedule) (j : ℕ) (s : System) → IsLate j s → IsLate j (run ports sch s)
  unfolding run
  run-IsLate [] j s h = h
  run-IsLate ((i, tick) ∷ rest) j s h =
      run-IsLate rest j (move ports i tick s) (move-IsLate i j tick s h)

returned :
    (input : ClaimInput) (key : String) (t : Thread)
    → IsReplay input key t
    → IsFinished t
    → (r : ClaimResult) × (t ≡ claimed (ok r)) × (r.idempotent_replay ≡ true)
returned input key (claimed (ok r)) h f = (r, refl, h)
returned input key (claiming a b) h f = elim f [ ]
returned input key (logging a b c) h f = elim f [ ]
returned input key other h f = elim h [ ]

claiming-inj : {a b : ClaimInput} {k l : String} → claiming a k ≡ claiming b l → (a ≡ b) × (k ≡ l)
claiming-inj e = (cc e, cc e)

module _ (ports : Ports) (threads : ℕ → Thread) where
  -- What a claim with this key answered left something in the cache.
  Answered-IsCached :
      (i : ℕ) (input : ClaimInput) (key : String) (claims : Map ClaimResult) (r : ClaimResult)
      → threads i ≡ claiming input key
      → Answered ports threads i claims r
      → IsCached (key_of ports.runtime input key) claims
  Answered-IsCached i input key claims r e a =
      let (same, same_key) = claiming-inj (sym a.began ∙ e) in rw (same, same_key) at a.cached

  -- A replay that a thread answers was asked for by a claim under its key.
  Answered-replay :
      (i : ℕ) (input : ClaimInput) (key : String) (claims : Map ClaimResult) (r : ClaimResult)
      → threads i ≡ claiming input key
      → r.idempotent_replay ≡ true
      → Answered ports threads i claims r
      → (first : ClaimResult) × Origin ports threads (key_of ports.runtime input key) first
        × (r ≡ replayed first)
  unfolding provision
  Answered-replay i input key claims r e replay a =
      let (same, same_key) = claiming-inj (sym a.began ∙ e) in
      elim a.result [
        | inl own ↦ absurd (cc (ap (λ (x : ClaimResult). x.idempotent_replay) own))
        | inr (first, o, is) ↦ (first, rw (same, same_key) at o, is)
      ]

-- Whatever requests interleave in a process, from its start on: where a claim has returned with a
-- result, each claim under its key that has not begun by then, and whose token and UID are not
-- blank, returns after three turns at most, whatever the others do meanwhile, and its answer is a
-- replay of what a claim under the key asked for.
pub run-late :
    (ports : Ports) (threads : ℕ → Thread) (before after : Schedule) (i j : ℕ)
    (input input' : ClaimInput) (key key' : String) {r : ClaimResult}
    → ((k : ℕ) → IsNew (threads k))
    → threads i ≡ claiming input key
    → threads j ≡ claiming input' key'
    → key_of ports.runtime input key ≡ key_of ports.runtime input' key'
    → IsFilled ports.runtime input'
    → let s = run ports before (start threads) in
      s.threads i ≡ claimed (ok r)
      → s.threads j ≡ claiming input' key'
      → 3 ≤ turns_of j after
      → (first : ClaimResult) × Origin ports threads (key_of ports.runtime input' key') first
        × ((run ports after s).threads j ≡ claimed (ok (replayed first)))
run-late ports threads before after i j input input' key key' {r} fresh first second same filled
      done waits turns =
    let s = run ports before (start threads) in
    let sourced = start-IsSourced ports threads before fresh in
    let cached =
      Answered-IsCached ports threads i input key s.world.claims r first
        (rw done at (sourced.came i)) in
    let late =
      run-IsLate ports input' key' filled after j s
        (record { cached = rw same at cached; replay = rw waits (refl, refl) }) in
    let (answer, is, replay) =
      returned input' key' ((run ports after s).threads j) late.replay
        (run-IsFinished ports after j s turns) in
    let later = run-IsSourced ports threads after s sourced in
    let (origin, o, e) =
      Answered-replay ports threads j input' key' (run ports after s).world.claims answer second
        replay (rw is at (later.came j)) in
    (origin, o, is ∙ ap (λ x. claimed (ok x)) e)
