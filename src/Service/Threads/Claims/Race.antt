-- ===== src/Service/Threads/Claims/Race.antt =====
-- Two claims under one key that look into the cache before either has stored its result.
use orbit_api_gateway.Base.{
  ℕ, ◌≡◌, ◌≢◌, ◌∙◌, ap, sym, Bool, refl, String, false, none, some, [], ◌∷◌, eqb, arith, eq_refl,
}
use orbit_api_gateway.Base.Map.{lookup, lookup-insert}
use orbit_api_gateway.Domain.Failure.{ok}
use orbit_api_gateway.Domain.Onboarding.{ClaimInput, ClaimResult, normalize_uid}
use orbit_api_gateway.World.{World, Ports, Tick}
use orbit_api_gateway.Memory.Stores.{get, put}
use orbit_api_gateway.Service.Claims.{provision, claim_as, claim}
use orbit_api_gateway.Service.Claims.Replay.{replayed}
use orbit_api_gateway.Service.Threads.{
  System, Schedule, claiming, claimed, putting, update, witnessed, move, run,
}
use orbit_api_gateway.Service.Threads.Turns.{eqb_refl, move_lem}
use orbit_api_gateway.Service.Threads.Claims.{key_of, made, IsFilled, IsFilled-test, begin_fresh}

-- The two threads have their turns alternately.
abbrev pub alternate : ℕ → ℕ → Tick → Schedule
alternate i j tick = (i, tick) ∷ (j, tick) ∷ (i, tick) ∷ (j, tick) ∷ (i, tick) ∷ (j, tick) ∷ []

module _ (ports : Ports) (i j : ℕ) (tick : Tick) (s : System) (apart : eqb i j ≡ false) where
  back : eqb j i ≡ false
  back = ground arith

  -- Two threads that are both about to store a result under one key.
  puts :
      (k uid uid' : String) (r r' : ClaimResult)
      → s.threads i ≡ putting k uid r
      → s.threads j ≡ putting k uid' r'
      → let s' = run ports ((i, tick) ∷ (j, tick) ∷ (i, tick) ∷ (j, tick) ∷ []) s in
        (s'.threads i ≡ claimed (ok r))
        × (s'.threads j ≡ claimed (ok r'))
        × (lookup k s'.world.claims ≡ some r')
  unfolding run move put
  puts k uid uid' r r' first second =
      rw (apart, back, eqb_refl i, eqb_refl j, first, second)
        (refl, refl, rw (lookup-insert, eq_refl) refl)

  -- Two threads that look into the cache while it has nothing under their key.
  gets :
      (input input' : ClaimInput) (key key' : String)
      → s.threads i ≡ claiming input key
      → s.threads j ≡ claiming input' key'
      → IsFilled ports.runtime input
      → IsFilled ports.runtime input'
      → key_of ports.runtime input' key' ≡ key_of ports.runtime input key
      → lookup (key_of ports.runtime input key) s.world.claims ≡ none
      → let s' = run ports ((i, tick) ∷ (j, tick) ∷ []) s in
        let k = key_of ports.runtime input key in
        (s'.threads i
          ≡ putting k (normalize_uid ports.runtime input.desired_uid) (made ports.runtime input))
        × (s'.threads j
            ≡ putting k
                (normalize_uid ports.runtime input'.desired_uid)
                (made ports.runtime input'))
  unfolding run
  gets input input' key key' first second filled filled' same fresh =
      let one = begin_fresh ports tick input key s.world filled fresh in
      let two = begin_fresh ports tick input' key' s.world filled' (rw same fresh) in
      let k = key_of ports.runtime input key in
      let stored = λ (c : ClaimInput).
        putting k (normalize_uid ports.runtime c.desired_uid) (made ports.runtime c) in
      let s1 = record s {
        threads = update i (stored input) s.threads;
        events = witnessed (s.threads i) s.world s.events;
      } in
      let m1 = move_lem ports tick s i {t = stored input} {w = s.world} (rw first one) in
      let m2 =
        move_lem ports tick s1 j {t = stored input'} {w = s.world}
          (rw (apart, second, ← same) two) in
      rw (m1, m2, back, eqb_refl i, eqb_refl j) (refl, refl)

-- Results that differ, neither marked as a replay, differ as replays too.
abbrev marked : Bool → ClaimResult → ClaimResult
marked flag r = record r { idempotent_replay = flag }

replayed-apart :
    (a b : ClaimResult)
    → a.idempotent_replay ≡ false
    → b.idempotent_replay ≡ false
    → a ≢ b
    → replayed a ≢ replayed b
replayed-apart a b new new' apart same =
    let plain : marked false a ≡ marked false b = ap (marked false) same in
    apart (ap (λ flag. marked flag a) new ∙ (plain ∙ ap (λ flag. marked flag b) (sym new')))

-- A claim under a key that the cache holds is answered with what it holds.
claim-found :
    (ports : Ports) (input : ClaimInput) (key : String) (w : World) {found : ClaimResult}
    → IsFilled ports.runtime input
    → lookup (key_of ports.runtime input key) w.claims ≡ some found
    → (claim ports.runtime input key w).0 ≡ ok (replayed found)
unfolding claim claim_as get
claim-found ports input key w filled e = rw (IsFilled-test ports.runtime input filled, e) refl

-- Two claims under one key, whose tokens and UIDs are not blank, under which no claim has been stored,
-- and which ask for different results, may both be provisioned: where two threads that are about to
-- make them have their turns alternately, each is answered with what it asked for itself, and neither
-- as a replay. The cache keeps the result of the second, and so the first client that claims again
-- after that is answered with the other's result: not with the one that it was given, marked as a
-- replay.
pub run-race :
    (ports : Ports) (i j : ℕ) (tick : Tick) (input input' : ClaimInput) (key key' : String)
    (s : System)
    → eqb i j ≡ false
    → s.threads i ≡ claiming input key
    → s.threads j ≡ claiming input' key'
    → IsFilled ports.runtime input
    → IsFilled ports.runtime input'
    → key_of ports.runtime input' key' ≡ key_of ports.runtime input key
    → lookup (key_of ports.runtime input key) s.world.claims ≡ none
    → made ports.runtime input' ≢ made ports.runtime input
    → let s' = run ports (alternate i j tick) s in
      let again = (claim ports.runtime input key s'.world).0 in
      (s'.threads i ≡ claimed (ok (made ports.runtime input)))
      × (s'.threads j ≡ claimed (ok (made ports.runtime input')))
      × (again ≡ ok (replayed (made ports.runtime input')))
      × (replayed (made ports.runtime input') ≢ replayed (made ports.runtime input))
unfolding run provision
run-race ports i j tick input input' key key' s apart first second filled filled' same fresh
      differ =
    let (one, two) =
      gets ports i j tick s apart input input' key key' first second filled filled' same fresh in
    let (answered, answered', cached) =
      puts ports i j tick (run ports ((i, tick) ∷ (j, tick) ∷ []) s) apart _ _ _ _ _ one two in
    (
      answered,
      answered',
      claim-found ports input key _ filled cached,
      replayed-apart (made ports.runtime input') (made ports.runtime input) refl refl differ,
    )
