-- ===== src/Service/Threads/Claims/Sources.antt =====
-- Where the results of claims come from while requests interleave.
use orbit_api_gateway.Base.{
  ℕ, ◌≡◌, refl, ◌⊎◌, inl, inr, String, some, [], ◌∷◌, ◌==◌, eqb, arith, eq_refl, Bool-cases,
  Option-cases,
}
use orbit_api_gateway.Base.Map.{Map, lookup, insert, lookup-insert, Holds, insert-Holds}
use orbit_api_gateway.Domain.Failure.{ok, err}
use orbit_api_gateway.Domain.Onboarding.{ClaimInput, ClaimResult}
use orbit_api_gateway.Memory.Stores.{put}
use orbit_api_gateway.World.{World, Ports, Tick}
use orbit_api_gateway.Service.Challenges.{normalize_email}
use orbit_api_gateway.Service.Claims.Replay.{replayed}
use orbit_api_gateway.Service.Threads.{
  Thread, asking, giving, claiming, putting, logging, claimed, noting, turn, System, Schedule,
  start, move, run,
}
use orbit_api_gateway.Service.Threads.Turns.{begin_challenge-SameStores}
use orbit_api_gateway.Service.Threads.Claims.{
  key_of, made, IsFilled, IsFilled-cases, begin_blank, begin_fresh, begin_cached,
}

-- The request has not begun.
abbrev pub IsNew : Thread → Type 0
IsNew (asking email) = Unit
IsNew (giving email code) = Unit
IsNew (claiming input key) = Unit
IsNew (noting entry) = Unit
IsNew other = ⊥

-- Something is in the cache under the key.
pub record IsCached (key : String) (claims : Map ClaimResult) : Type 0 where
  pub result : ClaimResult
  pub found : lookup key claims ≡ some result

pub insert-IsCached :
    (key wanted : String) (r : ClaimResult) (claims : Map ClaimResult)
    → IsCached wanted claims
    → IsCached wanted (insert key r claims)
insert-IsCached key wanted r claims c = elim (Bool-cases (key == wanted)) [
  | inl e ↦ record { result = r; found = rw (lookup-insert, e) }
  | inr e ↦ record { result = c.result; found = rw (lookup-insert, e) c.found }
]

module _ (ports : Ports) (threads : ℕ → Thread) where
  -- The result is what one of the claims under the key asked for.
  pub record Origin (key : String) (r : ClaimResult) : Type 0 where
    pub thread : ℕ
    pub input : ClaimInput
    pub idempotency_key : String
    pub began : threads thread ≡ claiming input idempotency_key
    pub filled : IsFilled ports.runtime input
    pub same_key : key_of ports.runtime input idempotency_key ≡ key
    pub same_result : r ≡ made ports.runtime input

  -- The answer of a claim: what it asked for itself, or a replay of what a claim under its key asked
  -- for, and something is in the cache under its key.
  pub record Answered (i : ℕ) (claims : Map ClaimResult) (r : ClaimResult) : Type 0 where
    pub input : ClaimInput
    pub idempotency_key : String
    pub began : threads i ≡ claiming input idempotency_key
    pub cached : IsCached (key_of ports.runtime input idempotency_key) claims
    pub result :
        (r ≡ made ports.runtime input)
        ⊎ ((first : ClaimResult) × Origin (key_of ports.runtime input idempotency_key) first
            × (r ≡ replayed first))

  -- What the place of a thread says of where it began.
  abbrev pub Came : ℕ → Map ClaimResult → Thread → Type 0
  Came i claims (claiming input key) = threads i ≡ claiming input key
  Came i claims (putting key uid r) = (o : Origin key r) × (o.thread ≡ i)
  Came i claims (logging line uid r) = Answered i claims r
  Came i claims (claimed (ok r)) = Answered i claims r
  Came i claims other = Unit

  Came-new : (i : ℕ) (t : Thread) → threads i ≡ t → IsNew t → Came i [] t
  Came-new i (asking email) e h = tt
  Came-new i (giving email code) e h = tt
  Came-new i (claiming input key) e h = e
  Came-new i (noting entry) e h = tt
  Came-new i other e h = elim h [ ]

  Answered-insert :
      (i : ℕ) (key : String) (r' : ClaimResult) (claims : Map ClaimResult) (r : ClaimResult)
      → Answered i claims r
      → Answered i (insert key r' claims) r
  Answered-insert i key r' claims r a = record {
    input = a.input;
    idempotency_key = a.idempotency_key;
    began = a.began;
    cached =
        insert-IsCached key (key_of ports.runtime a.input a.idempotency_key) r' claims a.cached;
    result = a.result;
  }

  Came-insert :
      (i : ℕ) (key : String) (r : ClaimResult) (claims : Map ClaimResult) (t : Thread)
      → Came i claims t
      → Came i (insert key r claims) t
  Came-insert i key r claims (claiming input k) c = c
  Came-insert i key r claims (putting k uid r') c = c
  Came-insert i key r claims (logging line uid r') c = Answered-insert i key r claims r' c
  Came-insert i key r claims (claimed (ok r')) c = Answered-insert i key r claims r' c
  Came-insert i key r claims (claimed (err f)) c = tt
  Came-insert i key r claims other c = tt

  -- A turn leaves the cache alone, or stores a result under the key of its claim.
  pub turn-claims :
      (tick : Tick) (t : Thread) (w : World)
      → ((turn ports tick t w).1.claims ≡ w.claims)
        ⊎ ((key : String) × (uid : String) × (r : ClaimResult) × (t ≡ putting key uid r)
            × ((turn ports tick t w).1.claims ≡ insert key r w.claims))
  unfolding turn put
  turn-claims tick (asking email) w =
      inl (begin_challenge-SameStores ports tick (normalize_email ports.runtime email) w).claims
  turn-claims tick (putting key uid r) w = inr (key, uid, r, refl, refl)
  turn-claims tick (giving email code) w = inl (ground arith)
  turn-claims tick (claiming input key) w = inl (ground arith)
  turn-claims tick other w = inl refl

  -- The claims of the cache and the places of the threads are accounted for.
  pub record IsSourced (s : System) : Type 0 where
    pub stored : Holds Origin s.world.claims
    pub came : (i : ℕ) → Came i s.world.claims (s.threads i)

  -- The first turn of a claim.
  begin-Came :
      (tick : Tick) (i : ℕ) (input : ClaimInput) (key : String) (w : World)
      → threads i ≡ claiming input key
      → Holds Origin w.claims
      → let (t', w') = turn ports tick (claiming input key) w in Came i w'.claims t'
  begin-Came tick i input key w e stored = elim (IsFilled-cases ports.runtime input) [
    | inl blank ↦ rw (begin_blank ports tick input key w blank) tt
    | inr filled ↦ elim (Option-cases (lookup (key_of ports.runtime input key) w.claims)) [
      | inl fresh ↦ rw (begin_fresh ports tick input key w filled fresh) (
        record {
          thread = i;
          input = input;
          idempotency_key = key;
          began = e;
          filled = filled;
          same_key = refl;
          same_result = refl;
        },
        refl,
      )
      | inr (first, found) ↦ rw (begin_cached ports tick input key w filled first found) (record {
        input = input;
        idempotency_key = key;
        began = e;
        cached = record { result = first; found = found };
        result = inr (first, stored (key_of ports.runtime input key) first found, refl);
      })
    ]
  ]

  -- The own thread of a turn.
  turn-Came :
      (tick : Tick) (i : ℕ) (t : Thread) (w : World)
      → Holds Origin w.claims
      → Came i w.claims t
      → let (t', w') = turn ports tick t w in Came i w'.claims t'
  unfolding turn put
  turn-Came tick i (claiming input key) w stored c = begin-Came tick i input key w c stored
  turn-Came tick i (putting key uid r) w stored (o, own) = record {
    input = o.input;
    idempotency_key = o.idempotency_key;
    began = rw own at o.began;
    cached = record { result = r; found = rw (lookup-insert, o.same_key, eq_refl) };
    result = inl o.same_result;
  }
  turn-Came tick i (logging line uid r) w stored c = c
  turn-Came tick i (claimed r) w stored c = c
  turn-Came tick i (asking email) w stored c = ground arith
  turn-Came tick i (giving email code) w stored c = ground arith
  turn-Came tick i other w stored c = tt

  -- What a turn leaves in the cache is accounted for.
  turn-Holds :
      (tick : Tick) (i : ℕ) (t : Thread) (w : World)
      → Holds Origin w.claims
      → Came i w.claims t
      → Holds Origin (turn ports tick t w).1.claims
  turn-Holds tick i t w stored c = elim (turn-claims tick t w) [
    | inl same ↦ rw same stored
    | inr (key, uid, r, is, claims) ↦
        rw claims (insert-Holds Origin key w.claims r (rw is at c).0 stored)
  ]

  -- The threads that have no turn.
  others-Came :
      (tick : Tick) (t : Thread) (w : World) (j : ℕ) (t' : Thread)
      → Came j w.claims t'
      → Came j (turn ports tick t w).1.claims t'
  others-Came tick t w j t' c = elim (turn-claims tick t w) [
    | inl same ↦ rw same c
    | inr (key, uid, r, _, claims) ↦ rw claims (Came-insert j key r w.claims t' c)
  ]

  move-IsSourced :
      (i : ℕ) (tick : Tick) (s : System) → IsSourced s → IsSourced (move ports i tick s)
  unfolding move
  move-IsSourced i tick s h = record {
    stored = turn-Holds tick i (s.threads i) s.world h.stored (h.came i);
    came = λ j. elim (Bool-cases (eqb i j)) [
      | inl e ↦
          let same : i ≡ j = ground arith in
          rw (e, ← same) (turn-Came tick i (s.threads i) s.world h.stored (h.came i))
      | inr e ↦ rw e (others-Came tick (s.threads i) s.world j (s.threads j) (h.came j))
    ];
  }

  pub run-IsSourced : (sch : Schedule) (s : System) → IsSourced s → IsSourced (run ports sch s)
  unfolding run
  run-IsSourced [] s h = h
  run-IsSourced ((i, tick) ∷ rest) s h =
      run-IsSourced rest (move ports i tick s) (move-IsSourced i tick s h)

  pub start-IsSourced :
      (sch : Schedule) → ((i : ℕ) → IsNew (threads i)) → IsSourced (run ports sch (start threads))
  unfolding lookup
  start-IsSourced sch fresh = run-IsSourced sch (start threads) (record {
    stored = λ key r e. absurd (cc e);
    came = λ i. Came-new i (threads i) refl (fresh i);
  })

  -- Whatever requests interleave in a process, from its start on, and in whatever order they have
  -- their turns: a claim that succeeds answers with what it asked for itself, or with a replay of
  -- what a claim under the same key asked for, one with a token and a UID that are not blank.
  -- Something is then in the cache under its key.
  pub run-Answered :
      (sch : Schedule) (i : ℕ) {r : ClaimResult}
      → ((j : ℕ) → IsNew (threads j))
      → let s = run ports sch (start threads) in
        s.threads i ≡ claimed (ok r) → Answered i s.world.claims r
  run-Answered sch i fresh e = rw e at ((start-IsSourced sch fresh).came i)
