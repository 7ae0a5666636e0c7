-- ===== src/World.antt =====
-- What the process keeps between requests, what it asks of other services, and the operations
-- that a use case is made of.
use orbit_api_gateway.Base.{String, Option, List, [], ◌∷◌}
use orbit_api_gateway.Grpc.{Rpc, RpcReply, HttpReply}
use orbit_api_gateway.Domain.Runtime.{Runtime, Time}
use orbit_api_gateway.Domain.Ratelimit.{Policy, Decision}
use orbit_api_gateway.Domain.Failure.{Failure, Result, err}
use orbit_api_gateway.Memory.Stores.{
  Challenges, Claims, AuditStore, new_challenges, new_claims, new_audit_store,
}

-- What leaves the process: a check by the limiter, a gRPC call, an HTTP read, a line of the log.
pub data Call : Type 0 where
  rate_check : String → Policy → Call
  rpc : Rpc → Call
  http_get : String → Call
  logged : String → String → Call

-- The in-memory stores of the adapters, and the calls made so far, the latest first.
pub record World : Type 0 where
  pub challenges : Challenges
  pub claims : Claims
  pub audit : AuditStore
  pub calls : List Call

-- The state at startup.
abbrev pub empty_world : World
empty_world = record {
  challenges = new_challenges;
  claims = new_claims;
  audit = new_audit_store;
  calls = [];
}

-- `domain.Limiter`: its answer may depend on all earlier calls; `none` is an error.
abbrev pub Limiter : Type 0
Limiter = List Call → String → Policy → Option Decision

-- The services that the process talks to, as functions of the calls made so far.
pub record Ports : Type 0 where
  pub runtime : Runtime
  pub limiter : Option Limiter
  pub upstream : List Call → Rpc → RpcReply
  pub auth_http : List Call → String → HttpReply

-- What `Clock` and `CodeGenerator` answer during one request.
pub record Tick : Type 0 where
  pub now : Time
  pub code : String

-- A use case: it changes the world, and returns a value or an error.
abbrev pub Op : Type 0 → Type 0
Op A = World → Result A × World

abbrev pub pure : {A : Type 0} → A → Op A
pure a w = (Result.ok a, w)

abbrev pub fail : {A : Type 0} → Failure → Op A
fail e w = (err e, w)

infixl 5 ◌>>=◌ ◌>>◌
abbrev pub ◌>>=◌ : {A B : Type 0} → Op A → (A → Op B) → Op B
◌>>=◌ m f w = let (r, w') = m w in elim r [ Result.ok a ↦ f a w' | err e ↦ (err e, w') ]

abbrev pub ◌>>◌ : {A B : Type 0} → Op A → Op B → Op B
m >> k = m >>= λ _. k

abbrev pub note_call : Call → World → World
note_call c w = record w { calls = c ∷ w.calls }

abbrev pub modify : (World → World) → Op (Unit {0})
modify f w = (Result.ok tt, f w)
