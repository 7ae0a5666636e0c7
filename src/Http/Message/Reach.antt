-- ===== src/Http/Message/Reach.antt =====
-- The worlds that the parts of a handler reach.
use orbit_api_gateway.Domain.Failure.{Failure, Result, ok, err}
use orbit_api_gateway.World.{World}
use orbit_api_gateway.Http.Message.{Response, Conn, Flow, halt, go, Part, call, finish}

module _ (P : World → Type 0) where
  -- However a part ends, its world has the property.
  abbrev pub Reaches : {A : Type 0} → Flow A → Type 0
  Reaches (halt c) = P c.world
  Reaches (go a c) = P c.world

  pub bound-Reaches :
      {A B : Type 0} (x : Flow A) (k : A → Part B)
      → Reaches x
      → ((a : A) (c : Conn) → P c.world → Reaches (k a c))
      → Reaches (elim x [ halt c ↦ halt c | go a c ↦ k a c ])
  bound-Reaches (halt c) k here rest = here
  bound-Reaches (go a c) k here rest = rest a c here

  pub called-Reaches :
      {A : Type 0} (on_error : Failure → Response → Response) (c : Conn) (x : Result A × World)
      → P x.1
      → Reaches (call on_error (λ _. x) c)
  called-Reaches on_error c (ok a, w) here = here
  called-Reaches on_error c (err f, w) here = here

  pub finish-Reaches : {A : Type 0} (x : Flow A) → Reaches x → P (finish x).world
  finish-Reaches (halt c) here = here
  finish-Reaches (go a c) here = here
