-- ===== src/Http/Effects/Refinement.antt =====
-- The requests that the edge serves are a history of the use cases, with other work in between.
use orbit_api_gateway.Base.{List, []}
use orbit_api_gateway.World.{World, Ports}
use orbit_api_gateway.Service.Limits.Effects.{SameStores}
use orbit_api_gateway.Service.History.{Request, Event, serve, observe}
use orbit_api_gateway.Service.History.Codes.{Agrees}

-- From a world on, with no event yet: use cases, each with its event, and work that leaves the
-- stores alone.
pub data Trace (ports : Ports) (first : World) : World → List Event → Type 0 where
  start : Trace ports first first []
  beside :
      {w : World} {events : List Event} (w' : World)
      → Trace ports first w events
      → SameStores w w'
      → Trace ports first w' events
  then_request :
      {w : World} {events : List Event} (r : Request)
      → Trace ports first w events
      → Trace ports first (serve ports r w) (observe ports r w events)

-- A world that a history reaches, and whose challenges are those that the events leave open.
pub record Explained (ports : Ports) (first w : World) : Type 0 where
  pub events : List Event
  pub trace : Trace ports first w events
  pub agrees : Agrees w events
