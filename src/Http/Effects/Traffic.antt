-- ===== src/Http/Effects/Traffic.antt =====
-- The requests that the edge serves, one after the other. Which route net/http picks for a request
-- is not fixed: it can be any route of the table, or none, and then net/http answers itself.
use orbit_api_gateway.Base.{String, refl, ℕ, zero, suc, Option, none, some, List, [], ◌∷◌}
use orbit_api_gateway.World.{World, Tick}
use orbit_api_gateway.Http.Message.{Request, fresh_response, get_header}
use orbit_api_gateway.Http.Limits.{Edge, bearer_token}
use orbit_api_gateway.Http.Routes.{Wired, Assets, Route, routes}
use orbit_api_gateway.Http.Routes.Walk.{AllServe, ◌▹◌, route_at, routes-AllServe}
use orbit_api_gateway.Http.Effects.{IsKept, Keeps}
use orbit_api_gateway.Http.Effects.Table.{Keeps-IsServed}

-- A request, with what the clock and the code generator answer while it is served, and the
-- position of its route in the table; past the end of the table, it has none.
pub record Exchange : Type 0 where
  pub tick : Tick
  pub pick : ℕ
  pub request : Request

abbrev handled : Option Route → Request → World → World
handled none r w = w
handled (some route) r w = (route.handler r (record { world = w; response = fresh_response })).world

module _ (edge : Edge) (wired : Wired) (assets : Assets) where
  abbrev pub exchange : Exchange → World → World
  exchange x w = handled (route_at x.pick (routes edge x.tick wired assets)) x.request w

  unfoldable pub traffic : List Exchange → World → World
  traffic [] w = w
  traffic (x ∷ xs) w = traffic xs (exchange x w)

handled-keeps :
    (P : World → Type 0) (n : ℕ) (rs : List Route) (r : Request) (w : World)
    → AllServe (Keeps (bearer_token (get_header "Authorization" r)) P) rs
    → P w
    → P (handled (route_at n rs) r w)
handled-keeps P zero [] r w keep here = here
handled-keeps P (suc n) [] r w keep here = here
handled-keeps P zero (route ∷ rs) r w (keeps ▹ _) here = keeps r _ refl here
handled-keeps P (suc n) (route ∷ rs) r w (_ ▹ keep) here = handled-keeps P n rs r w keep here

pub traffic-keeps :
    (edge : Edge) (wired : Wired) (assets : Assets) {P : World → Type 0}
    → ((caller : Option String) → IsKept edge.ports caller P)
    → (xs : List Exchange) (w : World) → P w
    → P (traffic edge wired assets xs w)
unfolding traffic
traffic-keeps edge wired assets kept [] w here = here
traffic-keeps edge wired assets {P} kept (x ∷ xs) w here =
    let caller = bearer_token (get_header "Authorization" x.request) in
    traffic-keeps edge wired assets kept xs (exchange edge wired assets x w) (
      handled-keeps P x.pick (routes edge x.tick wired assets) x.request w
        (routes-AllServe edge x.tick (Keeps-IsServed edge x.tick caller (kept caller)) wired assets)
        here)
