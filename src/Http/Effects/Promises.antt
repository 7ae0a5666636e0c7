-- ===== src/Http/Effects/Promises.antt =====
-- What holds of the stores, and what a client can count on, whatever requests the edge serves.
use orbit_api_gateway.Base.{Option, ◌≡◌, ◌≢◌, some, String, List}
use orbit_api_gateway.Base.Strings.{trim_space}
use orbit_api_gateway.Base.Map.{lookup}
use orbit_api_gateway.Domain.Failure.{ok}
use orbit_api_gateway.Domain.Onboarding.{ClaimInput, ClaimResult, normalize_uid}
use orbit_api_gateway.World.{World, Ports}
use orbit_api_gateway.Service.Claims.{claim, claim_key}
use orbit_api_gateway.Service.Claims.Replay.{replayed, claim_replays_later}
use orbit_api_gateway.Service.History.Claims.{serve-keeps}
use orbit_api_gateway.Service.History.WellFormed.{WellFormed, moved-WellFormed, serve-WellFormed}
use orbit_api_gateway.Http.Limits.{Edge}
use orbit_api_gateway.Http.Routes.{Wired, Assets}
use orbit_api_gateway.Http.Effects.{IsKept}
use orbit_api_gateway.Http.Effects.Traffic.{Exchange, traffic, traffic-keeps}

WellFormed-IsKept : (ports : Ports) (caller : Option String) → IsKept ports caller WellFormed
WellFormed-IsKept ports caller = record {
  aside = λ w w' same good. moved-WellFormed w w' same.stores good;
  used = λ r w good. serve-WellFormed ports r w good;
}

-- From a world with well-formed stores, whatever requests the edge serves, on whichever routes of
-- its table, leave well-formed stores: each challenge waits under an address that holds an "@", each
-- claim in the cache has a UID and no mark of a replay, each entry of the trail has an id.
pub traffic-WellFormed :
    (edge : Edge) (wired : Wired) (assets : Assets) (xs : List Exchange) (w : World)
    → WellFormed w
    → WellFormed (traffic edge wired assets xs w)
traffic-WellFormed edge wired assets xs w good =
    traffic-keeps edge wired assets (WellFormed-IsKept edge.ports) xs w good

-- A claim that is cached stays as it is.
cached-IsKept :
    (ports : Ports) (caller : Option String) (k : String) (first : ClaimResult)
    → IsKept ports caller (λ w. lookup k w.claims ≡ some first)
cached-IsKept ports caller k first = record {
  aside = λ w w' same e. rw (same.stores.claims) e;
  used = λ r w e. serve-keeps ports r w k e;
}

-- After a successful claim, and whatever requests the edge serves then, a claim under the same key,
-- whose token and UID are not blank, answers with the first claim's result, marked as a replay.
pub claim-traffic-claim :
    (edge : Edge) (wired : Wired) (assets : Assets) (xs : List Exchange) (input input' : ClaimInput)
    (key key' : String) (w w' : World) {first : ClaimResult}
    → claim edge.ports.runtime input key w ≡ (ok first, w')
    → trim_space input'.invite_token ≢ ""
    → normalize_uid edge.ports.runtime input'.desired_uid ≢ ""
    → claim_key
        (trim_space input'.invite_token)
        (normalize_uid edge.ports.runtime input'.desired_uid)
        key'
      ≡ claim_key
          (trim_space input.invite_token)
          (normalize_uid edge.ports.runtime input.desired_uid)
          key
    → (claim edge.ports.runtime input' key' (traffic edge wired assets xs w')).0
      ≡ ok (replayed first)
claim-traffic-claim edge wired assets xs input input' key key' w w' e token uid same =
    claim_replays_later edge.ports.runtime input input' key key' w w'
      (traffic edge wired assets xs w') e token uid same
      (λ k cached found.
        traffic-keeps edge wired assets (λ caller. cached-IsKept edge.ports caller k cached) xs w'
          found)
