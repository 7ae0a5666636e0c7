-- ===== src/Http/Routes/Table.antt =====
-- The table of the edge has no pattern twice, so that `New` of httpapi/server.go does not panic.
use orbit_api_gateway.Base.{
  ◌≡◌, refl, String, Bool, true, false, not, ◌&&◌, List, [], ◌∷◌, ◌==◌, any, map, arith,
}
use orbit_api_gateway.World.{Tick}
use orbit_api_gateway.Http.Limits.{Edge}
use orbit_api_gateway.Http.Routes.{Wired, Assets, routes}

abbrev pub distinct : List String → Bool
distinct [] = true
distinct (s ∷ ss) = not (any (λ t. s == t) ss) && distinct ss

-- A test that holds for both Booleans holds for each.
abbrev every : (Bool → Bool) → Bool
every f = f true && f false

every_lem : (f : Bool → Bool) → every f ≡ true → (b : Bool) → f b ≡ true
every_lem f e true = ground arith
every_lem f e false = ground arith

module _ (edge : Edge) (tick : Tick) (assets : Assets) where
  -- The table has no pattern twice.
  abbrev fits : Bool → Bool → Bool → Bool → Bool → Bool
  fits auth signup flags orgs tenants = distinct (
      map (λ r. r.pattern)
        (routes edge tick
          (record { auth = auth; signup = signup; flags = flags; orgs = orgs; tenants = tenants })
          assets))

  fits-every :
      every (λ a. every (λ s. every (λ f. every (λ o. every (λ t. fits a s f o t))))) ≡ true
  unfolding routes
  fits-every = refl

-- Whatever ports are wired, no two routes of the table have the same pattern, so that registering
-- it does not panic on a pattern that is there twice.
pub routes-distinct :
    (edge : Edge) (tick : Tick) (wired : Wired) (assets : Assets)
    → distinct (map (λ r. r.pattern) (routes edge tick wired assets)) ≡ true
routes-distinct edge tick wired assets =
    every_lem (λ t. fits edge tick assets wired.auth wired.signup wired.flags wired.orgs t)
      (every_lem (λ o. every (λ t. fits edge tick assets wired.auth wired.signup wired.flags o t))
        (every_lem
          (λ f. every (λ o. every (λ t. fits edge tick assets wired.auth wired.signup f o t)))
          (every_lem
            (λ s. every (λ f. every (λ o. every (λ t. fits edge tick assets wired.auth s f o t))))
            (every_lem
              (λ a.
                every (λ s. every (λ f. every (λ o. every (λ t. fits edge tick assets a s f o t)))))
              (fits-every edge tick assets) wired.auth)
            wired.signup)
          wired.flags)
        wired.orgs)
      wired.tenants
