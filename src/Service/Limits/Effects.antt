-- ===== src/Service/Limits/Effects.antt =====
-- What a check of a budget changes: it makes one call, and leaves the stores alone.
use orbit_api_gateway.Base.{◌≡◌, refl, String, Option, none, some, arith}
use orbit_api_gateway.Domain.Runtime.{Runtime}
use orbit_api_gateway.Domain.Ratelimit.{Policy}
use orbit_api_gateway.World.{World, Limiter}
use orbit_api_gateway.Service.Limits.{allow, check_identifier_limit}

pub record SameStores (w w' : World) : Type 0 where
  pub challenges : w'.challenges ≡ w.challenges
  pub claims : w'.claims ≡ w.claims
  pub audit : w'.audit ≡ w.audit

pub SameStores-refl : (w : World) → SameStores w w
SameStores-refl w = record { challenges = refl; claims = refl; audit = refl }

pub SameStores-trans : (u v w : World) → SameStores u v → SameStores v w → SameStores u w
SameStores-trans u v w first second = ground arith

pub allow-SameStores :
    (limiter : Limiter) (key : String) (policy : Policy) (w : World)
    → SameStores w (allow limiter key policy w).1
unfolding allow
allow-SameStores limiter key policy w = ground arith

pub check_identifier_limit-SameStores :
    (rt : Runtime) (limiter : Option Limiter) (identifier : String) (w : World)
    → SameStores w (check_identifier_limit rt limiter identifier w).1
unfolding check_identifier_limit
check_identifier_limit-SameStores rt none identifier w = ground arith
check_identifier_limit-SameStores rt (some limiter) identifier w = ground arith
