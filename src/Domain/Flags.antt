-- ===== src/Domain/Flags.antt =====
-- domain/flags.go
use orbit_api_gateway.Base.{String, Bool, List}

pub record FeatureFlag : Type 0 where
  pub name : String
  pub enabled : Bool
  pub description : String

pub record FlagSet : Type 0 where
  pub version : String
  pub flags : List FeatureFlag
