-- ===== src/Domain/Audit.antt =====
-- domain/audit.go. The metadata map, which no code sets, is left out.
use orbit_api_gateway.Base.{String, Bool}
use orbit_api_gateway.Domain.Runtime.{Time}

pub record AuditEntry : Type 0 where
  pub id : String
  pub org_id : String
  pub actor : String
  pub actor_type : String
  pub is_staff : Bool
  pub break_glass : Bool
  pub reason : String
  pub action : String
  pub resource : String
  pub timestamp : Time
