-- ===== src/Domain/Orgs.antt =====
-- domain/orgs.go: organizations, memberships, invitations and tenants.
use orbit_api_gateway.Base.{String, Bool}

pub record Organization : Type 0 where
  pub id : String
  pub name : String
  pub slug : String
  pub created_at : String
  pub updated_at : String

pub record Membership : Type 0 where
  pub org_id : String
  pub user_id : String
  pub status : String
  pub role : String
  pub created_at : String
  pub updated_at : String

pub record Invite : Type 0 where
  pub id : String
  pub org_id : String
  pub email : String
  pub inviter_id : String
  pub status : String
  pub expires_at : String
  pub accepted_at : String
  pub created_at : String

pub record Tenant : Type 0 where
  pub org_id : String
  pub name : String
  pub slug : String
  pub retired : Bool
