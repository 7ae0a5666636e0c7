-- ===== src/Domain/Failure.antt =====
-- domain/auth.go: failure kinds and errors, and the rate-limit error of domain/ratelimit.go.
use orbit_api_gateway.Base.{String, Bool, Option, none, some, if◌then◌else◌}
use orbit_api_gateway.Domain.Ratelimit.{Decision}

pub data Kind : Type 0 where
  internal invalid_argument unauthenticated permission_denied failed_precondition : Kind
  resource_exhausted not_found conflict bad_gateway : Kind

-- `LimitError`
pub record LimitError : Type 0 where
  pub decision : Decision
  pub unavailable : Bool

-- An `error` of the application layer: a `*domain.Error`, a `*domain.LimitError` or any other.
pub data Failure : Type 0 where
  app : Kind → String → Failure
  limit : LimitError → Failure
  plain : String → Failure

-- `AsError`
unfoldable pub as_error : Failure → Option (Kind × String)
as_error (app kind message) = some (kind, message)
as_error (limit e) = none
as_error (plain message) = none

-- `LimitError.Error`
unfoldable pub limit_error_text : LimitError → String
limit_error_text e = if e.unavailable then "rate limiter unavailable" else "rate limit exceeded"

-- `Error`, of any error.
unfoldable pub error_text : Failure → String
unfolding limit_error_text
error_text (app kind message) = message
error_text (limit e) = limit_error_text e
error_text (plain message) = message

-- The value and error of a call; a call that fails returns no value.
pub data Result (A : Type 0) : Type 0 where
  ok : A → Result A
  err : Failure → Result A
