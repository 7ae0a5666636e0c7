-- ===== src/Upstream/Status.antt =====
-- The maps from gRPC status codes to failures of auth/client.go.
use orbit_api_gateway.Grpc.{Code, RpcError, status}
use orbit_api_gateway.Domain.Failure.{Kind, Failure, app}

-- `upstreamError`
unfoldable pub upstream_error : RpcError → Failure
upstream_error (status Code.invalid_argument m) = app Kind.invalid_argument m
upstream_error (status Code.unauthenticated m) = app Kind.unauthenticated m
upstream_error (status Code.permission_denied m) = app Kind.permission_denied m
upstream_error (status Code.failed_precondition m) = app Kind.failed_precondition m
upstream_error (status Code.resource_exhausted m) = app Kind.resource_exhausted m
upstream_error _ = app Kind.internal "upstream error"

-- `orgUpstreamError`, of an error that is not nil.
unfoldable pub org_upstream_error : RpcError → Failure
org_upstream_error (status Code.invalid_argument m) = app Kind.invalid_argument m
org_upstream_error (status Code.unauthenticated m) = app Kind.unauthenticated m
org_upstream_error (status Code.permission_denied m) = app Kind.permission_denied m
org_upstream_error (status Code.not_found m) = app Kind.not_found m
org_upstream_error (status Code.failed_precondition m) = app Kind.conflict m
org_upstream_error (status Code.already_exists m) = app Kind.conflict m
org_upstream_error (status Code.resource_exhausted m) = app Kind.resource_exhausted m
org_upstream_error _ = app Kind.bad_gateway "upstream error"

-- `signupUpstreamError`
unfoldable pub signup_upstream_error : RpcError → Failure
unfolding org_upstream_error
signup_upstream_error (status Code.failed_precondition m) = app Kind.not_found "not found"
signup_upstream_error e = org_upstream_error e

-- The errors of `ResolveTenant`.
unfoldable pub tenant_upstream_error : RpcError → Failure
tenant_upstream_error (status Code.not_found m) = app Kind.not_found "tenant not found"
tenant_upstream_error _ = app Kind.bad_gateway "upstream error"
