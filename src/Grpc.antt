-- ===== src/Grpc.antt =====
-- The messages between the gateway and orbit-auth, as the gateway's calls show them. What
-- orbit-auth answers is an argument of the model.
use orbit_api_gateway.Base.{ℕ, String, Option}
use orbit_api_gateway.Base.Map.{Map}
use orbit_api_gateway.Json.{Json}

-- One gRPC call to orbit-auth: the method, the "authorization" metadata and the message's fields.
pub record Rpc : Type 0 where
  pub method : String
  pub authorization : Option String
  pub fields : Map String

-- gRPC status codes.
pub data Code : Type 0 where
  ok canceled unknown invalid_argument deadline_exceeded not_found already_exists : Code
  permission_denied resource_exhausted failed_precondition aborted out_of_range : Code
  unimplemented internal unavailable data_loss unauthenticated : Code

-- An error of a call: a status (`status.FromError` finds one), or any other.
pub data RpcError : Type 0 where
  status : Code → String → RpcError
  opaque : String → RpcError

pub data RpcReply : Type 0 where
  reply : Json → RpcReply
  failed : RpcError → RpcReply

-- The answer of an HTTP read: no answer, or a status and the decoded body.
pub data HttpReply : Type 0 where
  unreachable : HttpReply
  answered : ℕ → Option Json → HttpReply
