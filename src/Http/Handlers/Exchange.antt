-- ===== src/Http/Handlers/Exchange.antt =====
-- What `verifyOTP`, `login` and `refreshToken` of httpapi/handlers.go answer, by the body and by the
-- reply of orbit-auth.
use mathlib.Core.Path.{subst}
use orbit_api_gateway.Base.{
  ◌≡◌, sym, refl, String, none, some, inl, inr, Option, [], ◌∷◌, Option-cases,
}
use orbit_api_gateway.Json.{Json, field}
use orbit_api_gateway.Grpc.{Rpc, RpcReply, reply, failed, status, opaque, Code}
use orbit_api_gateway.Domain.Auth.{TokenPair, OtpVerification, PasswordLogin}
use orbit_api_gateway.World.{rpc, note_call}
use orbit_api_gateway.Upstream.Client
use orbit_api_gateway.Upstream.Client.{receive, invoke, plain_rpc}
use orbit_api_gateway.Upstream.Convert.{token_pair}
use orbit_api_gateway.Upstream.Status.{upstream_error}
use orbit_api_gateway.Upstream.Services.{auth_service}
use orbit_api_gateway.Service.Otp.{identifier_or, login}
use orbit_api_gateway.Service.Passed.{verify_otp, refresh_token}
use orbit_api_gateway.Http.Message.{Request, Conn, answer, call, ◌>>=◌, finish}
use orbit_api_gateway.Http.Response.{decode_body, decode_json_body, write_app_error}
use orbit_api_gateway.Http.Response.Rendering.{auth_status, Shown, upstream_error-rendered}
use orbit_api_gateway.Http.Limits.{Edge}
use orbit_api_gateway.Http.Handlers.Auth.{
  decode_otp_verify, decode_login, decode_refresh, write_tokens, token_route, verify_otp_route,
  login_route, refresh_token_route,
}
use orbit_api_gateway.Http.Handlers.Verification.{error_answer}

-- The calls of the three methods.
abbrev pub verify_rpc : OtpVerification → Rpc
verify_rpc i = plain_rpc "VerifyOTP" (
    ("identifier", i.identifier)
    ∷ ("channel", i.channel)
    ∷ ("email", i.email)
    ∷ ("code", i.code)
    ∷ [])

abbrev pub login_rpc : PasswordLogin → Rpc
login_rpc i =
    plain_rpc "LoginWithPassword"
      (("identifier", identifier_or i.identifier i.email) ∷ ("password", i.password) ∷ [])

abbrev pub refresh_rpc : String → Rpc
refresh_rpc token = plain_rpc "RefreshToken" (("refresh_token", token) ∷ [])

abbrev pub nested_tokens : Json → TokenPair
nested_tokens m = token_pair (field "tokens" m)

module _ (edge : Edge) {A : Type 0} (decode : Json → Option A) (ask : A → Rpc)
    (tokens : Json → TokenPair) (r : Request) (c : Conn) where
  -- The answer to a body that is exchanged for tokens, and the world after it.
  pub data Exchanged : Conn → Type 0 where
    undecoded : decode_body decode r.body ≡ none → Exchanged (error_answer 400 "invalid json" c)
    granted :
        (body : A) (message : Json)
        → decode_body decode r.body ≡ some body
        → edge.ports.upstream c.world.calls (ask body) ≡ reply message
        → Exchanged (record {
          world = note_call (rpc (ask body)) c.world;
          response = write_tokens (tokens message) c.response;
        })
    refused :
        (body : A) (code : Code) (message : String)
        → decode_body decode r.body ≡ some body
        → edge.ports.upstream c.world.calls (ask body) ≡ failed (status code message)
        → Exchanged (record {
          world = note_call (rpc (ask body)) c.world;
          response = Shown 500 (auth_status code) message c.response;
        })
    broken :
        (body : A) (message : String)
        → decode_body decode r.body ≡ some body
        → edge.ports.upstream c.world.calls (ask body) ≡ failed (opaque message)
        → Exchanged (record {
          world = note_call (rpc (ask body)) c.world;
          response = Shown 500 none message c.response;
        })

  -- What the handler makes of a reply.
  abbrev answered : A → RpcReply → Conn
  answered body o = finish (
      (do
        p ←
            call write_app_error
              (λ w. (receive upstream_error tokens o, note_call (rpc (ask body)) w))
        answer {A = Unit {0}} (write_tokens p))
        c)

  answered-Exchanged :
      (body : A) (o : RpcReply)
      → decode_body decode r.body ≡ some body
      → edge.ports.upstream c.world.calls (ask body) ≡ o
      → Exchanged (answered body o)
  unfolding receive write_app_error upstream_error
  answered-Exchanged body (reply message) d e = granted body message d e
  answered-Exchanged body (failed (status code message)) d e =
      subst
        (λ shown.
          Exchanged (record { world = note_call (rpc (ask body)) c.world; response = shown }))
        (sym (upstream_error-rendered code message c.response)) (refused body code message d e)
  answered-Exchanged body (failed (opaque message)) d e = broken body message d e

  token_route-Exchanged :
      Exchanged
        (token_route edge decode (λ body. invoke edge.ports upstream_error tokens (ask body)) r c)
  unfolding token_route invoke
  token_route-Exchanged = elim (Option-cases (decode_body decode r.body)) [
    | inl e ↦ rw (e, decode_json_body) (undecoded e)
    | inr (body, e) ↦
        rw (e, decode_json_body)
          (answered-Exchanged body (edge.ports.upstream c.world.calls (ask body)) e refl)
  ]

-- The routes that verify a one-time password, log in, and refresh a token answer 400 to a body that
-- is no such document. Otherwise each makes the one call of its method with what the body says, and
-- the reply alone decides: tokens are answered with 200, a status of orbit-auth with the HTTP status
-- of its code and orbit-auth's own message, and a code without one, or any other error, with 500
-- and a text that says nothing of it. Nothing but the call is left in the world.
pub token_routes-Exchanged :
    (edge : Edge) (r : Request) (c : Conn)
    → Exchanged edge decode_otp_verify verify_rpc nested_tokens r c (verify_otp_route edge r c)
      × Exchanged edge decode_login login_rpc token_pair r c (login_route edge r c)
      × Exchanged edge decode_refresh refresh_rpc token_pair r c (refresh_token_route edge r c)
unfolding verify_otp_route login_route refresh_token_route verify_otp login refresh_token
    auth_service Client.verify_otp Client.login_with_password Client.refresh_token
token_routes-Exchanged edge r c = (
  token_route-Exchanged edge decode_otp_verify verify_rpc nested_tokens r c,
  token_route-Exchanged edge decode_login login_rpc token_pair r c,
  token_route-Exchanged edge decode_refresh refresh_rpc token_pair r c,
)
