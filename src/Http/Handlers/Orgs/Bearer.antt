-- ===== src/Http/Handlers/Orgs/Bearer.antt =====
-- The organization routes act only for the caller whose token the request carries.
use Prim.Native.String.{◌++◌}
use orbit_api_gateway.Base.{
  ◌≡◌, inl, inr, refl, String, Option, none, some, List, ◌∷◌, Option-cases,
}
use orbit_api_gateway.Json.{Json}
use orbit_api_gateway.Grpc.{Rpc}
use orbit_api_gateway.Domain.Ratelimit.{Policy}
use orbit_api_gateway.Domain.Failure.{Result, ok, err}
use orbit_api_gateway.World.{World, Op, Call, rpc, rate_check}
use orbit_api_gateway.Service.Limits.Effects.{SameStores}
use orbit_api_gateway.Http.Message.{Request, Conn, get_header, ◌>>=◌, call, go, answer, finish}
use orbit_api_gateway.Http.Response.{write_json, error_body, decode_body, write_app_error}
use orbit_api_gateway.Http.Limits.{Edge, bearer_token, require_bearer}
use orbit_api_gateway.Http.Handlers.Orgs.{bearer_route, bearer_body_route}

-- The calls after some others: each is a check of a budget, or a gRPC call under this token.
pub data Under (token : String) (before : List Call) : List Call → Type 0 where
  same : Under token before before
  asked :
      {calls : List Call} (r : Rpc)
      → Under token before calls
      → r.authorization ≡ some ("Bearer " ++ token)
      → Under token before (rpc r ∷ calls)
  checked :
      {calls : List Call} (key : String) (policy : Policy)
      → Under token before calls
      → Under token before (rate_check key policy ∷ calls)

-- What an operation under a token does to the world.
pub record ActsFor (token : String) (w w' : World) : Type 0 where
  pub stores : SameStores w w'
  pub calls : Under token w.calls w'.calls

-- A request with no token is refused and changes nothing; any other acts for its token.
abbrev pub Confined : Option String → Conn → Conn → Type 0
Confined none c c' =
    c' ≡ record c { response = write_json 401 (error_body "missing bearer token") c.response }
Confined (some token) c c' = ActsFor token c.world c'.world

pub ActsFor-refl : (token : String) (w : World) → ActsFor token w w
ActsFor-refl token w = record {
  stores = record { challenges = refl; claims = refl; audit = refl };
  calls = same;
}

-- The end of a route, for the value and the world that its operation left.
answered-ActsFor :
    {A : Type 0} (document : A → Json) (token : String) (w : World) (c : Conn)
    (x : Result A × World)
    → ActsFor token w x.1
    → ActsFor token w
        (finish (
          (do
            result ← call write_app_error (λ _. x)
            answer {A = Unit {0}} (write_json 200 (document result)))
            c)).world
answered-ActsFor document token w c (ok a, w') acts = acts
answered-ActsFor document token w c (err f, w') acts = acts

-- The same, behind the decoding of a body.
decoded-ActsFor :
    {A B : Type 0} (document : A → Json) (token : String) (c : Conn) (op : B → Op A) (o : Option B)
    → ((body : B) → ActsFor token c.world (op body c.world).1)
    → ActsFor token c.world
        (finish (
          (do
            body ← λ c'. elim o [
              | none ↦ answer (write_json 400 (error_body "invalid json")) c'
              | some b ↦ go b c'
            ]
            result ← call write_app_error (op body)
            answer {A = Unit {0}} (write_json 200 (document result)))
            c)).world
decoded-ActsFor document token c op none acts = ActsFor-refl token c.world
decoded-ActsFor document token c op (some body) acts =
    answered-ActsFor document token c.world c (op body c.world) (acts body)

-- The two shapes of the routes, over an operation that acts for its token.
module _ {A : Type 0} (edge : Edge) (document : A → Json) (r : Request) (c : Conn) where
  pub bearer_route-Confined :
      (op : String → Op A)
      → ((token : String) → ActsFor token c.world (op token c.world).1)
      → Confined (bearer_token (get_header "Authorization" r)) c (bearer_route edge op document r c)
  unfolding bearer_route
  bearer_route-Confined op acts =
      elim (Option-cases (bearer_token (get_header "Authorization" r))) [
        | inl e ↦ rw (e, require_bearer) refl
        | inr (token, e) ↦
            rw (e, require_bearer)
              (answered-ActsFor document token c.world c (op token c.world) (acts token))
      ]

  pub bearer_body_route-Confined :
      {B : Type 0} (decode : Json → Option B) (op : B → String → Op A)
      → ((body : B) (token : String) → ActsFor token c.world (op body token c.world).1)
      → Confined
          (bearer_token (get_header "Authorization" r))
          c
          (bearer_body_route edge decode op document r c)
  unfolding bearer_body_route
  bearer_body_route-Confined decode op acts =
      elim (Option-cases (bearer_token (get_header "Authorization" r))) [
        | inl e ↦ rw (e, require_bearer) refl
        | inr (token, e) ↦
            rw (e, require_bearer)
              (decoded-ActsFor document token c (λ body. op body token) (decode_body decode r.body)
                (λ body. acts body token))
      ]
