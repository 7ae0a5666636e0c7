-- ===== src/Http/Beside.antt =====
-- What a request does besides using the stores: it makes calls, and those that carry a token carry
-- the one that the request came with.
use Prim.Native.String.{◌++◌}
use orbit_api_gateway.Base.{
  ◌≡◌, refl, inl, inr, String, Option, none, some, List, ◌∷◌, ◌==◌, Bool-cases,
}
use orbit_api_gateway.Base.Strings.{trim_space}
use orbit_api_gateway.Grpc.{Rpc}
use orbit_api_gateway.Domain.Runtime.{Runtime}
use orbit_api_gateway.Domain.Ratelimit.{
  Policy, Decision, identifier_key, otp_request_identifier_policy,
}
use orbit_api_gateway.Domain.Failure.{Result, ok, err}
use orbit_api_gateway.World.{
  World, Op, Call, rate_check, rpc, http_get, logged, Limiter, note_call, pure, ◌>>=◌,
}
use orbit_api_gateway.Service.Limits.{settle, allow, check_identifier_limit}
use orbit_api_gateway.Service.Limits.Effects.{SameStores, SameStores-refl, SameStores-trans}
use orbit_api_gateway.Http.Message.{Conn}
use orbit_api_gateway.Http.Handlers.Orgs.Bearer.{Under, same, asked, checked, Confined}

-- A call that carries no token.
abbrev pub IsPlain : Call → Type 0
IsPlain (rpc r) = r.authorization ≡ none
IsPlain (rate_check key policy) = Unit
IsPlain (http_get url) = Unit
IsPlain (logged message uid) = Unit

-- The calls after some others: each carries no token, or the caller's.
pub data Sent (caller : Option String) (before : List Call) : List Call → Type 0 where
  no_call : Sent caller before before
  plain_call :
      {calls : List Call} (call : Call)
      → Sent caller before calls
      → IsPlain call
      → Sent caller before (call ∷ calls)
  own_call :
      {calls : List Call} (r : Rpc) (token : String)
      → Sent caller before calls
      → caller ≡ some token
      → r.authorization ≡ some ("Bearer " ++ token)
      → Sent caller before (rpc r ∷ calls)

pub Sent-trans :
    {caller : Option String} (before between after : List Call)
    → Sent caller before between
    → Sent caller between after
    → Sent caller before after
Sent-trans before between _ first no_call = first
Sent-trans before between _ first (plain_call {calls} call rest plain) =
    plain_call call (Sent-trans before between calls first rest) plain
Sent-trans before between _ first (own_call {calls} r token rest mine e) =
    own_call r token (Sent-trans before between calls first rest) mine e

-- The stores stay, and the calls are the caller's.
pub record Beside (caller : Option String) (w w' : World) : Type 0 where
  pub stores : SameStores w w'
  pub calls : Sent caller w.calls w'.calls

module _ (caller : Option String) where
  pub Beside-refl : (w : World) → Beside caller w w
  Beside-refl w = record { stores = SameStores-refl w; calls = no_call }

  pub Beside-trans : (u v w : World) → Beside caller u v → Beside caller v w → Beside caller u w
  Beside-trans u v w first second = record {
    stores = SameStores-trans u v w first.stores second.stores;
    calls = Sent-trans u.calls v.calls w.calls first.calls second.calls;
  }

  pub noted-Beside : (call : Call) (w : World) → IsPlain call → Beside caller w (note_call call w)
  noted-Beside call w plain = record {
    stores = record { challenges = refl; claims = refl; audit = refl };
    calls = plain_call call no_call plain;
  }

  -- An operation goes on with another.
  pub bound-Beside :
      {A B : Type 0} (k : A → Op B) (w : World) (x : Result A × World)
      → Beside caller w x.1
      → ((a : A) (w' : World) → Beside caller w' (k a w').1)
      → Beside caller w (((λ _. x) >>= k) w).1
  bound-Beside k w (ok a, w') here rest = Beside-trans w w' (k a w').1 here (rest a w')
  bound-Beside k w (err f, w') here rest = here

  settled-Beside :
      (w : World) (o : Option Decision) (w' : World)
      → Beside caller w w'
      → Beside caller w (settle o w').1
  unfolding settle
  settled-Beside w none w' here = here
  settled-Beside w (some d) w' here = here

  pub allow-Beside :
      (limiter : Limiter) (key : String) (policy : Policy) (w : World)
      → Beside caller w (allow limiter key policy w).1
  unfolding allow
  allow-Beside limiter key policy w =
      settled-Beside w (limiter w.calls key policy) (note_call (rate_check key policy) w)
        (noted-Beside (rate_check key policy) w tt)

  pub check_identifier_limit-Beside :
      (rt : Runtime) (limiter : Option Limiter) (identifier : String) (w : World)
      → Beside caller w (check_identifier_limit rt limiter identifier w).1
  unfolding check_identifier_limit
  check_identifier_limit-Beside rt none identifier w = Beside-refl w
  check_identifier_limit-Beside rt (some limiter) identifier w =
      elim (Bool-cases (trim_space identifier == "")) [
        | inl e ↦ rw e (Beside-refl w)
        | inr e ↦ rw e (
            bound-Beside (λ d. pure (some d)) w
              (allow limiter (identifier_key rt identifier) otp_request_identifier_policy w)
              (allow-Beside limiter (identifier_key rt identifier) otp_request_identifier_policy w)
              (λ d w'. Beside-refl w'))
      ]

Under-Sent :
    (token : String) (before after : List Call)
    → Under token before after
    → Sent (some token) before after
Under-Sent token before _ same = no_call
Under-Sent token before _ (asked {calls} r under e) =
    own_call r token (Under-Sent token before calls under) refl e
Under-Sent token before _ (checked {calls} key policy under) =
    plain_call (rate_check key policy) (Under-Sent token before calls under) tt

-- A route that is confined to its caller.
pub Confined-Beside :
    (o : Option String) (c c' : Conn) → Confined o c c' → Beside o c.world c'.world
Confined-Beside none c c' same_world = rw same_world (Beside-refl none c.world)
Confined-Beside (some token) c c' acts = record {
  stores = acts.stores;
  calls = Under-Sent token c.world.calls c'.world.calls acts.calls;
}
