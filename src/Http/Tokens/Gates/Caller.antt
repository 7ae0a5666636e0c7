-- ===== src/Http/Tokens/Gates/Caller.antt =====
-- Which requests the middleware `Dual` lets through, and for which caller.
use orbit_api_gateway.Base.{
  ◌≡◌, ◌∙◌, ◌⊎◌, inl, inr, refl, sym, ap, String, true, false, none, some, eq_refl, Bool-cases,
  Option-cases,
}
use orbit_api_gateway.Base.Map.{lookup-insert}
use orbit_api_gateway.Base.Strings.{has_prefix, cut_prefix}
use orbit_api_gateway.Domain.Failure.{Failure, Result, ok, err}
use orbit_api_gateway.Domain.Auth.{ApiIdentity}
use orbit_api_gateway.World.{World, Tick}
use orbit_api_gateway.Service.Passed.{validate_api_token}
use orbit_api_gateway.Http.Message.{Request, Conn, get_header, set_request_header}
use orbit_api_gateway.Http.Tokens.{TokenAuth, scopes_allow, parse_token, jwt_subject, misconfigured}
use orbit_api_gateway.Http.Tokens.Gates.{
  with_api_identity, with_claims, api_token_gate, dual_jwt_gate, dual,
}
use orbit_api_gateway.Http.Tokens.Gates.Admission.{
  Gate, Gate-same, Authenticated, by_jwt, by_api_token, accepted-configured, enrich_context-user_id,
}

-- A caller who is authenticated, and whom the header that upstream services read names.
pub record Named (a : TokenAuth) (tick : Tick) (r : Request) (w : World) (r' : Request) (w' : World)
    : Type 0 where
  pub caller : Authenticated a tick r w r'.context w'
  pub header : get_header "X-User-Id" r' ≡ r'.context.user_id

-- A header that was set is the one that is read.
pub get_header-set :
    (name value : String) (r : Request) → get_header name (set_request_header name value r) ≡ value
unfolding get_header set_request_header
get_header-set name value r = rw (lookup-insert name name value r.headers, eq_refl name) refl

Result-cases : {A : Type 0} (x : Result A) → ((a : A) × (x ≡ ok a)) ⊎ ((f : Failure) × (x ≡ err f))
Result-cases (ok a) = inl (a, refl)
Result-cases (err f) = inr (f, refl)

some_inj : {A : Type 0} {x y : A} → some x ≡ some y → x ≡ y
some_inj {x} e = ap (λ o. elim o [ none ↦ x | some z ↦ z ]) e

ok_inj : {A : Type 0} {x y : A} → ok x ≡ ok y → x ≡ y
ok_inj {x} e = ap (λ o. elim o [ ok z ↦ z | err f ↦ x ]) e

module _ (a : TokenAuth) (tick : Tick) (r : Request) (c : Conn) where
  -- Without a secret there is no caller.
  misconfigured_none :
      misconfigured a tick ≡ true → (r' : Request) (w' : World) → ¬ Named a tick r c.world r' w'
  misconfigured_none m r' w' h = elim h.caller [
    | by_jwt token claims e o p x y ↦ cc (accepted-configured a tick token claims p)
    | by_api_token token identity e o m' v s x y ↦ cc
  ]

  -- Without a bearer token there is no caller.
  bearer_none :
      cut_prefix (get_header "Authorization" r) "Bearer " ≡ none
      → (r' : Request) (w' : World) → ¬ Named a tick r c.world r' w'
  bearer_none n r' w' h = elim h.caller [
    | by_jwt token claims e o p x y ↦ cc
    | by_api_token token identity e o m' v s x y ↦ cc
  ]

module _ (a : TokenAuth) (tick : Tick) (r : Request) (c : Conn) (token : String)
    (e : cut_prefix (get_header "Authorization" r) "Bearer " ≡ some token) where
  -- An API token that is not valid, or whose scopes do not allow the method, has no caller.
  api_token_none :
      has_prefix token "oat_" ≡ true
      → ((identity : ApiIdentity)
          → (validate_api_token a.ports token c.world).0 ≡ ok identity
          → ¬ (scopes_allow a.ports.runtime r.method identity.scopes ≡ true))
      → (r' : Request) (w' : World) → ¬ Named a tick r c.world r' w'
  api_token_none h refused r' w' n = elim n.caller [
    | by_jwt token' claims e' o p x y ↦
        let same : token' ≡ token = some_inj (sym e' ∙ e) in cc (rw same at o)
    | by_api_token token' identity e' o m' v s x y ↦
        let same : token' ≡ token = some_inj (sym e' ∙ e) in refused identity (rw same at v) s
  ]

  jwt_none :
      has_prefix token "oat_" ≡ false
      → parse_token a tick token ≡ none
      → (r' : Request) (w' : World) → ¬ Named a tick r c.world r' w'
  jwt_none h failed r' w' n = elim n.caller [
    | by_jwt token' claims e' o p x y ↦
        let same : token' ≡ token = some_inj (sym e' ∙ e) in cc (rw same at p)
    | by_api_token token' identity e' o m' v s x y ↦
        let same : token' ≡ token = some_inj (sym e' ∙ e) in cc (rw same at o)
  ]

  api_token_gate-Gate :
      misconfigured a tick ≡ false
      → has_prefix token "oat_" ≡ true
      → Gate (Named a tick r c.world) (api_token_gate a tick token) r c
  unfolding api_token_gate with_api_identity get_header
  api_token_gate-Gate m h =
      let world = (validate_api_token a.ports token c.world).1 in
      elim (Result-cases (validate_api_token a.ports token c.world).0) [
        | inr (f, x) ↦ inr (
          401,
          "invalid token",
          world,
          inl refl,
          api_token_none h (λ identity v s. cc),
          λ next. rw (x, api_token_gate) refl,
        )
        | inl (identity, x) ↦
            elim (Bool-cases (scopes_allow a.ports.runtime r.method identity.scopes)) [
              | inr s ↦ inr (
                403,
                "insufficient scope",
                world,
                inr (inl refl),
                api_token_none h (λ found v ok_scopes. cc (rw (ok_inj (sym v ∙ x)) at ok_scopes)),
                λ next. rw (x, api_token_gate, s) refl,
              )
              | inl s ↦ inl (
                with_api_identity identity r,
                world,
                record {
                  caller = by_api_token token identity e h m x s refl refl;
                  header = get_header-set "X-User-Id" identity.user_id r;
                },
                λ next. rw (x, api_token_gate, s) refl,
              )
            ]
      ]

  dual_jwt_gate-Gate :
      has_prefix token "oat_" ≡ false
      → Gate (Named a tick r c.world) (dual_jwt_gate a tick token) r c
  unfolding dual_jwt_gate with_claims get_header
  dual_jwt_gate-Gate h = elim (Option-cases (parse_token a tick token)) [
    | inl p ↦
        inr (
          401,
          "invalid token",
          c.world,
          inl refl,
          jwt_none h p,
          λ next. rw (p, dual_jwt_gate) refl,
        )
    | inr (claims, p) ↦
        let subject = jwt_subject a tick claims in
        inl (
          with_claims claims subject (set_request_header "X-User-Id" subject r),
          c.world,
          record {
            caller = by_jwt token claims e h p refl refl;
            header =
                get_header-set "X-User-Id" subject r
                ∙ sym (enrich_context-user_id claims subject r.context);
          },
          λ next. rw (p, dual_jwt_gate) refl,
        )
  ]

-- The middleware `Dual` lets a request through exactly for a caller whom an accepted token, or an
-- API token whose scopes allow the method, identifies: the context then has this caller, and the
-- header X-User-Id, whatever the client sent, names the same user. It refuses every other request,
-- and no such one, with 401, 403 or 500, whatever the handler behind it.
pub dual-Gate :
    (a : TokenAuth) (tick : Tick) (r : Request) (c : Conn)
    → Gate (Named a tick r c.world) (dual a tick) r c
unfolding dual
dual-Gate a tick r c = elim (Bool-cases (misconfigured a tick)) [
  | inl m ↦ inr (
    500,
    "auth misconfigured",
    c.world,
    inr (inr refl),
    misconfigured_none a tick r c m,
    λ next. rw m refl,
  )
  | inr m ↦ elim (Option-cases (cut_prefix (get_header "Authorization" r) "Bearer ")) [
    | inl e ↦ inr (
      401,
      "missing bearer token",
      c.world,
      inl refl,
      bearer_none a tick r c e,
      λ next. rw (m, e) refl,
    )
    | inr (token, e) ↦ elim (Bool-cases (has_prefix token "oat_")) [
      | inl h ↦
          Gate-same (dual a tick) (api_token_gate a tick token) r c (λ next. rw (m, e, h) refl)
            (api_token_gate-Gate a tick r c token e m h)
      | inr h ↦
          Gate-same (dual a tick) (dual_jwt_gate a tick token) r c (λ next. rw (m, e, h) refl)
            (dual_jwt_gate-Gate a tick r c token e h)
    ]
  ]
]
