-- ===== src/Http/Tokens/Gates/Staffing.antt =====
-- Which requests the middleware `RequireStaff` lets through.
use orbit_api_gateway.Base.{
  ◌≡◌, inl, inr, refl, String, true, false, some, ◌==◌, arith, eq_iff, Bool-cases, Option-cases,
}
use orbit_api_gateway.Base.Strings.{cut_prefix}
use orbit_api_gateway.World.{World, Tick}
use orbit_api_gateway.Http.Message.{Request, Conn, HandlerFunc, get_header}
use orbit_api_gateway.Http.Tokens.{
  TokenAuth, Claims, extract_staff_identity, enrich_context, parse_token, misconfigured,
}
use orbit_api_gateway.Http.Tokens.Gates.{
  with_claims, staff_token_subject, staff_claims_gate, staff_token_gate, require_staff,
}
use orbit_api_gateway.Http.Tokens.Gates.Admission.{Gate, Gate-same, accepted-configured}

-- Why a request may reach a staff handler: an earlier gate has made it a staff member's, or its own
-- token is accepted and has the claims of a staff member.
pub data StaffBy (a : TokenAuth) (tick : Tick) (r : Request) (r' : Request) : Type 0 where
  by_context :
      misconfigured a tick ≡ false → r.context.is_staff ≡ true → r' ≡ r → StaffBy a tick r r'
  by_token :
      (token : String) (claims : Claims)
      → r.context.is_staff ≡ false
      → r.context.user_id ≡ ""
      → cut_prefix (get_header "Authorization" r) "Bearer " ≡ some token
      → parse_token a tick token ≡ some claims
      → (extract_staff_identity claims).is_staff ≡ true
      → r' ≡ with_claims claims (staff_token_subject a tick claims) r
      → StaffBy a tick r r'

pub record Staff (a : TokenAuth) (tick : Tick) (r : Request) (c : Conn) (r' : Request) (w : World)
    : Type 0 where
  pub reason : StaffBy a tick r r'
  pub marked : r'.context.is_staff ≡ true
  pub same_world : w ≡ c.world

-- The claims of a staff member mark the context.
with_claims-is_staff :
    (claims : Claims) (subject : String) (r : Request)
    → (extract_staff_identity claims).is_staff ≡ true
    → (with_claims claims subject r).context.is_staff ≡ true
unfolding with_claims enrich_context
with_claims-is_staff claims subject r h = rw h refl

module _ (a : TokenAuth) (tick : Tick) (r : Request) (c : Conn) where
  -- A request that no gate has marked is a staff member's only by its own token.
  unmarked_none :
      r.context.is_staff ≡ false
      → ((token : String) (claims : Claims)
          → r.context.user_id ≡ ""
          → cut_prefix (get_header "Authorization" r) "Bearer " ≡ some token
          → parse_token a tick token ≡ some claims
          → ¬ ((extract_staff_identity claims).is_staff ≡ true))
      → (r' : Request) (w' : World) → ¬ Staff a tick r c r' w'
  unmarked_none s refused r' w' h = elim h.reason [
    | by_context m marked same ↦ cc
    | by_token token claims unmarked u e p staff same ↦ refused token claims u e p staff
  ]

  misconfigured_none :
      misconfigured a tick ≡ true → (r' : Request) (w' : World) → ¬ Staff a tick r c r' w'
  misconfigured_none m r' w' h = elim h.reason [
    | by_context m' marked same ↦ cc
    | by_token token claims unmarked u e p staff same ↦
        cc (accepted-configured a tick token claims p)
  ]

  staff_token_gate-Gate :
      r.context.is_staff ≡ false
      → r.context.user_id ≡ ""
      → Gate (Staff a tick r c) (staff_token_gate a tick) r c
  unfolding staff_token_gate staff_claims_gate
  staff_token_gate-Gate x u =
      elim (Option-cases (cut_prefix (get_header "Authorization" r) "Bearer ")) [
        | inl e ↦ inr (
          401,
          "missing bearer token",
          c.world,
          inl refl,
          unmarked_none x (λ token claims u' e' p s. cc),
          λ next. rw (e, staff_token_gate) refl,
        )
        | inr (token, e) ↦ elim (Option-cases (parse_token a tick token)) [
          | inl p ↦ inr (
            401,
            "invalid token",
            c.world,
            inl refl,
            unmarked_none x (λ token' claims u' e' p' s. cc),
            λ next. rw (e, staff_token_gate, p) refl,
          )
          | inr (claims, p) ↦ elim (Bool-cases (extract_staff_identity claims).is_staff) [
            | inr s ↦ inr (
              403,
              "staff access required",
              c.world,
              inr (inl refl),
              unmarked_none x (λ token' claims' u' e' p' s'. cc),
              λ next. rw (e, staff_token_gate, p, s, staff_claims_gate) refl,
            )
            | inl s ↦ inl (
              with_claims claims (staff_token_subject a tick claims) r,
              c.world,
              record {
                reason = by_token token claims x u e p s refl;
                marked = with_claims-is_staff claims (staff_token_subject a tick claims) r s;
                same_world = refl;
              },
              λ next. rw (e, staff_token_gate, p, s, staff_claims_gate) refl,
            )
          ]
        ]
      ]

-- The middleware `RequireStaff` lets a request through exactly if an earlier gate has made it a staff
-- member's and a secret is set, or if its context has neither that mark nor a user id, and its token
-- is accepted and has staff claims. The request is then marked as staff. It refuses every other request, and no such
-- one, with 401, 403 or 500, whatever the handler behind it.
pub require_staff-Gate :
    (a : TokenAuth) (tick : Tick) (r : Request) (c : Conn)
    → Gate (Staff a tick r c) (require_staff a tick) r c
unfolding require_staff
require_staff-Gate a tick r c = elim (Bool-cases (misconfigured a tick)) [
  | inl m ↦ inr (
    500,
    "auth misconfigured",
    c.world,
    inr (inr refl),
    misconfigured_none a tick r c m,
    λ next. rw m refl,
  )
  | inr m ↦ elim (Bool-cases r.context.is_staff) [
    | inl s ↦ inl (
      r,
      c.world,
      record { reason = by_context m s refl; marked = s; same_world = refl },
      λ next. rw (m, s) refl,
    )
    | inr s ↦ elim (Bool-cases (r.context.user_id == "")) [
      | inr u ↦ inr (
        403,
        "staff access required",
        c.world,
        inr (inl refl),
        unmarked_none a tick r c s
            (λ token claims u' e p staff. ground (arith, eq_iff r.context.user_id "")),
        λ next. rw (m, s, u) refl,
      )
      | inl u ↦
          Gate-same (require_staff a tick) (staff_token_gate a tick) r c (λ next. rw (m, s, u) refl)
            (staff_token_gate-Gate a tick r c s (ground (arith, eq_iff r.context.user_id "")))
    ]
  ]
]

-- A request that no other gate has authenticated, with an accepted token of a staff member.
pub require_staff-token :
    (a : TokenAuth) (tick : Tick) (r : Request) (c : Conn) (next : HandlerFunc) (token : String)
    (claims : Claims)
    → r.context.is_staff ≡ false
    → r.context.user_id ≡ ""
    → cut_prefix (get_header "Authorization" r) "Bearer " ≡ some token
    → parse_token a tick token ≡ some claims
    → (extract_staff_identity claims).is_staff ≡ true
    → require_staff a tick next r c
      ≡ next (with_claims claims (staff_token_subject a tick claims) r) c
unfolding require_staff get_header
require_staff-token a tick r c next token claims s u e p staff =
    let set : misconfigured a tick ≡ false = accepted-configured a tick token claims p in
    let anonymous : (r.context.user_id == "") ≡ true =
      ground (arith, u, eq_iff r.context.user_id "") in
    rw (set, s, anonymous, staff_token_gate, e, p, staff_claims_gate, staff) refl
