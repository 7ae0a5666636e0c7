-- ===== src/Http/Tokens/Gates/Admission.antt =====
-- Which requests the gates of httpapi/middleware.go let through, and with which context.
use orbit_api_gateway.Base.{
  ℕ, ◌≡◌, ◌∙◌, ◌≢◌, ◌↔◌, ◌⊎◌, inl, inr, refl, String, true, false, not, ◌&&◌, Option, none, some,
  ◌==◌, arith, eq_iff, if◌then◌else◌, Bool-cases, Option-cases,
}
use orbit_api_gateway.Base.Strings.{has_prefix, cut_prefix}
use orbit_api_gateway.Domain.Failure.{ok}
use orbit_api_gateway.Domain.Auth.{ApiIdentity}
use orbit_api_gateway.World.{World, Tick}
use orbit_api_gateway.Service.Passed.{validate_api_token}
use orbit_api_gateway.Http.Message.{Context, Request, Conn, HandlerFunc, get_header}
use orbit_api_gateway.Http.Tokens.{
  TokenAuth, Claims, extract_staff_identity, enrich_context, scopes_allow, refuse, parse_with,
  parse_token, jwt_subject, misconfigured,
}
use orbit_api_gateway.Http.Tokens.Gates.{with_claims, jwt}

-- A token that is accepted under a secret.
pub record Accepted (a : TokenAuth) (tick : Tick) (secret token : String) (claims : Claims)
    : Type 0 where
  pub configured : secret ≢ ""
  pub decoded : a.ports.runtime.jwt_decode token ≡ some ("HS256", claims)
  pub signed : a.ports.runtime.jwt_signed secret token ≡ true
  pub current : a.ports.runtime.jwt_current tick.now claims ≡ true

-- What one round of the parser says of a token.
pub parse_with_iff :
    (a : TokenAuth) (tick : Tick) (secret token : String) (claims : Claims)
    → (parse_with a tick secret token ≡ some claims) ↔ Accepted a tick secret token claims
unfolding parse_with
parse_with_iff a tick secret token claims = (
  λ e. record {
    configured = ground (arith, eq_iff secret "");
    decoded = elim (Option-cases (a.ports.runtime.jwt_decode token)) [
      | inl d ↦ ground (arith, eq_iff secret "")
      | inr ((alg, found), d) ↦ ground (arith, eq_iff secret "", eq_iff alg "HS256")
    ];
    signed = ground (arith, eq_iff secret "");
    current = ground (arith, eq_iff secret "");
  },
  λ h. ground (arith, eq_iff secret "", h.configured, h.decoded, h.signed, h.current),
)

-- Trying a second secret where the first fails finds what either finds.
either_iff :
    (s t : String) (round : String → Option Claims) (claims : Claims)
    → round "" ≡ none
    → ((x y : Claims) → round s ≡ some x → round t ≡ some y → x ≡ y)
    → (elim (round s) [
      | some found ↦ some found
      | none ↦ if not (t == "") && not (t == s) then round t else none
    ]
        ≡ some claims)
      ↔ ((round s ≡ some claims) ⊎ (round t ≡ some claims))
either_iff s t round claims blank same = elim (Option-cases (round s)) [
  | inl p ↦ (
    λ e. inr ground (arith, p, eq_iff t "", eq_iff t s),
    λ h. ground (arith, p, blank, eq_iff t "", eq_iff t s),
  )
  | inr (found, p) ↦ (
    λ e. inl ground (arith, p),
    λ h. elim h [ inl f ↦ ground (arith, p) | inr f ↦ ground (arith, p, same found claims p f) ],
  )
]

-- The parser accepts a token exactly if it is an HS256 token with these claims, current, and signed
-- under the secret or under the staff secret, which is not empty.
pub parse_token_iff :
    (a : TokenAuth) (tick : Tick) (token : String) (claims : Claims)
    → (parse_token a tick token ≡ some claims)
      ↔ (Accepted a tick a.secret token claims ⊎ Accepted a tick a.staff_secret token claims)
unfolding parse_token
parse_token_iff a tick token claims =
    let first = parse_with_iff a tick a.secret token in
    let second = parse_with_iff a tick a.staff_secret token in
    let either =
      either_iff a.secret a.staff_secret (λ s. parse_with a tick s token) claims refl
        (λ x y e f. ground (arith, ((first x).0 e).decoded, ((second y).0 f).decoded)) in
    (
      λ e. elim (either.0 e) [
        | inl f ↦ inl ((first claims).0 f)
        | inr f ↦ inr ((second claims).0 f)
      ],
      λ h.
          either.1
            (elim h [ inl f ↦ inl ((first claims).1 f) | inr f ↦ inr ((second claims).1 f) ]),
    )

-- A token that is accepted needs a secret.
pub accepted-configured :
    (a : TokenAuth) (tick : Tick) (token : String) (claims : Claims)
    → parse_token a tick token ≡ some claims
    → misconfigured a tick ≡ false
accepted-configured a tick token claims p = elim ((parse_token_iff a tick token claims).0 p) [
  | inl h ↦ ground (arith, h.configured, eq_iff a.secret "")
  | inr h ↦ ground (arith, h.configured, eq_iff a.staff_secret "")
]

-- A gate lets a request through, as another request and in a world with this property, whatever the
-- handler behind it; or there is no such request and world, and it refuses the request, so that the
-- handler does not run.
abbrev pub Gate : (Request → World → Type 0) → (HandlerFunc → HandlerFunc) → Request → Conn → Type 0
Gate Admitted gate r c =
    ((r' : Request) × (w : World) × Admitted r' w
      × ((next : HandlerFunc) → gate next r c ≡ next r' (record c { world = w })))
    ⊎ ((status : ℕ) × (message : String) × (w : World) × ((status ≡ 401)
          ⊎ (status ≡ 403)
          ⊎ (status ≡ 500))
        × ((r' : Request) (w' : World) → ¬ Admitted r' w')
        × ((next : HandlerFunc) → gate next r c ≡ refuse status message w c))

-- A gate that hands a request to another gate lets through what that one does.
pub Gate-same :
    {Admitted : Request → World → Type 0} (gate inner : HandlerFunc → HandlerFunc) (r : Request)
    (c : Conn)
    → ((next : HandlerFunc) → gate next r c ≡ inner next r c)
    → Gate Admitted inner r c
    → Gate Admitted gate r c
Gate-same gate inner r c same (inl (r', w, admitted, runs)) =
    inl (r', w, admitted, λ next. same next ∙ runs next)
Gate-same gate inner r c same (inr (status, message, w, refused, none_fits, answers)) =
    inr (status, message, w, refused, none_fits, λ next. same next ∙ answers next)

-- The caller that a request has, with the context it is given.
pub data Authenticated (a : TokenAuth) (tick : Tick) (r : Request) (w : World) (context : Context)
    (w' : World) : Type 0 where
  by_jwt :
      (token : String) (claims : Claims)
      → cut_prefix (get_header "Authorization" r) "Bearer " ≡ some token
      → has_prefix token "oat_" ≡ false
      → parse_token a tick token ≡ some claims
      → context ≡ enrich_context claims (jwt_subject a tick claims) r.context
      → w' ≡ w
      → Authenticated a tick r w context w'
  by_api_token :
      (token : String) (identity : ApiIdentity)
      → cut_prefix (get_header "Authorization" r) "Bearer " ≡ some token
      → has_prefix token "oat_" ≡ true
      → misconfigured a tick ≡ false
      → (validate_api_token a.ports token w).0 ≡ ok identity
      → scopes_allow a.ports.runtime r.method identity.scopes ≡ true
      → context ≡ record r.context {
        user_id = identity.user_id;
        is_staff = false;
        scopes = some identity.scopes;
      }
      → w' ≡ (validate_api_token a.ports token w).1
      → Authenticated a tick r w context w'

-- The claims decide the user of a context.
pub enrich_context-user_id :
    (claims : Claims) (subject : String) (ctx : Context)
    → (enrich_context claims subject ctx).user_id ≡ subject
unfolding enrich_context
enrich_context-user_id claims subject ctx =
    elim (Bool-cases (extract_staff_identity claims).is_staff) [
      | inl e ↦ rw e refl
      | inr e ↦ rw e refl
    ]

-- A request whose token is accepted, as the next handler sees it.
pub record ByJwt (a : TokenAuth) (tick : Tick) (r : Request) (w : World) (r' : Request) (w' : World)
    : Type 0 where
  pub token : String
  pub claims : Claims
  pub bearer : cut_prefix (get_header "Authorization" r) "Bearer " ≡ some token
  pub accepted : parse_token a tick token ≡ some claims
  pub context : r'.context ≡ enrich_context claims (jwt_subject a tick claims) r.context
  pub headers : r'.headers ≡ r.headers
  pub world : w' ≡ w

-- The middleware `JWT` lets a request through exactly if its bearer token is accepted; the request then
-- has the context that the claims give it, with its headers and the world unchanged. It refuses
-- every other request, and no such one, with 401, 403 or 500, whatever the handler behind it.
pub jwt-Gate :
    (a : TokenAuth) (tick : Tick) (r : Request) (c : Conn)
    → Gate (ByJwt a tick r c.world) (jwt a tick) r c
unfolding jwt with_claims
jwt-Gate a tick r c = elim (Bool-cases (misconfigured a tick)) [
  | inl m ↦ inr (
    500,
    "auth misconfigured",
    c.world,
    inr (inr refl),
    λ r' w' h. cc (accepted-configured a tick h.token h.claims h.accepted),
    λ next. rw m refl,
  )
  | inr m ↦ elim (Option-cases (cut_prefix (get_header "Authorization" r) "Bearer ")) [
    | inl e ↦ inr (
      401,
      "missing bearer token",
      c.world,
      inl refl,
      λ r' w' h. cc h.bearer,
      λ next. rw (m, e) refl,
    )
    | inr (token, e) ↦ elim (Option-cases (parse_token a tick token)) [
      | inl p ↦ inr (
        401,
        "invalid token",
        c.world,
        inl refl,
        λ r' w' h. cc (h.bearer, h.accepted),
        λ next. rw (m, e, p) refl,
      )
      | inr (claims, p) ↦ inl (
        with_claims claims (jwt_subject a tick claims) r,
        c.world,
        record {
          token = token;
          claims = claims;
          bearer = e;
          accepted = p;
          context = refl;
          headers = refl;
          world = refl;
        },
        λ next. rw (m, e, p) refl,
      )
    ]
  ]
]
