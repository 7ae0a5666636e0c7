-- ===== src/Http/Handlers/Provisioning.antt =====
-- What `claim` of httpapi/handlers.go answers, by the body, the headers and the cache.
use mathlib.Core.Path.{subst}
use orbit_api_gateway.Base.{
  ◌≡◌, ◌≢◌, ◌⊎◌, inl, inr, refl, sym, String, true, false, ◌||◌, none, some, ◌==◌, arith, eq_iff,
  Bool-cases, Option-cases,
}
use orbit_api_gateway.Base.Map.{lookup, insert}
use orbit_api_gateway.Base.Strings.{trim_space}
use orbit_api_gateway.Domain.Onboarding.{ClaimInput, ClaimResult, normalize_uid}
use orbit_api_gateway.Memory.Stores.{get, put}
use orbit_api_gateway.Domain.Failure.{Kind, app, Result, ok, err}
use orbit_api_gateway.World.{World, logged, note_call}
use orbit_api_gateway.Service.Claims.{claim_key, provision, claim_as, claim}
use orbit_api_gateway.Service.Claims.Replay.{replayed}
use orbit_api_gateway.Http.Message.{Request, Conn, answer, call, ◌>>=◌, finish, get_header}
use orbit_api_gateway.Http.Response.{write_json, write_app_error, decode_body, decode_json_body}
use orbit_api_gateway.Http.Limits.{Edge}
use orbit_api_gateway.Http.Handlers.Onboarding.{decode_claim, claim_document, claim_route}
use orbit_api_gateway.Http.Handlers.Verification.{error_answer}

module _ (edge : Edge) (r : Request) (c : Conn) where
  abbrev token_in : ClaimInput → String
  token_in input = trim_space input.invite_token

  abbrev uid_in : ClaimInput → String
  uid_in input = normalize_uid edge.ports.runtime input.desired_uid

  -- The key of the claim: the header's, or else the token and the UID.
  abbrev key_in : ClaimInput → String
  key_in input = claim_key (token_in input) (uid_in input) (get_header "Idempotency-Key" r)

  -- What the request asks for.
  abbrev made_in : ClaimInput → ClaimResult
  made_in input = provision edge.ports.runtime (token_in input) (uid_in input) input

  -- The world with that in the cache, and in the log.
  abbrev provisioned_world : ClaimInput → World
  provisioned_world input =
      note_call (logged "onboard_claim_provisioned" (uid_in input))
        (record c.world { claims = insert (key_in input) (made_in input) c.world.claims })

  -- The answer to a claim, and the world after it.
  pub data ClaimOutcome : Conn → Type 0 where
    undecoded :
        decode_body decode_claim r.body ≡ none → ClaimOutcome (error_answer 400 "invalid json" c)
    blank :
        (input : ClaimInput)
        → decode_body decode_claim r.body ≡ some input
        → (token_in input ≡ "") ⊎ (uid_in input ≡ "")
        → ClaimOutcome (error_answer 400 "invite_token and desired_uid are required" c)
    replay :
        (input : ClaimInput) (first : ClaimResult)
        → decode_body decode_claim r.body ≡ some input
        → token_in input ≢ ""
        → uid_in input ≢ ""
        → lookup (key_in input) c.world.claims ≡ some first
        → ClaimOutcome (record {
          world = note_call (logged "onboard_claim_replayed" (uid_in input)) c.world;
          response = write_json 200 (claim_document (replayed first)) c.response;
        })
    provisioned :
        (input : ClaimInput)
        → decode_body decode_claim r.body ≡ some input
        → token_in input ≢ ""
        → uid_in input ≢ ""
        → lookup (key_in input) c.world.claims ≡ none
        → ClaimOutcome (record {
          world = provisioned_world input;
          response = write_json 200 (claim_document (made_in input)) c.response;
        })

  called : ClaimInput → Result ClaimResult × World
  called input = claim edge.ports.runtime input (get_header "Idempotency-Key" r) c.world

  -- What the handler makes of such a result.
  abbrev shown : Result ClaimResult × World → Conn
  shown res = finish (
      (do
        result ← call write_app_error (λ _. res)
        answer {A = Unit {0}} (write_json 200 (claim_document result)))
        c)

  called-blank :
      (input : ClaimInput)
      → (token_in input == "" || uid_in input == "") ≡ true
      → called input
        ≡ (err (app Kind.invalid_argument "invite_token and desired_uid are required"), c.world)
  unfolding called claim claim_as
  called-blank input e = rw e refl

  called-replay :
      (input : ClaimInput) (first : ClaimResult)
      → (token_in input == "" || uid_in input == "") ≡ false
      → lookup (key_in input) c.world.claims ≡ some first
      → called input
        ≡ (ok (replayed first), note_call (logged "onboard_claim_replayed" (uid_in input)) c.world)
  unfolding called claim claim_as get
  called-replay input first e found = rw (e, found) refl

  called-fresh :
      (input : ClaimInput)
      → (token_in input == "" || uid_in input == "") ≡ false
      → lookup (key_in input) c.world.claims ≡ none
      → called input ≡ (ok (made_in input), provisioned_world input)
  unfolding called claim claim_as get put
  called-fresh input e fresh = rw (e, fresh) refl

  called-ClaimOutcome :
      (input : ClaimInput)
      → decode_body decode_claim r.body ≡ some input
      → ClaimOutcome (shown (called input))
  unfolding write_app_error
  called-ClaimOutcome input d =
      let token = token_in input in
      let uid = uid_in input in
      elim (Bool-cases (token == "" || uid == "")) [
        | inl e ↦
            subst (λ res. ClaimOutcome (shown res)) (sym (called-blank input e))
              (blank input d (ground (arith, eq_iff token "", eq_iff uid "")))
        | inr e ↦
            let has_token : token ≢ "" = ground (arith, eq_iff token "") in
            let has_uid : uid ≢ "" = ground (arith, eq_iff uid "") in
            elim (Option-cases (lookup (key_in input) c.world.claims)) [
              | inl fresh ↦
                  subst (λ res. ClaimOutcome (shown res)) (sym (called-fresh input e fresh))
                    (provisioned input d has_token has_uid fresh)
              | inr (first, found) ↦
                  subst (λ res. ClaimOutcome (shown res)) (sym (called-replay input first e found))
                    (replay input first d has_token has_uid found)
            ]
      ]

-- The onboarding route answers 400 to a body that is no such document, and to one with a blank token
-- or UID. Otherwise it answers 200: with the claim that is in the cache under its key, marked as a
-- replay, or with the claim that the request asks for, which it puts there. Nothing else of the
-- world changes, but for a line of the log.
pub claim_route-ClaimOutcome :
    (edge : Edge) (r : Request) (c : Conn) → ClaimOutcome edge r c (claim_route edge r c)
unfolding claim_route called
claim_route-ClaimOutcome edge r c = elim (Option-cases (decode_body decode_claim r.body)) [
  | inl e ↦ rw (e, decode_json_body) (undecoded e)
  | inr (input, e) ↦ rw (e, decode_json_body) (called-ClaimOutcome edge r c input e)
]
