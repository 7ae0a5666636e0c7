-- ===== src/Service/Claims/Replay.antt =====
-- What `Claim` of application/onboarding.go answers, and what it stores.
use orbit_api_gateway.Base.{
  ◌≡◌, ◌≢◌, ◌∙◌, ap, ◌⊎◌, inl, inr, refl, String, true, false, ◌||◌, eq_iff, eq_refl, ◌==◌, none,
  some, arith, Bool-cases, Option-cases,
}
use orbit_api_gateway.Base.Strings.{trim_space}
use orbit_api_gateway.Base.Map.{lookup, insert, lookup-insert}
use orbit_api_gateway.Domain.Runtime.{Runtime}
use orbit_api_gateway.Domain.Failure.{Result, ok, err}
use orbit_api_gateway.Domain.Onboarding.{ClaimInput, ClaimResult, normalize_uid}
use orbit_api_gateway.Memory.Stores.{get, put}
use orbit_api_gateway.World.{World}
use orbit_api_gateway.Service.Claims.{claim_key, provision, claim_as, claim}

abbrev pub replayed : ClaimResult → ClaimResult
replayed r = record r { idempotent_replay = true }

-- The stores that a claim leaves alone.
pub record SameOthers (w w' : World) : Type 0 where
  pub challenges : w'.challenges ≡ w.challenges
  pub audit : w'.audit ≡ w.audit

module _ (rt : Runtime) where
  -- The answer to a claim, and what it leaves in the cache.
  abbrev pub Answer :
      String → String → ClaimInput → String → World → Result ClaimResult × World → Type 0
  Answer token uid input key w (ok r, w') =
      (token ≢ "")
      × (uid ≢ "")
      × SameOthers w w'
      × (((lookup key w.claims ≡ none)
            × (r ≡ provision rt token uid input)
            × (w'.claims ≡ insert key r w.claims))
          ⊎ ((first : ClaimResult) × (lookup key w.claims ≡ some first)
              × (r ≡ replayed first)
              × (w'.claims ≡ w.claims)))
  Answer token uid input key w (err f, w') = ((token ≡ "") ⊎ (uid ≡ "")) × (w' ≡ w)

  claim_as-Answer :
      (token uid : String) (input : ClaimInput) (idempotency_key : String) (w : World)
      → Answer token uid input
          (claim_key token uid idempotency_key)
          w
          (claim_as rt token uid input idempotency_key w)
  unfolding claim_as get put
  claim_as-Answer token uid input idempotency_key w =
      let key = claim_key token uid idempotency_key in
      elim (Bool-cases (token == "" || uid == "")) [
        | inl blank ↦ rw blank (ground (arith, eq_iff token "", eq_iff uid ""), refl)
        | inr filled ↦
            let filled_token : token ≢ "" = ground (arith, eq_iff token "") in
            let filled_uid : uid ≢ "" = ground (arith, eq_iff uid "") in
            elim (Option-cases (lookup key w.claims)) [
              | inl e ↦
                  rw (filled, e)
                    (
                      filled_token,
                      filled_uid,
                      record { challenges = refl; audit = refl },
                      inl (e, refl, refl),
                    )
              | inr (c, e) ↦
                  rw (filled, e)
                    (
                      filled_token,
                      filled_uid,
                      record { challenges = refl; audit = refl },
                      inr (c, e, refl, refl),
                    )
            ]
      ]

  -- `Claim` refuses a blank token or UID and changes nothing. Otherwise it answers with the claim
  -- that is cached under its key, marked as a replay, or derives the claim and caches it there.
  pub claim-Answer :
      (input : ClaimInput) (idempotency_key : String) (w : World)
      → let token = trim_space input.invite_token in
        let uid = normalize_uid rt input.desired_uid in
        Answer token uid input
          (claim_key token uid idempotency_key)
          w
          (claim rt input idempotency_key w)
  unfolding claim
  claim-Answer input idempotency_key w =
      claim_as-Answer (trim_space input.invite_token) (normalize_uid rt input.desired_uid) input
        idempotency_key w

  Answer-keeps :
      (token uid : String) (input : ClaimInput) (key : String) (w : World)
      (res : Result ClaimResult × World)
      → Answer token uid input key w res
      → (k : String) {r : ClaimResult} → lookup k w.claims ≡ some r
      → lookup k res.1.claims ≡ some r
  Answer-keeps token uid input key w (ok r, w') (_, _, _, inl (fresh, _, stored)) k e =
      rw stored (ground (arith, lookup-insert key k r w.claims, eq_iff key k))
  Answer-keeps token uid input key w (ok r, w') (_, _, _, inr (_, _, _, same)) k e = rw same e
  Answer-keeps token uid input key w (err f, w') (_, same) k e = rw same e

  -- A cached claim stays as it is, whatever is claimed later.
  pub claim-keeps :
      (input : ClaimInput) (idempotency_key : String) (w : World) (k : String) {r : ClaimResult}
      → lookup k w.claims ≡ some r
      → lookup k (claim rt input idempotency_key w).1.claims ≡ some r
  claim-keeps input idempotency_key w k e =
      let token = trim_space input.invite_token in
      let uid = normalize_uid rt input.desired_uid in
      Answer-keeps token uid input (claim_key token uid idempotency_key) w
        (claim rt input idempotency_key w) (claim-Answer input idempotency_key w) k e

  Answer-others :
      (token uid : String) (input : ClaimInput) (key : String) (w : World)
      (res : Result ClaimResult × World)
      → Answer token uid input key w res
      → SameOthers w res.1
  Answer-others token uid input key w (ok r, w') (_, _, same, _) = same
  Answer-others token uid input key w (err f, w') (_, same) =
      rw same (record { challenges = refl; audit = refl })

  pub claim-SameOthers :
      (input : ClaimInput) (idempotency_key : String) (w : World)
      → SameOthers w (claim rt input idempotency_key w).1
  claim-SameOthers input idempotency_key w =
      let token = trim_space input.invite_token in
      let uid = normalize_uid rt input.desired_uid in
      Answer-others token uid input (claim_key token uid idempotency_key) w
        (claim rt input idempotency_key w) (claim-Answer input idempotency_key w)

  -- A successful claim is in the cache under its key, and differs from the answer at most by the
  -- mark of a replay.
  Answer-cached :
      (token uid : String) (input : ClaimInput) (key : String) (w w' : World) {r : ClaimResult}
      → Answer token uid input key w (ok r, w')
      → (first : ClaimResult) × (lookup key w'.claims ≡ some first) × (replayed first ≡ replayed r)
  Answer-cached token uid input key w w' {r} (_, _, _, inl (fresh, _, stored)) =
      (r, rw (stored, lookup-insert, eq_refl) refl, refl)
  Answer-cached token uid input key w w' {r} (_, _, _, inr (first, e, answer, same)) =
      (first, rw same e, rw answer refl)

  -- A claim under a key that is cached answers with the cached claim, marked as a replay.
  claim_replays :
      (input : ClaimInput) (idempotency_key : String) (w : World) {first : ClaimResult}
      → trim_space input.invite_token ≢ ""
      → normalize_uid rt input.desired_uid ≢ ""
      → lookup
          (claim_key
            (trim_space input.invite_token)
            (normalize_uid rt input.desired_uid)
            idempotency_key)
          w.claims
        ≡ some first
      → (claim rt input idempotency_key w).0 ≡ ok (replayed first)
  unfolding claim claim_as get
  claim_replays input idempotency_key w t u e =
      let token = trim_space input.invite_token in
      let uid = normalize_uid rt input.desired_uid in
      let filled : (token == "" || uid == "") ≡ false =
        ground (arith, eq_iff token "", eq_iff uid "") in
      rw (filled, e)

  -- A claim under the key of a successful one answers with its result, in any world that still has
  -- what that one left in the cache.
  pub claim_replays_later :
      (input input' : ClaimInput) (key key' : String) (w w' later : World) {first : ClaimResult}
      → claim rt input key w ≡ (ok first, w')
      → trim_space input'.invite_token ≢ ""
      → normalize_uid rt input'.desired_uid ≢ ""
      → claim_key (trim_space input'.invite_token) (normalize_uid rt input'.desired_uid) key'
        ≡ claim_key (trim_space input.invite_token) (normalize_uid rt input.desired_uid) key
      → ((k : String) (cached : ClaimResult)
          → lookup k w'.claims ≡ some cached
          → lookup k later.claims ≡ some cached)
      → (claim rt input' key' later).0 ≡ ok (replayed first)
  claim_replays_later input input' key key' w w' later e token uid same stays =
      let t = trim_space input.invite_token in
      let u = normalize_uid rt input.desired_uid in
      let k = claim_key t u key in
      let (cached, found, alike) =
        Answer-cached t u input k w w' (rw e at (claim-Answer input key w)) in
      claim_replays input' key' later {first = cached} token uid (rw same (stays k cached found))
      ∙ ap ok alike
