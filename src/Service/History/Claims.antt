-- ===== src/Service/History/Claims.antt =====
-- A claim is answered the same way for as long as the process lives.
use Prim.Native.String.{◌++◌}
use orbit_api_gateway.Base.{
  ◌≡◌, ◌≢◌, ◌∙◌, ap, refl, sym, String, true, false, ◌||◌, ◌==◌, arith, eq_iff, none, some, List,
  [], ◌∷◌,
}
use orbit_api_gateway.Base.Strings.{trim_space}
use orbit_api_gateway.Base.Map.{lookup}
use orbit_api_gateway.Domain.Runtime.{Runtime}
use orbit_api_gateway.Domain.Failure.{ok}
use orbit_api_gateway.Domain.Onboarding.{
  ClaimInput, ClaimResult, normalize_uid, claim_credentials_for,
}
use orbit_api_gateway.Memory.Stores.{get}
use orbit_api_gateway.World.{World, Ports}
use orbit_api_gateway.Service.Claims.{claim_key, provision, claim_as, claim}
use orbit_api_gateway.Service.Claims.Derived.{claim_key-shared, append-filled, colon_longer}
use orbit_api_gateway.Service.Claims.Replay.{replayed, claim-keeps, claim_replays_later}
use orbit_api_gateway.Service.Challenges.{challenge, verify_challenge, normalize_email}
use orbit_api_gateway.Service.Challenges.Verdict.{Dispatched-claims, Verdict-claims}
use orbit_api_gateway.Service.Challenges.Codes.{verify_challenge-Verdict, challenge-Dispatched}
use orbit_api_gateway.Service.Audit.{record_audit}
use orbit_api_gateway.Service.History.{
  Request, ask_code, give_code, claim_machine, note_action, Event, serve, run, observe,
}

module _ (ports : Ports) where
  pub serve-keeps :
      (r : Request) (w : World) (k : String) {first : ClaimResult}
      → lookup k w.claims ≡ some first
      → lookup k (serve ports r w).claims ≡ some first
  unfolding serve record_audit
  serve-keeps (ask_code tick email) w k e =
      rw
        (Dispatched-claims tick (normalize_email ports.runtime email) w
          (challenge ports tick email w) (challenge-Dispatched ports tick email w))
        e
  serve-keeps (give_code tick email code) w k e =
      rw
        (Verdict-claims ports tick (normalize_email ports.runtime email) (trim_space code) w
          (verify_challenge ports tick email code w)
          (verify_challenge-Verdict ports tick email code w))
        e
  serve-keeps (claim_machine input key) w k e = claim-keeps ports.runtime input key w k e
  serve-keeps (note_action tick entry) w k e = e

  run-keeps :
      (rs : List Request) (w : World) (past : List Event) (k : String) {first : ClaimResult}
      → lookup k w.claims ≡ some first
      → lookup k (run ports rs w past).0.claims ≡ some first
  unfolding run
  run-keeps [] w past k e = e
  run-keeps (r ∷ rs) w past k e =
      run-keeps rs (serve ports r w) (observe ports r w past) k (serve-keeps r w k e)

-- After a successful claim, and any further requests of any kind, a claim under the same key, whose
-- token and UID are not blank, answers with the first claim's result, marked as a replay, whatever
-- its other fields say.
pub claim-run-claim :
    (ports : Ports) (input input' : ClaimInput) (key key' : String) (w w' : World)
    (rs : List Request) (past : List Event) {first : ClaimResult}
    → claim ports.runtime input key w ≡ (ok first, w')
    → trim_space input'.invite_token ≢ ""
    → normalize_uid ports.runtime input'.desired_uid ≢ ""
    → claim_key
        (trim_space input'.invite_token)
        (normalize_uid ports.runtime input'.desired_uid)
        key'
      ≡ claim_key
          (trim_space input.invite_token)
          (normalize_uid ports.runtime input.desired_uid)
          key
    → (claim ports.runtime input' key' (run ports rs w' past).0).0 ≡ ok (replayed first)
claim-run-claim ports input input' key key' w w' rs past e token uid same =
    claim_replays_later ports.runtime input input' key key' w w' (run ports rs w' past).0 e token
      uid same (λ k cached found. run-keeps ports rs w' past k found)

-- A first claim under its key answers with what it asks for.
claim_as-fresh :
    (rt : Runtime) (token uid : String) (input : ClaimInput) (w : World)
    → token ≢ ""
    → uid ≢ ""
    → lookup (claim_key token uid "") w.claims ≡ none
    → (claim_as rt token uid input "" w).0 ≡ ok (provision rt token uid input)
unfolding claim_as get
claim_as-fresh rt token uid input w has_token has_uid fresh =
    let filled : (token == "" || uid == "") ≡ false =
      ground (arith, eq_iff token "", eq_iff uid "") in
    rw (filled, fresh) refl

claim-fresh :
    (ports : Ports) (input : ClaimInput) (token uid : String) (w : World)
    → trim_space input.invite_token ≡ token
    → normalize_uid ports.runtime input.desired_uid ≡ uid
    → token ≢ ""
    → uid ≢ ""
    → lookup (claim_key token uid "") w.claims ≡ none
    → (claim ports.runtime input "" w).0 ≡ ok (provision ports.runtime token uid input)
unfolding claim
claim-fresh ports input token uid w is_token is_uid has_token has_uid fresh =
    let rt = ports.runtime in
    claim_as-fresh rt (trim_space input.invite_token) (normalize_uid rt input.desired_uid) input w
      (rw is_token has_token) (rw is_uid has_uid) (rw (is_token, is_uid) fresh)
    ∙ rw (is_token, is_uid) refl

-- A claim for a token "t:u" and a UID v, without an idempotency key and the first under its cache
-- key, takes that key from a claim for the token t and the UID "u:v", where t and v are not empty:
-- the latter, coming next without a key, is answered as a replay with the user v and the credentials
-- that were derived for v, which is not the UID that it asked for.
pub claim-shares :
    (ports : Ports) (input input' : ClaimInput) (t u v : String) (w : World)
    → trim_space input.invite_token ≡ t ++ (":" ++ u)
    → normalize_uid ports.runtime input.desired_uid ≡ v
    → trim_space input'.invite_token ≡ t
    → normalize_uid ports.runtime input'.desired_uid ≡ u ++ (":" ++ v)
    → t ≢ ""
    → v ≢ ""
    → lookup (claim_key (t ++ (":" ++ u)) v "") w.claims ≡ none
    → (given : ClaimResult) × ((claim ports.runtime input' "" (claim ports.runtime input "" w).1).0
        ≡ ok given)
      × (given.idempotent_replay ≡ true)
      × (given.user.uid ≡ v)
      × (given.credentials ≡ claim_credentials_for ports.runtime (t ++ (":" ++ u)) v)
      × (u ++ (":" ++ v) ≢ v)
unfolding run provision
claim-shares ports input input' t u v w token uid token' uid' has_t has_v fresh =
    let rt = ports.runtime in
    let made = provision rt (t ++ (":" ++ u)) v input in
    let done =
      claim-fresh ports input (t ++ (":" ++ u)) v w token uid (append-filled t u) has_v fresh in
    let answer =
      claim-run-claim ports input input' "" "" w (claim rt input "" w).1 [] [] {first = made}
        (ap (λ r. (r, (claim rt input "" w).1)) done) (λ b. has_t (sym token' ∙ b))
        (λ b. append-filled u v (sym uid' ∙ b))
        (rw (token, uid, token', uid') (sym (claim_key-shared t u v))) in
    (replayed made, answer, refl, refl, refl, colon_longer u v)
