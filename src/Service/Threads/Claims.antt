-- ===== src/Service/Threads/Claims.antt =====
-- The claims of application/onboarding.go while requests interleave: `Get` and `Put` are two
-- accesses to the cache, so that a claim may begin before another under its key has been stored.
pub mod Sources
pub mod Late
pub mod Race
use orbit_api_gateway.Base.{
  ◌≢◌, ◌≡◌, ◌⊎◌, inl, inr, Bool-cases, String, true, false, some, none, ◌||◌, ◌==◌, arith, eq_iff,
  if◌then◌else◌,
}
use orbit_api_gateway.Base.Strings.{trim_space}
use orbit_api_gateway.Base.Map.{Map, lookup, insert, lookup-insert}
use orbit_api_gateway.Domain.Runtime.{Runtime}
use orbit_api_gateway.Domain.Failure.{Kind, app, err}
use orbit_api_gateway.Domain.Onboarding.{ClaimInput, ClaimResult, normalize_uid}
use orbit_api_gateway.Memory.Stores.{get}
use orbit_api_gateway.World.{World, Ports, Tick}
use orbit_api_gateway.Service.Claims.{claim_key, provision}
use orbit_api_gateway.Service.Claims.Replay.{replayed}
use orbit_api_gateway.Service.Threads.{claiming, putting, logging, claimed, turn}

module _ (rt : Runtime) where
  -- The key of a claim in the cache, and what a first claim stores there.
  abbrev pub key_of : ClaimInput → String → String
  key_of input idempotency_key =
      claim_key (trim_space input.invite_token) (normalize_uid rt input.desired_uid) idempotency_key

  abbrev pub made : ClaimInput → ClaimResult
  made input =
      provision rt (trim_space input.invite_token) (normalize_uid rt input.desired_uid) input

  -- The token and the UID are not blank.
  pub record IsFilled (input : ClaimInput) : Type 0 where
    pub token : trim_space input.invite_token ≢ ""
    pub uid : normalize_uid rt input.desired_uid ≢ ""

  pub IsFilled-test :
      (input : ClaimInput)
      → IsFilled input
      → (trim_space input.invite_token == "" || normalize_uid rt input.desired_uid == "") ≡ false
  IsFilled-test input h = ground (
    arith,
    h.token,
    h.uid,
    eq_iff (trim_space input.invite_token) "",
    eq_iff (normalize_uid rt input.desired_uid) "",
  )

  pub IsFilled-cases :
      (input : ClaimInput)
      → ((trim_space input.invite_token == "" || normalize_uid rt input.desired_uid == "") ≡ true)
        ⊎ IsFilled input
  IsFilled-cases input =
      let token = trim_space input.invite_token in
      let uid = normalize_uid rt input.desired_uid in
      elim (Bool-cases (token == "" || uid == "")) [
        | inl blank ↦ inl blank
        | inr filled ↦ inr (record {
          token = ground (arith, eq_iff token "");
          uid = ground (arith, eq_iff uid "");
        })
      ]

-- The first turn of a claim: where its token or its UID is blank, where its key is new, and where its
-- key is in the cache.
pub begin_blank :
    (ports : Ports) (tick : Tick) (input : ClaimInput) (key : String) (w : World)
    → (trim_space input.invite_token == "" || normalize_uid ports.runtime input.desired_uid == "")
      ≡ true
    → turn ports tick (claiming input key) w
      ≡ (claimed (err (app Kind.invalid_argument "invite_token and desired_uid are required")), w)
unfolding turn
begin_blank ports tick input key w blank = rw blank

module _ (ports : Ports) (tick : Tick) (input : ClaimInput) (key : String) (w : World)
    (filled : IsFilled ports.runtime input) where
  pub begin_fresh :
      lookup (key_of ports.runtime input key) w.claims ≡ none
      → turn ports tick (claiming input key) w ≡ (
        putting
            (key_of ports.runtime input key)
            (normalize_uid ports.runtime input.desired_uid)
            (made ports.runtime input),
        w,
      )
  unfolding turn get
  begin_fresh e = rw (IsFilled-test ports.runtime input filled, e)

  pub begin_cached :
      (first : ClaimResult)
      → lookup (key_of ports.runtime input key) w.claims ≡ some first
      → turn ports tick (claiming input key) w ≡ (
        logging "onboard_claim_replayed"
            (normalize_uid ports.runtime input.desired_uid)
            (replayed first),
        w,
      )
  unfolding turn get
  begin_cached first e = rw (IsFilled-test ports.runtime input filled, e)
