-- ===== src/Service/Challenges/Verdict.antt =====
-- What `Challenge` and `VerifyChallenge` of application/ownership.go do, on every branch.
use orbit_api_gateway.Base.{
  ℕ, ◌+◌, ◌≤◌, ◌≡◌, ◌≢◌, ◌↔◌, inl, inr, refl, String, true, false, ◌||◌, none, some, ◌==◌, eq_iff,
  arith, Bool-cases, Option-cases,
}
use orbit_api_gateway.Base.Strings.{contains}
use orbit_api_gateway.Base.Map.{lookup, insert, erase}
use orbit_api_gateway.Domain.Runtime.{Time}
use orbit_api_gateway.Domain.Failure.{Failure, Result, ok, err}
use orbit_api_gateway.Domain.Ownership.{
  Challenge, OwnershipProof, challenge_ttl, proof_status_verified, key_fingerprint,
}
use orbit_api_gateway.Memory.Laws.{confirm_missing, confirm_accepted, confirm_refused}
use orbit_api_gateway.World.{World, Ports, Tick}
use orbit_api_gateway.Service.Limits.Effects.{SameStores, check_identifier_limit-SameStores}
use orbit_api_gateway.Service.Challenges.{
  accepts, ChallengeReceipt, dispatch_challenge, confirm_challenge,
}

-- A challenge for the address waits in the store, has this code, and has not expired.
pub record IsPending (w : World) (email code : String) (now : Time) : Type 0 where
  pub challenge : Challenge
  pub stored : lookup email w.challenges ≡ some challenge
  pub same : challenge.code ≡ code
  pub in_time : now ≤ challenge.expires_at

pub accepts_iff :
    (code : String) (now : Time) (c : Challenge)
    → (accepts code now c ≡ true) ↔ ((c.code ≡ code) × (now ≤ c.expires_at))
unfolding accepts
accepts_iff code now c = ground (arith, eq_iff c.code code)

-- The address and the code as `VerifyChallenge` compares them are not empty, and fit a challenge
-- that waits.
pub record CanProve (w : World) (email code : String) (now : Time) : Type 0 where
  pub has_email : email ≢ ""
  pub has_code : code ≢ ""
  pub pending : IsPending w email code now

module _ (ports : Ports) (tick : Tick) where
  abbrev pub proof : String → String → OwnershipProof
  proof email code = record {
    status = proof_status_verified;
    email = email;
    display_name = "";
    key_fingerprint = key_fingerprint ports.runtime email code tick.now;
    verified_at = tick.now;
  }

  abbrev pub Verdict : String → String → World → Result OwnershipProof × World → Type 0
  Verdict email code w (ok p, w') =
      CanProve w email code tick.now
      × (p ≡ proof email code)
      × (w' ≡ record w { challenges = erase email w.challenges })
  Verdict email code w (err f, w') = ¬ CanProve w email code tick.now × (w' ≡ w)

  module _ (email code : String) (w : World) where
    blank_cannot : (email == "" || code == "") ≡ true → ¬ CanProve w email code tick.now
    blank_cannot h p = ground (arith, eq_iff email "", eq_iff code "")

    missing_cannot : lookup email w.challenges ≡ none → ¬ CanProve w email code tick.now
    missing_cannot e p = ground arith

    refused_cannot :
        (c : Challenge)
        → lookup email w.challenges ≡ some c
        → accepts code tick.now c ≡ false
        → ¬ CanProve w email code tick.now
    refused_cannot c e h p =
        ground (arith, accepts_iff code tick.now c, accepts_iff code tick.now p.pending.challenge)

    accepted_can :
        (c : Challenge)
        → (email == "" || code == "") ≡ false
        → lookup email w.challenges ≡ some c
        → accepts code tick.now c ≡ true
        → CanProve w email code tick.now
    accepted_can c filled e h =
        let (same, in_time) = (accepts_iff code tick.now c).0 h in
        record {
          has_email = ground (arith, eq_iff email "");
          has_code = ground (arith, eq_iff code "");
          pending = record { challenge = c; stored = e; same = same; in_time = in_time };
        }

    pub confirm_challenge-Verdict : Verdict email code w (confirm_challenge ports tick email code w)
    unfolding confirm_challenge
    confirm_challenge-Verdict = elim (Bool-cases (email == "" || code == "")) [
      | inl blank ↦ rw blank (blank_cannot blank, refl)
      | inr filled ↦ elim (Option-cases (lookup email w.challenges)) [
        | inl e ↦
            rw (filled, confirm_missing email (accepts code tick.now) w.challenges e)
              (missing_cannot e, refl)
        | inr (c, e) ↦ elim (Bool-cases (accepts code tick.now c)) [
          | inl h ↦
              rw (filled, confirm_accepted email (accepts code tick.now) w.challenges c e h)
                (accepted_can c filled e h, refl, refl)
          | inr h ↦
              rw (filled, confirm_refused email (accepts code tick.now) w.challenges c e h)
                (refused_cannot c e h, refl)
        ]
      ]
    ]

-- What `Challenge` does to the store of challenges: it replaces the one of its address, or fails
-- and changes nothing. The other stores stay.
abbrev pub Dispatched : Tick → String → World → Result ChallengeReceipt × World → Type 0
Dispatched tick email w (ok r, w') =
    (contains email b'@' ≡ true)
    × (w'.claims ≡ w.claims)
    × (w'.audit ≡ w.audit)
    × (w'.challenges
        ≡ insert email (record { code = tick.code; expires_at = tick.now + challenge_ttl })
            w.challenges)
Dispatched tick email w (err f, w') = SameStores w w'

module _ (ports : Ports) (tick : Tick) where
  pub dispatch_challenge-Dispatched :
      (email : String) (w : World) → Dispatched tick email w (dispatch_challenge ports tick email w)
  unfolding dispatch_challenge
  dispatch_challenge-Dispatched email w =
      ground (arith, check_identifier_limit-SameStores ports.runtime ports.limiter email w)

pub not_empty_of_contains : (s : String) (n : ℕ) → contains s n ≡ true → s ≢ ""
unfolding contains
not_empty_of_contains s n h e = let k = rw e at h in cc k

abbrev pub issued : Tick → Challenge
issued tick = record { code = tick.code; expires_at = tick.now + challenge_ttl }

pub Verdict-eq_ok :
    (ports : Ports) (tick : Tick) (email code : String) (w : World)
    (res : Result OwnershipProof × World)
    → Verdict ports tick email code w res
    → CanProve w email code tick.now
    → res ≡ (ok (proof ports tick email code), record w { challenges = erase email w.challenges })
Verdict-eq_ok ports tick email code w (ok p, w') (_, same, rest) can = cc
Verdict-eq_ok ports tick email code w (err f, w') (cannot, _) can = absurd (cannot can)

pub Verdict-eq_err :
    (ports : Ports) (tick : Tick) (email code : String) (w : World)
    (res : Result OwnershipProof × World)
    → Verdict ports tick email code w res
    → ¬ CanProve w email code tick.now
    → (f : Failure) × (res ≡ (err f, w))
Verdict-eq_err ports tick email code w (ok p, w') (can, _, _) cannot = absurd (cannot can)
Verdict-eq_err ports tick email code w (err f, w') (_, same) cannot = (f, cc)

-- Neither use case touches the claims.
pub Dispatched-claims :
    (tick : Tick) (email : String) (w : World) (res : Result ChallengeReceipt × World)
    → Dispatched tick email w res
    → res.1.claims ≡ w.claims
Dispatched-claims tick email w (ok r, w') (_, same, _, _) = same
Dispatched-claims tick email w (err f, w') same = same.claims

pub Verdict-claims :
    (ports : Ports) (tick : Tick) (email code : String) (w : World)
    (res : Result OwnershipProof × World)
    → Verdict ports tick email code w res
    → res.1.claims ≡ w.claims
Verdict-claims ports tick email code w (ok p, w') (_, _, same) = rw same refl
Verdict-claims ports tick email code w (err f, w') (_, same) = rw same refl
