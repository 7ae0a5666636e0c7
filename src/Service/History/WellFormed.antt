-- ===== src/Service/History/WellFormed.antt =====
-- What always holds of the stores, whatever is asked of the use cases.
use orbit_api_gateway.Base.{
  ◌≡◌, ◌≢◌, inl, inr, refl, String, true, false, List, [], ◌∷◌, ◌++◌, ◌==◌, All, Bool-cases, eq_iff,
  arith,
}
use orbit_api_gateway.Base.Strings.{trim_space, contains}
use orbit_api_gateway.Base.Map.{Holds, insert-Holds, erase-Holds}
use text.Mathlib.TextLemmas.{append-eq-nil_iff}
use orbit_api_gateway.Domain.Runtime.{Time}
use orbit_api_gateway.Domain.Failure.{Result, ok, err}
use orbit_api_gateway.Domain.Ownership.{OwnershipProof}
use orbit_api_gateway.Domain.Onboarding.{ClaimInput, ClaimResult, normalize_uid}
use orbit_api_gateway.Domain.Audit.{AuditEntry}
use orbit_api_gateway.World.{World, Ports, Tick}
use orbit_api_gateway.Service.Limits.Effects.{SameStores}
use orbit_api_gateway.Service.Challenges.{
  ChallengeReceipt, normalize_email, challenge, verify_challenge,
}
use orbit_api_gateway.Service.Challenges.Verdict.{Verdict, Dispatched, issued}
use orbit_api_gateway.Service.Challenges.Codes.{verify_challenge-Verdict, challenge-Dispatched}
use orbit_api_gateway.Service.Claims.{claim, claim_key, provision}
use orbit_api_gateway.Service.Claims.Replay.{Answer, claim-Answer}
use orbit_api_gateway.Service.Audit.{name_entry, completed, record_audit}
use orbit_api_gateway.Service.History.{
  Request, ask_code, give_code, claim_machine, note_action, serve,
}

-- Each challenge waits under an address that holds an "@". Each claim in the cache has a UID, and is
-- kept without the mark of a replay. Each entry of the trail has an id.
pub record WellFormed (w : World) : Type 0 where
  pub challenges : Holds (λ email c. contains email b'@' ≡ true) w.challenges
  pub claims : Holds (λ key r. (r.idempotent_replay ≡ false) × (r.user.uid ≢ "")) w.claims
  pub audit : All (λ entry. entry.id ≢ "") w.audit

pub moved-WellFormed : (w w' : World) → SameStores w w' → WellFormed w → WellFormed w'
moved-WellFormed w w' same good = record {
  challenges = rw (same.challenges) (good.challenges);
  claims = rw (same.claims) (good.claims);
  audit = rw (same.audit) (good.audit);
}

Dispatched-WellFormed :
    (tick : Tick) (key : String) (w : World) (res : Result ChallengeReceipt × World)
    → Dispatched tick key w res
    → WellFormed w
    → WellFormed res.1
Dispatched-WellFormed tick key w (ok r, w') (holds, claims, audit, stored) good = record {
  challenges = rw stored (insert-Holds _ key w.challenges (issued tick) holds (good.challenges));
  claims = rw claims (good.claims);
  audit = rw audit (good.audit);
}
Dispatched-WellFormed tick key w (err f, w') same good = moved-WellFormed w w' same good

-- An id that is given or made up is not empty.
name_entry-filled : (tick : Tick) (t : Time) (id : String) → name_entry true tick t id ≢ ""
name_entry-filled tick t id e = elim (Bool-cases (id == "")) [
  | inl blank ↦
      ground (
        arith,
        eq_iff "audit-" "",
        ((append-eq-nil_iff {p = "audit-"} {q = _}).0 (rw blank at e)).0,
      )
  | inr filled ↦ ground (arith, eq_iff id "", rw filled at e)
]

all_and_one :
    (P : AuditEntry → Type 0) (es : List AuditEntry) (e : AuditEntry)
    → All P es
    → P e
    → All P (es ++ e ∷ [])
all_and_one P [] e here last = (last, tt)
all_and_one P (x ∷ es) e (first, here) last = (first, all_and_one P es e here last)

module _ (ports : Ports) where
  Verdict-WellFormed :
      (tick : Tick) (key code : String) (w : World) (res : Result OwnershipProof × World)
      → Verdict ports tick key code w res
      → WellFormed w
      → WellFormed res.1
  Verdict-WellFormed tick key code w (ok p, w') (_, _, same) good = rw same (record {
    challenges = erase-Holds _ key w.challenges (good.challenges);
    claims = good.claims;
    audit = good.audit;
  })
  Verdict-WellFormed tick key code w (err f, w') (_, same) good = rw same good

  Answer-WellFormed :
      (token uid : String) (input : ClaimInput) (key : String) (w : World)
      (res : Result ClaimResult × World)
      → Answer ports.runtime token uid input key w res
      → WellFormed w
      → WellFormed res.1
  unfolding provision
  Answer-WellFormed token uid input key w (ok r, w') (t, u, others, inl (fresh, new, stored)) good =
      record {
        challenges = rw (others.challenges) (good.challenges);
        claims = rw stored (insert-Holds _ key w.claims r (rw new (refl, u)) (good.claims));
        audit = rw (others.audit) (good.audit);
      }
  Answer-WellFormed token uid input key w (ok r, w') (t, u, others, inr (first, e, new, same))
        good =
      moved-WellFormed w w'
        (record { challenges = others.challenges; claims = same; audit = others.audit }) good
  Answer-WellFormed token uid input key w (err f, w') (_, same) good = rw same good

  pub serve-WellFormed : (r : Request) (w : World) → WellFormed w → WellFormed (serve ports r w)
  unfolding serve record_audit completed
  serve-WellFormed (ask_code tick email) w good =
      Dispatched-WellFormed tick (normalize_email ports.runtime email) w
        (challenge ports tick email w) (challenge-Dispatched ports tick email w) good
  serve-WellFormed (give_code tick email code) w good =
      Verdict-WellFormed tick (normalize_email ports.runtime email) (trim_space code) w
        (verify_challenge ports tick email code w)
        (verify_challenge-Verdict ports tick email code w) good
  serve-WellFormed (claim_machine input key) w good =
      let token = trim_space input.invite_token in
      let uid = normalize_uid ports.runtime input.desired_uid in
      Answer-WellFormed token uid input (claim_key token uid key) w
        (claim ports.runtime input key w) (claim-Answer ports.runtime input key w) good
  serve-WellFormed (note_action tick entry) w good = record {
    challenges = good.challenges;
    claims = good.claims;
    audit =
        all_and_one _ w.audit (completed tick entry) (good.audit)
          (name_entry-filled tick _ entry.id);
  }
