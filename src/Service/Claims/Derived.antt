-- ===== src/Service/Claims/Derived.antt =====
-- What a claim derives from its token and its UID.
use Prim.Native.String.{◌++◌}
use orbit_api_gateway.Base.{ℕ, ◌≤◌, ◌≡◌, ◌≢◌, ◌∙◌, sym, refl, String, List, arith, eq_iff}
use text.Mathlib.TextLemmas.{
  append_assoc, append-ne-nil_of_right_ne-nil, append-eq-nil_iff, append_cancel_right, nil-append,
}
use orbit_api_gateway.Domain.Onboarding.{host_octet}
use orbit_api_gateway.Service.Claims.{claim_key}

-- The last octet of a client's address is one of the 200 from 10 to 209, whatever the digest.
pub host_octet_bounds : (sum : List ℕ) → (10 ≤ host_octet sum) × (host_octet sum ≤ 209)
unfolding host_octet
host_octet_bounds sum = (omega arith, omega arith)

colon_filled : (v : String) → ":" ++ v ≢ ""
colon_filled v e = ground (arith, eq_iff ":" "", ((append-eq-nil_iff {p = ":"} {q = v}).0 e).0)

-- A text with a colon in it is not empty.
pub append-filled : (u v : String) → u ++ (":" ++ v) ≢ ""
append-filled u v = append-ne-nil_of_right_ne-nil u (λ e. colon_filled v e)

-- A text that puts something with a colon in front of another differs from it.
pub colon_longer : (u v : String) → u ++ (":" ++ v) ≢ v
colon_longer u v e =
    append-ne-nil_of_right_ne-nil u (λ c. ground (arith, eq_iff ":" ""))
      (append_cancel_right (u ++ ":") "" v (append_assoc u ":" v ∙ e ∙ sym (nil-append v)))

-- Without an idempotency key, a token that ends in ":u" with the UID v, and the shorter token with
-- the UID "u:v", have one key.
pub claim_key-shared :
    (t u v : String) → claim_key (t ++ (":" ++ u)) v "" ≡ claim_key t (u ++ (":" ++ v)) ""
unfolding claim_key
claim_key-shared t u v =
    rw (append_assoc t (":" ++ u) (":" ++ v), append_assoc ":" u (":" ++ v)) refl
