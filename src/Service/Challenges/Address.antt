-- ===== src/Service/Challenges/Address.antt =====
-- The normalized address under which a challenge is kept, and the bucket that it is counted in.
use Prim.Native.String.{◌++◌}
use orbit_api_gateway.Base.{String, take, ◌≡◌, ap, ◌∙◌, sym}
use orbit_api_gateway.Base.Strings.{trim_space, to_lower, hex}
use orbit_api_gateway.Base.Strings.Laws.{to_lower_idem, trim_space-to_lower, trim_space_idem}
use orbit_api_gateway.Domain.Runtime.{Runtime, IsLowerTable}
use orbit_api_gateway.Domain.Ratelimit.{identifier_key}
use orbit_api_gateway.Service.Challenges.{normalize_email}

module _ (rt : Runtime) (table : IsLowerTable rt) where
  -- Trimming and lowering the normalized address in the other order gives it back.
  lower-trim-normalize :
      (email : String)
      → to_lower rt.wide_lower (trim_space (normalize_email rt email)) ≡ normalize_email rt email
  unfolding normalize_email
  lower-trim-normalize email =
      ap (to_lower rt.wide_lower) (trim_space_idem (to_lower rt.wide_lower email))
      ∙ sym (trim_space-to_lower rt.wide_lower table.spaces (to_lower rt.wide_lower email))
      ∙ ap trim_space (to_lower_idem rt.wide_lower table.idempotent email)

  -- If Unicode's lower-case table is idempotent and keeps the spaces, normalizing an address a second
  -- time changes nothing.
  pub normalize_email_idem :
      (email : String) → normalize_email rt (normalize_email rt email) ≡ normalize_email rt email
  unfolding normalize_email
  normalize_email_idem email =
      trim_space-to_lower rt.wide_lower table.spaces (normalize_email rt email)
      ∙ lower-trim-normalize email

  -- If Unicode's lower-case table is idempotent and keeps the spaces, an address and its normalized
  -- form fall into one identifier bucket.
  pub identifier_key-normalize :
      (email : String) → identifier_key rt (normalize_email rt email) ≡ identifier_key rt email
  unfolding identifier_key normalize_email
  identifier_key-normalize email =
      ap (λ s. "rl:auth_otp_request:id:" ++ hex (take 8 (rt.sha256 s)))
        (lower-trim-normalize email ∙ trim_space-to_lower rt.wide_lower table.spaces email)
