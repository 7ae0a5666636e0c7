-- ===== src/Ids.antt =====
-- infrastructure/ids: the six-digit challenge codes, from three random bytes.
pub mod Digits
use orbit_api_gateway.Base.{ℕ, zero, suc, ◌+◌, ◌*◌, ◌%◌, ◌/◌, ◌^◌, String, ◌≡◌, refl}
use orbit_api_gateway.Base.Strings.{nth}

-- `%0kd` of a number below 10 ^ k.
unfoldable pub padded : ℕ → ℕ → String → String
unfolding nth
padded zero n out = out
padded (suc k) n out = padded k (n / 10) (String.◌∷◌ (nth "0123456789" (n % 10)) out)

-- `NewCode`: the shifted bytes share no bit, so `|` is `+`.
unfoldable pub new_code : ℕ → ℕ → ℕ → String
unfolding padded
new_code b0 b1 b2 = padded 6 ((b0 * 2 ^ 16 + b1 * 2 ^ 8 + b2) % 1000000) ""

new_code_test : new_code 0 0 7 ≡ "000007"
unfolding new_code
new_code_test = refl
