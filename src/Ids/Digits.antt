-- ===== src/Ids/Digits.antt =====
-- The codes of infrastructure/ids spell their number in six digits.
use orbit_api_gateway.Base.{ℕ, zero, suc, ◌+◌, ◌*◌, ◌/◌, ◌%◌, ◌^◌, ◌<◌, ◌≡◌, ◌∙◌, ap, String, arith}
use mathlib.Core.Path.{subst}
use native.Mathlib.Nat.{pow-succ'}
use orbit_api_gateway.Base.Strings.{nth}
use orbit_api_gateway.Ids.{padded, new_code}

-- A text of k decimal digits, and the number that it spells.
pub data Spells : ℕ → ℕ → String → Type 0 where
  nothing : Spells 0 0 ""
  digit :
      {k n : ℕ} {rest : String} (d : ℕ)
      → d < 10
      → Spells k n rest
      → Spells (suc k) (d * 10 ^ k + n) (String.◌∷◌ (nth "0123456789" d) rest)

quotient_less : (n p : ℕ) → n < 10 * p → n / 10 < p
quotient_less n p e = omega arith

add-suc : (k m : ℕ) → k + suc m ≡ suc k + m
add-suc k m = omega arith

ring_form : (q r p v : ℕ) → q * (10 * p) + (r * p + v) ≡ (q * 10 + r) * p + v
ring_form q r p v = omega arith

whole : (n : ℕ) → n / 10 * 10 + n % 10 ≡ n
whole n = omega arith

-- The last digit of a number and the rest of it make the number.
digits_add : (n p v : ℕ) → n / 10 * (10 * p) + (n % 10 * p + v) ≡ n * p + v
digits_add n p v = ring_form (n / 10) (n % 10) p v ∙ ap (λ i. i * p + v) (whole n)

omega_zero : (n p v : ℕ) → n < 1 → v ≡ n * p + v
omega_zero n p v small = let none_left : n ≡ 0 = omega arith in rw none_left (omega arith)

zero-add : (m : ℕ) → m ≡ 0 + m
zero-add m = omega arith

padded-Spells :
    (k m n v : ℕ) (out : String)
    → n < 10 ^ k
    → Spells m v out
    → Spells (k + m) (n * 10 ^ m + v) (padded k n out)
unfolding padded
padded-Spells zero m n v out small spells =
    let value : v ≡ n * 10 ^ m + v = omega_zero n (10 ^ m) v small in
    subst (λ i. Spells i (n * 10 ^ m + v) out) (zero-add m)
      (subst (λ i. Spells m i out) value spells)
padded-Spells (suc k) m n v out small spells =
    let less : n / 10 < 10 ^ k = quotient_less n (10 ^ k) (rw (pow-succ' 10 k) at small) in
    let found =
      padded-Spells k (suc m) (n / 10) (n % 10 * 10 ^ m + v) _ less
        (digit (n % 10) (omega arith) spells) in
    subst (λ i. Spells i (n * 10 ^ m + v) (padded (suc k) n out)) (add-suc k m)
      (subst (λ i. Spells (k + suc m) i (padded (suc k) n out)) (digits_add n (10 ^ m) v)
        (rw (pow-succ' 10 m) at found))

-- Every code that is generated is the number of its three bytes modulo 1000000, in six digits.
pub new_code-Spells :
    (b0 b1 b2 : ℕ) → Spells 6 ((b0 * 2 ^ 16 + b1 * 2 ^ 8 + b2) % 1000000) (new_code b0 b1 b2)
unfolding new_code
new_code-Spells b0 b1 b2 =
    let n = (b0 * 2 ^ 16 + b1 * 2 ^ 8 + b2) % 1000000 in
    subst (λ i. Spells 6 i (padded 6 n "")) (omega arith)
      (padded-Spells 6 0 n 0 "" (omega arith) nothing)
