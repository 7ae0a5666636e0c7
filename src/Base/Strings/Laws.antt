-- ===== src/Base/Strings/Laws.antt =====
-- Trimming and lower-casing: each is idempotent, and they commute.
use Prim.Native.Char.{Char, code}
use Prim.Native.String.{String, [], ◌∷◌}
use orbit_api_gateway.Base.{
  ℕ, zero, suc, ◌+◌, ◌-◌, ◌≤◌, ◌<◌, ◌≡◌, ◌⊎◌, refl, ap, ◌∙◌, sym, Bool, true, false, not, ◌&&◌, inl,
  inr, arith, ltb, Bool-cases,
}
use orbit_api_gateway.Base.Strings.{
  nth, is_space, trim_left, trim_right, trim_space, lower_rune, to_lower, is_empty,
}

-- A test of the numbers from a first one on, as many as told.
holds_from : (ℕ → Bool) → ℕ → ℕ → Bool
holds_from test first zero = true
holds_from test first (suc count) = test first && holds_from test (first + 1) count

le_or_eq : (m n : ℕ) → m ≤ n → (m ≡ n) ⊎ (m + 1 ≤ n)
le_or_eq m n h = ground arith

holds_from_lem :
    (test : ℕ → Bool) (first count k : ℕ)
    → holds_from test first count ≡ true
    → first ≤ k
    → k < first + count
    → test k ≡ true
unfolding holds_from
holds_from_lem test first zero k h low high = absurd (omega arith)
holds_from_lem test first (suc count) k h low high =
    let (here, rest) : (test first ≡ true) × (holds_from test (first + 1) count ≡ true) =
      (ground arith, ground arith) in
    elim (le_or_eq first k low) [
      | inl e ↦ rw⁻¹ e here
      | inr l ↦ holds_from_lem test (first + 1) count k rest l (omega arith)
    ]

-- A lower-case ASCII letter, told by its code alone.
is_plain_letter : Char → Bool
is_plain_letter c = ltb 90 (code c) && ltb (code c) 128 && not (is_space c)

letters_table : holds_from (λ k. is_plain_letter (nth "abcdefghijklmnopqrstuvwxyz" k)) 0 26 ≡ true
unfolding holds_from is_plain_letter nth is_space
letters_table = refl

letter-is_plain_letter :
    (k : ℕ) → k < 26 → is_plain_letter (nth "abcdefghijklmnopqrstuvwxyz" k) ≡ true
letter-is_plain_letter k h = holds_from_lem _ 0 26 k letters_table (omega arith) (omega arith)

lower_rune-letter :
    (wide : Char → Char) (c : Char) → is_plain_letter c ≡ true → lower_rune wide c ≡ c
unfolding is_plain_letter lower_rune
lower_rune-letter wide c h = ground arith

is_space-letter : (c : Char) → is_plain_letter c ≡ true → is_space c ≡ false
unfolding is_plain_letter
is_space-letter c h = ground arith

is_space-upper : (c : Char) → b'A' ≤ code c → code c ≤ b'Z' → is_space c ≡ false
unfolding is_space
is_space-upper c h k = ground arith

abbrev alphabet : String
alphabet = "abcdefghijklmnopqrstuvwxyz"

-- The three ways in which a rune is lowered.
lower_rune-cases :
    (wide : Char → Char) (c : Char)
    → ((b'A' ≤ code c) × (code c ≤ b'Z') × (lower_rune wide c ≡ nth alphabet (code c - b'A')))
      ⊎ (lower_rune wide c ≡ c)
      ⊎ ((128 ≤ code c) × (lower_rune wide c ≡ wide c))
unfolding lower_rune
lower_rune-cases wide c = ground arith

module _ (wide : Char → Char) where
  lower_rune_idem :
      ((c : Char) → 128 ≤ code c → lower_rune wide (wide c) ≡ wide c)
      → (c : Char) → lower_rune wide (lower_rune wide c) ≡ lower_rune wide c
  lower_rune_idem h c = elim (lower_rune-cases wide c) [
    | inl (lo, hi, e) ↦ rw e (
        lower_rune-letter wide (nth alphabet (code c - b'A'))
          (letter-is_plain_letter (code c - b'A') (omega arith)))
    | inr (inl e) ↦ rw (e, e)
    | inr (inr (above, e)) ↦ rw e (h c above)
  ]

  is_space-lower_rune :
      ((c : Char) → 128 ≤ code c → is_space (wide c) ≡ is_space c)
      → (c : Char) → is_space (lower_rune wide c) ≡ is_space c
  is_space-lower_rune h c = elim (lower_rune-cases wide c) [
    | inl (lo, hi, e) ↦ rw e (
        is_space-letter (nth alphabet (code c - b'A'))
          (letter-is_plain_letter (code c - b'A') (omega arith))
        ∙ sym (is_space-upper c lo hi))
    | inr (inl e) ↦ rw e
    | inr (inr (above, e)) ↦ rw e (h c above)
  ]

  is_empty-to_lower : (s : String) → is_empty (to_lower wide s) ≡ is_empty s
  unfolding to_lower is_empty
  is_empty-to_lower [] = refl
  is_empty-to_lower (c ∷ s) = refl

  pub to_lower_idem :
      ((c : Char) → 128 ≤ code c → lower_rune wide (wide c) ≡ wide c)
      → (s : String) → to_lower wide (to_lower wide s) ≡ to_lower wide s
  unfolding to_lower
  to_lower_idem h [] = refl
  to_lower_idem h (c ∷ s) = cc (lower_rune_idem h c, to_lower_idem h s)

  module _ (h : (c : Char) → is_space (lower_rune wide c) ≡ is_space c) where
    trim_left-to_lower : (s : String) → trim_left (to_lower wide s) ≡ to_lower wide (trim_left s)
    unfolding to_lower trim_left
    trim_left-to_lower [] = refl
    trim_left-to_lower (c ∷ s) = elim (Bool-cases (is_space c)) [
      | inl e ↦ rw (h c, e) (trim_left-to_lower s)
      | inr e ↦ rw (h c, e)
    ]

    trim_right-to_lower : (s : String) → trim_right (to_lower wide s) ≡ to_lower wide (trim_right s)
    unfolding to_lower trim_right
    trim_right-to_lower [] = refl
    trim_right-to_lower (c ∷ s) = elim (Bool-cases (is_space c && is_empty (trim_right s))) [
      | inl e ↦ rw (h c, trim_right-to_lower s, is_empty-to_lower (trim_right s), e)
      | inr e ↦ rw (h c, trim_right-to_lower s, is_empty-to_lower (trim_right s), e)
    ]

  pub trim_space-to_lower :
      ((c : Char) → 128 ≤ code c → is_space (wide c) ≡ is_space c)
      → (s : String) → trim_space (to_lower wide s) ≡ to_lower wide (trim_space s)
  unfolding trim_space
  trim_space-to_lower h s =
      ap trim_right (trim_left-to_lower (is_space-lower_rune h) s)
      ∙ trim_right-to_lower (is_space-lower_rune h) (trim_left s)

trim_right_idem : (s : String) → trim_right (trim_right s) ≡ trim_right s
unfolding trim_right
trim_right_idem [] = refl
trim_right_idem (c ∷ s) = elim (Bool-cases (is_space c && is_empty (trim_right s))) [
  | inl e ↦ rw e
  | inr e ↦ rw (e, trim_right_idem s, e)
]

-- A text that begins with no space.
abbrev IsPlainAtStart : String → Type 0
IsPlainAtStart [] = Unit {0}
IsPlainAtStart (c ∷ s) = is_space c ≡ false

trim_left-IsPlainAtStart : (s : String) → IsPlainAtStart (trim_left s)
unfolding trim_left
trim_left-IsPlainAtStart [] = tt
trim_left-IsPlainAtStart (c ∷ s) = elim (Bool-cases (is_space c)) [
  | inl e ↦ rw e (trim_left-IsPlainAtStart s)
  | inr e ↦ rw e e
]

trim_left_of_plain : (s : String) → IsPlainAtStart s → trim_left s ≡ s
unfolding trim_left
trim_left_of_plain [] h = refl
trim_left_of_plain (c ∷ s) h = rw h

trim_right-IsPlainAtStart : (s : String) → IsPlainAtStart s → IsPlainAtStart (trim_right s)
unfolding trim_right
trim_right-IsPlainAtStart [] h = tt
trim_right-IsPlainAtStart (c ∷ s) h = rw h h

pub trim_space_idem : (s : String) → trim_space (trim_space s) ≡ trim_space s
unfolding trim_space
trim_space_idem s =
    rw
      (trim_left_of_plain (trim_right (trim_left s))
        (trim_right-IsPlainAtStart (trim_left s) (trim_left-IsPlainAtStart s)))
      (trim_right_idem (trim_left s))
