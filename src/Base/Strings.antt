-- ===== src/Base/Strings.antt =====
-- What the gateway uses of Go's `strings` and `strconv`, over texts of Unicode scalar values.
-- A Go string may hold bytes that are no UTF-8; such texts are not modelled.
pub mod Laws
use Prim.Native.Nat.{ℕ, zero, suc, ◌-◌, ◌/◌, ◌%◌}
use Prim.Native.Char.{Char, code, nul}
use Prim.Native.String.{String, [], ◌∷◌, ◌++◌}
use mathlib.Core.Bool.{Bool, true, false, ◌&&◌, ◌||◌}
use mathlib.Core.Option.{Option, none, some}
use mathlib.Core.List.{List}
use text.Mathlib.Text.{◌==◌}
use orbit_api_gateway.Base.Logic.{ltb, leb, eqb, if◌then◌else◌}
use orbit_api_gateway.Base.Int.{ℤ, pos, negsuc}

-- The character at a place of a text of digits or letters.
unfoldable pub nth : String → ℕ → Char
nth [] n = nul
nth (c ∷ s) zero = c
nth (c ∷ s) (suc n) = nth s n

-- `unicode.IsSpace`
unfoldable pub is_space : Char → Bool
is_space c =
    let n = code c in
    leb 9 n && leb n 13
    || eqb n 32
    || eqb n 0x85
    || eqb n 0xa0
    || eqb n 0x1680
    || leb 0x2000 n && leb n 0x200a
    || eqb n 0x2028
    || eqb n 0x2029
    || eqb n 0x202f
    || eqb n 0x205f
    || eqb n 0x3000

unfoldable pub trim_left : String → String
unfolding is_space
trim_left [] = []
trim_left (c ∷ s) = let rest = trim_left s in if is_space c then rest else c ∷ s

unfoldable pub is_empty : String → Bool
is_empty [] = true
is_empty (c ∷ s) = false

unfoldable pub trim_right : String → String
unfolding is_space is_empty
trim_right [] = []
trim_right (c ∷ s) = let rest = trim_right s in if is_space c && is_empty rest then [] else c ∷ rest

-- `strings.TrimSpace`
unfoldable pub trim_space : String → String
unfolding trim_left trim_right
trim_space s = trim_right (trim_left s)

-- `strings.HasPrefix` and `strings.TrimPrefix` in one: what follows the prefix.
unfoldable pub cut_prefix : String → String → Option String
cut_prefix s [] = some s
cut_prefix [] (p ∷ ps) = none
cut_prefix (c ∷ s) (p ∷ ps) = if eqb (code c) (code p) then cut_prefix s ps else none

-- `strings.HasPrefix`
unfoldable pub has_prefix : String → String → Bool
unfolding cut_prefix
has_prefix s p = elim (cut_prefix s p) [ none ↦ false | some _ ↦ true ]

-- `strings.TrimPrefix`
unfoldable pub trim_prefix : String → String → String
unfolding cut_prefix
trim_prefix s p = elim (cut_prefix s p) [ none ↦ s | some rest ↦ rest ]

-- `strings.Contains` of a one-character text.
unfoldable pub contains : String → ℕ → Bool
contains [] n = false
contains (c ∷ s) n = eqb (code c) n || contains s n

-- The text before and after the first such character.
unfoldable pub cut : String → ℕ → Option (String × String)
cut [] n = none
cut (c ∷ s) n =
    if eqb (code c) n
    then some ([], s)
    else elim (cut s n) [ none ↦ none | some (before, after) ↦ some (c ∷ before, after) ]

-- `strings.Split(s, ",")[0]` for a separator of one character.
unfoldable pub split_first : String → ℕ → String
unfolding cut
split_first s n = elim (cut s n) [ none ↦ s | some (before, after) ↦ before ]

-- `strings.TrimRight(s, "/")` for a set of one character.
unfoldable pub trim_right_of : ℕ → String → String
unfolding is_empty
trim_right_of n [] = []
trim_right_of n (c ∷ s) =
    let rest = trim_right_of n s in if eqb (code c) n && is_empty rest then [] else c ∷ rest

-- One rune of `strings.ToLower`. `wide` is the Unicode table for the runes above ASCII.
unfoldable pub lower_rune : (Char → Char) → Char → Char
unfolding nth
lower_rune wide c =
    let n = code c in
    if leb b'A' n && leb n b'Z'
    then nth "abcdefghijklmnopqrstuvwxyz" (n - b'A')
    else if ltb n 128
    then c
    else wide c

-- `strings.ToLower`
unfoldable pub to_lower : (Char → Char) → String → String
unfolding lower_rune
to_lower wide [] = []
to_lower wide (c ∷ s) = lower_rune wide c ∷ to_lower wide s

-- The decimal digits of a number, in front of a text.
unfoldable pub decimal_from : ℕ → ℕ → String → String
unfolding nth
decimal_from zero n out = out
decimal_from (suc fuel) n out =
    let here = nth "0123456789" (n % 10) ∷ out in
    let rest = decimal_from fuel (n / 10) here in if ltb n 10 then here else rest

-- `strconv.Itoa` and `%d`: a number below 10 ^ fuel is written whole.
unfoldable pub itoa_ℕ : ℕ → String
unfolding decimal_from
itoa_ℕ n = decimal_from (suc n) n ""

unfoldable pub itoa : ℤ → String
unfolding itoa_ℕ
itoa (pos n) = itoa_ℕ n
itoa (negsuc n) = "-" ++ itoa_ℕ (suc n)

-- `hex.EncodeToString`
unfoldable pub hex : List ℕ → String
unfolding nth
hex List.[] = []
hex (List.◌∷◌ b bs) = nth "0123456789abcdef" (b / 16) ∷ nth "0123456789abcdef" (b % 16) ∷ hex bs
