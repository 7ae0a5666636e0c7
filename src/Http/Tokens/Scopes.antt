-- ===== src/Http/Tokens/Scopes.antt =====
-- What the scopes of an API token allow.
use orbit_api_gateway.Base.{
  ◌≡◌, ◌↔◌, ◌⊎◌, inl, inr, refl, String, Bool, true, false, ◌||◌, List, [], ◌∷◌, any, arith, eq_iff,
}
use orbit_api_gateway.Base.Strings.{trim_space, to_lower}
use orbit_api_gateway.Domain.Runtime.{Runtime}
use orbit_api_gateway.Http.Tokens.{scope_allows, needs_write, scopes_allow}

abbrev pub IsReading : String → Type 0
IsReading method = (method ≡ "GET") ⊎ (method ≡ "HEAD") ⊎ (method ≡ "OPTIONS")

-- A scope, in any case and with spaces around it, is "write", or it is "read" and the method reads.
abbrev pub Grants : Runtime → String → String → Type 0
Grants rt method scope =
    let s = to_lower rt.wide_lower (trim_space scope) in
    (s ≡ "write") ⊎ (IsReading method × (s ≡ "read"))

pub data OneGrants (rt : Runtime) (method : String) : List String → Type 0 where
  here : {s : String} {ss : List String} → Grants rt method s → OneGrants rt method (s ∷ ss)
  there : {s : String} {ss : List String} → OneGrants rt method ss → OneGrants rt method (s ∷ ss)

scope_allows_iff :
    (rt : Runtime) (method scope : String)
    → (scope_allows rt (needs_write method) scope ≡ true) ↔ Grants rt method scope
unfolding scope_allows needs_write
scope_allows_iff rt method scope =
    let s = to_lower rt.wide_lower (trim_space scope) in
    ground (
      arith,
      eq_iff s "write",
      eq_iff s "read",
      eq_iff method "GET",
      eq_iff method "HEAD",
      eq_iff method "OPTIONS",
    )

or_cases : (a b : Bool) → (a || b) ≡ true → (a ≡ true) ⊎ (b ≡ true)
or_cases true b e = inl refl
or_cases false b e = inr e

or_left : (a b : Bool) → a ≡ true → (a || b) ≡ true
or_left a b e = rw e refl

or_right : (a b : Bool) → b ≡ true → (a || b) ≡ true
or_right true b e = refl
or_right false b e = e

any_iff :
    (rt : Runtime) (method : String) (scopes : List String)
    → (any (scope_allows rt (needs_write method)) scopes ≡ true) ↔ OneGrants rt method scopes
any_iff rt method [] = (λ e. ground arith, λ h. elim h [ ])
any_iff rt method (s ∷ ss) =
    let first = scope_allows_iff rt method s in
    let rest = any_iff rt method ss in
    (
      λ e. elim (or_cases (scope_allows rt (needs_write method) s) _ e) [
        | inl h ↦ here (first.0 h)
        | inr h ↦ there (rest.0 h)
      ],
      λ h. elim h [ here g ↦ or_left _ _ (first.1 g) | there g ↦ or_right _ _ (rest.1 g) ],
    )

-- An API token's scopes allow a method exactly if it has none, or one of them is "write", or the
-- method is GET, HEAD or OPTIONS and one of them is "read"; case and spaces around it do not count.
pub scopes_allow_iff :
    (rt : Runtime) (method : String) (scopes : List String)
    → (scopes_allow rt method scopes ≡ true) ↔ ((scopes ≡ []) ⊎ OneGrants rt method scopes)
unfolding scopes_allow
scopes_allow_iff rt method [] = (λ e. inl refl, λ h. refl)
scopes_allow_iff rt method (s ∷ ss) =
    let listed = any_iff rt method (s ∷ ss) in
    (λ e. inr (listed.0 e), λ h. elim h [ inl e ↦ cc | inr g ↦ listed.1 g ])
