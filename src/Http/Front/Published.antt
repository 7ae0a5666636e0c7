-- ===== src/Http/Front/Published.antt =====
-- The rate-limit headers go out under the names that the edge has always published.
use orbit_api_gateway.Base.{
  ◌≡◌, ◌∙◌, refl, sym, String, false, none, some, ◌==◌, inl, inr, if◌then◌else◌, get_or, All,
  Bool-cases, eq_refl,
}
use orbit_api_gateway.Http.Front.{
  ResponseHeader, rate_limit_header_spellings, respell, respell_headers,
}

module _ {H : Type 0} (header : ResponseHeader H) where
  -- The two names of a spelling, once the loop has passed over it.
  respell-sent :
      (stored published name : String) (h : H)
      → header.canonical stored ≡ stored
      → header.sent name (respell header (stored, published) h) ≡ (
          let value = get_or "" (header.sent stored h) in
          if value == ""
          then header.sent name h
          else if published == name
          then some value
          else if stored == name
          then none
          else header.sent name h)
  unfolding respell
  respell-sent stored published name h fixed =
      let read : header.peek stored h ≡ get_or "" (header.sent stored h) =
        rw fixed at (header.peek_lem stored h) in
      elim (Bool-cases (header.peek stored h == "")) [
        | inl e ↦ rw (sym read, e) refl
        | inr e ↦ rw (sym read, e, header.set_canonical_lem, header.del_lem, fixed) refl
      ]

  module _ (stored published : String) (h : H) (fixed : header.canonical stored ≡ stored) where
    -- A value that was stored moves to the published name.
    respell_moves :
        (value : String)
        → (published == stored) ≡ false
        → header.sent stored h ≡ some value
        → (value == "") ≡ false
        → let h' = respell header (stored, published) h in
          (header.sent published h' ≡ some value) × (header.sent stored h' ≡ none)
    respell_moves value apart found filled = (
      respell-sent stored published published h fixed ∙ rw (found, filled, eq_refl) refl,
      respell-sent stored published stored h fixed ∙ rw (found, filled, apart, eq_refl) refl,
    )

    -- Any other name keeps what it has.
    respell_others :
        (name : String)
        → (stored == name) ≡ false
        → (published == name) ≡ false
        → header.sent name (respell header (stored, published) h) ≡ header.sent name h
    respell_others name a b =
        respell-sent stored published name h fixed
        ∙ elim (Bool-cases (get_or "" (header.sent stored h) == "")) [
          | inl e ↦ rw e refl
          | inr e ↦ rw (e, a, b) refl
        ]

  -- The budget goes out under the published names, and under no other spelling.
  pub record Published (h : H) (limit remaining reset : String) : Type 0 where
    pub limit_sent : header.sent "X-RateLimit-Limit" h ≡ some limit
    pub remaining_sent : header.sent "X-RateLimit-Remaining" h ≡ some remaining
    pub reset_sent : header.sent "X-RateLimit-Reset" h ≡ some reset
    pub limit_once : header.sent "X-Ratelimit-Limit" h ≡ none
    pub remaining_once : header.sent "X-Ratelimit-Remaining" h ≡ none
    pub reset_once : header.sent "X-Ratelimit-Reset" h ≡ none

  -- A name that the loop does not spell anew.
  abbrev pub IsOther : String → Type 0
  IsOther name =
      All (λ s. ((s.0 == name) ≡ false) × ((s.1 == name) ≡ false)) rate_limit_header_spellings

  -- When fasthttp keeps its own spelling of the three names, and the response holds three values that
  -- are not empty under them, the front sends the values under the published names and nothing
  -- under fasthttp's, and every other header as it was.
  pub respell_headers-Published :
      (h : H) (limit remaining reset name : String)
      → All (λ s. header.canonical s.0 ≡ s.0) rate_limit_header_spellings
      → header.sent "X-Ratelimit-Limit" h ≡ some limit
      → header.sent "X-Ratelimit-Remaining" h ≡ some remaining
      → header.sent "X-Ratelimit-Reset" h ≡ some reset
      → (limit == "") ≡ false
      → (remaining == "") ≡ false
      → (reset == "") ≡ false
      → IsOther name
      → let h' = respell_headers header h in
        Published h' limit remaining reset × (header.sent name h' ≡ header.sent name h)
  unfolding respell_headers
  respell_headers-Published h limit remaining reset name fixed found1 found2 found3 filled1 filled2
        filled3 other =
      let (f1, (f2, (f3, _))) = fixed in
      let (o1, (o2, (o3, _))) = other in
      let h1 = respell header ("X-Ratelimit-Limit", "X-RateLimit-Limit") h in
      let h2 = respell header ("X-Ratelimit-Remaining", "X-RateLimit-Remaining") h1 in
      let past1 = respell_others "X-Ratelimit-Limit" "X-RateLimit-Limit" h f1 in
      let past2 = respell_others "X-Ratelimit-Remaining" "X-RateLimit-Remaining" h1 f2 in
      let past3 = respell_others "X-Ratelimit-Reset" "X-RateLimit-Reset" h2 f3 in
      let first =
        respell_moves "X-Ratelimit-Limit" "X-RateLimit-Limit" h f1 limit refl found1 filled1 in
      let second =
        respell_moves "X-Ratelimit-Remaining" "X-RateLimit-Remaining" h1 f2 remaining refl
          (past1 "X-Ratelimit-Remaining" refl refl ∙ found2) filled2 in
      let third =
        respell_moves "X-Ratelimit-Reset" "X-RateLimit-Reset" h2 f3 reset refl
          (past2 "X-Ratelimit-Reset" refl refl ∙ past1 "X-Ratelimit-Reset" refl refl ∙ found3)
          filled3 in
      (
        record {
          limit_sent =
              past3 "X-RateLimit-Limit" refl refl ∙ past2 "X-RateLimit-Limit" refl refl ∙ first.0;
          remaining_sent = past3 "X-RateLimit-Remaining" refl refl ∙ second.0;
          reset_sent = third.0;
          limit_once =
              past3 "X-Ratelimit-Limit" refl refl ∙ past2 "X-Ratelimit-Limit" refl refl ∙ first.1;
          remaining_once = past3 "X-Ratelimit-Remaining" refl refl ∙ second.1;
          reset_once = third.1;
        },
        past3 name o3.0 o3.1 ∙ past2 name o2.0 o2.1 ∙ past1 name o1.0 o1.1,
      )
