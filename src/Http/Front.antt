-- ===== src/Http/Front.antt =====
-- `newServer` of httpapi/server.go: the spelling of the rate-limit headers. The store of the response
-- headers is fasthttp's, with the laws that its documentation gives.
pub mod Published
use orbit_api_gateway.Base.{
  ◌≡◌, String, Option, none, some, List, [], ◌∷◌, ◌==◌, if◌then◌else◌, get_or,
}

-- `fasthttp.ResponseHeader`, seen by what goes out under the exact bytes of a name.
pub record ResponseHeader (H : Type 0) : Type 0 where
  pub peek : String → H → String
  pub del : String → H → H
  pub set_canonical : String → String → H → H
  pub canonical : String → String
  pub sent : String → H → Option String
  -- `Peek` and `Del` look under the canonical form of the name that they are given.
  pub peek_lem : (key : String) (h : H) → peek key h ≡ get_or "" (sent (canonical key) h)
  pub del_lem :
      (key name : String) (h : H)
      → sent name (del key h) ≡ (if canonical key == name then none else sent name h)
  -- `SetCanonical` stores the name as it is.
  pub set_canonical_lem :
      (key value name : String) (h : H)
      → sent name (set_canonical key value h) ≡ (if key == name then some value else sent name h)

-- `rateLimitHeaderSpellings`
unfoldable pub rate_limit_header_spellings : List (String × String)
rate_limit_header_spellings =
    ("X-Ratelimit-Limit", "X-RateLimit-Limit")
    ∷ ("X-Ratelimit-Remaining", "X-RateLimit-Remaining")
    ∷ ("X-Ratelimit-Reset", "X-RateLimit-Reset")
    ∷ []

module _ {H : Type 0} (header : ResponseHeader H) where
  -- One pass of the loop.
  unfoldable pub respell : String × String → H → H
  respell (stored, published) h =
      let value = header.peek stored h in
      if value == "" then h else header.set_canonical published value (header.del stored h)

  -- The loop over some spellings.
  unfoldable pub respell_all : List (String × String) → H → H
  unfolding respell
  respell_all [] h = h
  respell_all (spelling ∷ spellings) h = respell_all spellings (respell spelling h)

  -- The handler that `newServer` puts before the routes.
  unfoldable pub respell_headers : H → H
  unfolding respell_all rate_limit_header_spellings
  respell_headers h = respell_all rate_limit_header_spellings h
