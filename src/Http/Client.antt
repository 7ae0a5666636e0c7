-- ===== src/Http/Client.antt =====
-- `clientIP` of httpapi/response.go, and the `net.SplitHostPort` that it calls.
use Prim.Native.String.{String, [], ◌∷◌}
use Prim.Native.Char.{code}
use orbit_api_gateway.Base.{
  ◌≡◌, refl, Bool, not, ◌&&◌, ◌||◌, Option, none, some, ◌==◌, eqb, if◌then◌else◌,
}
use orbit_api_gateway.Base.Strings.{trim_space, contains, cut, split_first, is_empty}
use orbit_api_gateway.Http.Message.{Request, get_header}

-- "host:port": one colon, and no bracket.
unfoldable pub plain_host : String → Option String
unfolding cut contains
plain_host s = elim (cut s b':') [
  | none ↦ none
  | some (host, port) ↦
      if contains port b':' || contains s b'[' || contains s b']' then none else some host
]

-- "host]:port", what follows the opening bracket.
unfoldable pub bracketed_host : String → Option String
unfolding cut contains
bracketed_host s = elim (cut s b']') [
  | none ↦ none
  | some (host, rest) ↦ elim (cut rest b':') [
    | none ↦ none
    | some (gap, port) ↦
        if is_empty gap
          && not (contains port b':')
          && not (contains s b'[')
          && not (contains rest b']')
        then some host
        else none
  ]
]

-- The host of `net.SplitHostPort`; `none` is an error.
unfoldable pub split_host : String → Option String
unfolding plain_host bracketed_host
split_host [] = none
split_host (c ∷ s) = if eqb (code c) b'[' then bracketed_host s else plain_host (c ∷ s)

-- The address of the socket.
unfoldable pub socket_ip : Request → String
unfolding split_host
socket_ip r = elim (split_host r.remote_addr) [ none ↦ r.remote_addr | some host ↦ host ]

-- `clientIP`
unfoldable pub client_ip : Bool → Request → String
unfolding socket_ip split_first trim_space
client_ip trust_proxy r =
    let forwarded = get_header "X-Forwarded-For" r in
    if trust_proxy && not (forwarded == "")
    then trim_space (split_first forwarded b',')
    else socket_ip r

split_host_test : split_host "10.0.0.1:443" ≡ some "10.0.0.1"
unfolding split_host
split_host_test = refl
