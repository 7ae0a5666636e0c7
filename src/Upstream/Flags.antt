-- ===== src/Upstream/Flags.antt =====
-- auth/flags.go: the flag document, read over HTTP.
use Prim.Native.String.{◌++◌}
use orbit_api_gateway.Base.{String, Option, none, some, List, [], ◌∷◌, ◌==◌, eqb, if◌then◌else◌}
use orbit_api_gateway.Base.Strings.{trim_space, trim_right_of}
use orbit_api_gateway.Json.{Json, Elems, nil, cons, arr, decode_field, string_field, bool_field}
use orbit_api_gateway.Grpc.{HttpReply, unreachable, answered}
use orbit_api_gateway.Domain.Failure.{Failure, Kind, app, Result, ok, err}
use orbit_api_gateway.Domain.Flags.{FeatureFlag, FlagSet}
use orbit_api_gateway.World.{Ports, Op, http_get, note_call}

abbrev bad_gateway : Failure
bad_gateway = app Kind.bad_gateway "upstream error"

infixl 5 ◌>>=◌
abbrev ◌>>=◌ {ℓ κ} : {A : Type ℓ} {B : Type κ} → Option A → (A → Option B) → Option B
none >>= k = none
some a >>= k = k a

-- Decoding of one `flagDescription`.
unfoldable pub decode_flag : Json → Option FeatureFlag
unfolding string_field bool_field
decode_flag doc = do
  name ← string_field "name" doc
  enabled ← bool_field "enabled" doc
  description ← string_field "description" doc
  some (record { name = name; enabled = enabled; description = description })

unfoldable pub decode_flag_list : Elems → Option (List FeatureFlag)
unfolding decode_flag
decode_flag_list nil = some []
decode_flag_list (cons v vs) = do
  flag ← decode_flag v
  flags ← decode_flag_list vs
  some (flag ∷ flags)

abbrev read_flags : Json → Option (List FeatureFlag)
read_flags (arr vs) = decode_flag_list vs
read_flags _ = none

-- Decoding of a `flagDocument`, and its conversion to the domain's set; a second "flags" member
-- replaces the first.
unfoldable pub decode_flags : Json → Option FlagSet
unfolding string_field decode_field decode_flag_list
decode_flags doc = do
  version ← string_field "version" doc
  flags ← decode_field read_flags [] "flags" doc
  some (record { version = version; flags = flags })

-- The set that `ListFlags` returns for an answer.
unfoldable pub flag_set_of : HttpReply → Result FlagSet
unfolding decode_flags
flag_set_of unreachable = err bad_gateway
flag_set_of (answered status none) = err bad_gateway
flag_set_of (answered status (some doc)) =
    if eqb status 200
    then elim (decode_flags doc) [ none ↦ err bad_gateway | some set ↦ ok set ]
    else err bad_gateway

-- `Client.ListFlags`, at the base URL that is configured.
unfoldable pub list_flags : Ports → String → Op FlagSet
unfolding flag_set_of
list_flags ports base w =
    if trim_space base == ""
    then (err bad_gateway, w)
    else let url = trim_right_of b'/' base ++ "/v1/flags" in
      if ports.runtime.is_url url
      then (flag_set_of (ports.auth_http w.calls url), note_call (http_get url) w)
      else (err bad_gateway, w)
