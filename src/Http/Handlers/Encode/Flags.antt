-- ===== src/Http/Handlers/Encode/Flags.antt =====
-- The flag document of the edge is the one that it reads from orbit-auth.
use orbit_api_gateway.Base.{◌≡◌, refl, some, List, [], ◌∷◌}
use orbit_api_gateway.Json.{of_elems}
use orbit_api_gateway.Domain.Flags.{FeatureFlag, FlagSet}
use orbit_api_gateway.Upstream.Flags.{decode_flag_list, decode_flags}
use orbit_api_gateway.Http.Handlers.Encode.{feature_flags_json, flag_set_json}

decode_flag_list-json :
    (flags : List FeatureFlag) → decode_flag_list (of_elems (feature_flags_json flags)) ≡ some flags
unfolding decode_flag_list feature_flags_json
decode_flag_list-json [] = refl
decode_flag_list-json (f ∷ flags) = rw (decode_flag_list-json flags) refl

-- Decoding the document that the flags route writes gives back the set of flags, so that a client
-- reads from the edge what the edge has read from orbit-auth.
pub decode_flags-json : (set : FlagSet) → decode_flags (flag_set_json set) ≡ some set
unfolding decode_flags flag_set_json
decode_flags-json set = let e = decode_flag_list-json set.flags in cc
