-- ===== src/Jwks.antt =====
-- `internal/infrastructure/jwks`: the key set that the edge publishes. The package orbit-auth/token,
-- which reads the keys, and encoding/json are parameters.
use orbit_api_gateway.Base.{ℕ, String, Option, none, some}

-- `token.LoadKeySet` of a directory, its number of keys, and its document as encoding/json writes it;
-- `none` is an error.
pub record KeyLibrary (K : Type 0) : Type 0 where
  pub load_key_set : String → Option K
  pub count : K → ℕ
  pub marshal_document : K → Option String

-- `Document`
pub record Document : Type 0 where
  pub body : String
  pub keys : ℕ

abbrev document_of : ℕ → Option String → Option Document
document_of keys none = none
document_of keys (some body) = some (record { body = body; keys = keys })

-- `Load`
unfoldable pub load : {K : Type 0} → KeyLibrary K → String → Option Document
load library dir = elim (library.load_key_set dir) [
  | none ↦ none
  | some set ↦ document_of (library.count set) (library.marshal_document set)
]
