-- ===== src/Domain/Runtime.antt =====
-- What the gateway takes from outside its repository, as one record of functions, and the
-- instants that its clock reads.
use Prim.Native.Char.{Char, code}
use orbit_api_gateway.Base.{ℕ, ◌*◌, ◌/◌, ◌≤◌, ◌<◌, ◌≡◌, String, Bool, List, Option, length, All}
use orbit_api_gateway.Base.Map.{Map}
use orbit_api_gateway.Json.{Json}
use orbit_api_gateway.Base.Int.{ℤ, sub_ℕ}
use orbit_api_gateway.Base.Strings.{is_space, lower_rune}

-- `time.Time`: nanoseconds since 1 January of year 1, UTC, so that 0 is the zero time.
abbrev pub Time : Type 0
Time = ℕ

-- `time.Duration` constants, in nanoseconds.
abbrev pub second : ℕ
second = 1000000000

abbrev pub minute : ℕ
minute = 60 * second

-- The Unix epoch, in seconds since the zero time.
abbrev pub unix_epoch : ℕ
unix_epoch = 62135596800

-- `Time.Unix`
unfoldable pub unix : Time → ℤ
unix t = sub_ℕ (t / second) unix_epoch

-- `Time.UnixNano`, for instants that fit an int64.
unfoldable pub unix_nano : Time → ℤ
unix_nano t = sub_ℕ t (unix_epoch * second)

-- The functions of Go packages whose tables and ciphers are not modelled.
pub record Runtime : Type 0 where
  -- `unicode.ToLower` above ASCII
  pub wide_lower : Char → Char
  -- `cases.Title(language.Und).String`
  pub title : String → String
  -- `sha256.Sum256`, as a list of bytes
  pub sha256 : String → List ℕ
  -- `Time.UTC().String()`
  pub time_string : Time → String
  -- `Time.MarshalJSON`, without the quotes
  pub time_json : Time → String
  -- golang-jwt: the "alg" and the claims that a token's segments spell, whether its signature is
  -- the HMAC-SHA256 under a secret, and whether its time claims hold
  pub jwt_decode : String → Option (String × Map Json)
  pub jwt_signed : String → String → Bool
  pub jwt_current : Time → Map Json → Bool
  -- `orbit-rate-limiting`'s `KeyForIP` and `KeyForOrg`
  pub key_for_ip : String → String → String
  pub key_for_org : String → String → String
  -- whether `http.NewRequestWithContext` takes the text for a URL
  pub is_url : String → Bool

-- Unicode's lower-case map is idempotent, and neither makes nor removes a space.
pub record IsLowerTable (rt : Runtime) : Type 0 where
  pub idempotent :
      (c : Char) → 128 ≤ code c → lower_rune rt.wide_lower (rt.wide_lower c) ≡ rt.wide_lower c
  pub spaces : (c : Char) → 128 ≤ code c → is_space (rt.wide_lower c) ≡ is_space c

-- A digest has 32 bytes.
pub record IsDigest (rt : Runtime) : Type 0 where
  pub size : (s : String) → length (rt.sha256 s) ≡ 32
  pub bytes : (s : String) → All (λ b. b < 256) (rt.sha256 s)
