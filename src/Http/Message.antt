-- ===== src/Http/Message.antt =====
-- Requests, responses and handlers of `net/http`, as far as the edge uses them.
pub mod Reach
use orbit_api_gateway.Base.{ℕ, String, Bool, false, Option, none, some, List, [], ◌∷◌, ◌++◌}
use orbit_api_gateway.Base.Map.{Map, lookup, insert}
use orbit_api_gateway.Json.{Json}
use orbit_api_gateway.Domain.Failure.{Failure, ok, err}
use orbit_api_gateway.World.{World, Op}

-- The body as a decoder meets it: its first JSON value, if one is well formed, and the offset at
-- which that value ends.
pub record Body : Type 0 where
  pub value : Option Json
  pub value_end : ℕ

-- `StaffIdentity`
pub record StaffIdentity : Type 0 where
  pub staff_subject : String
  pub is_staff : Bool
  pub break_glass : Bool
  pub break_glass_reason : String
  pub target_org_id : String

-- The values that the middleware keeps in a request's context. A value that was never set reads
-- as the zero value, as the accessors of middleware.go answer it.
pub record Context : Type 0 where
  pub user_id : String
  pub is_staff : Bool
  pub staff_subject : String
  pub break_glass : Bool
  pub break_glass_reason : String
  pub target_org : String
  pub staff_identity : Option StaffIdentity
  pub scopes : Option (List String)

abbrev pub empty_context : Context
empty_context = record {
  user_id = "";
  is_staff = false;
  staff_subject = "";
  break_glass = false;
  break_glass_reason = "";
  target_org = "";
  staff_identity = none;
  scopes = none;
}

-- Headers are kept under their canonical names, with the first value of each.
pub record Request : Type 0 where
  pub method : String
  pub path : String
  pub path_values : Map String
  pub headers : Map String
  pub remote_addr : String
  pub body : Body
  pub context : Context

abbrev text_or_empty : Option String → String
text_or_empty none = ""
text_or_empty (some s) = s

-- `r.Header.Get`
unfoldable pub get_header : String → Request → String
unfolding lookup
get_header name r = text_or_empty (lookup name r.headers)

-- `r.Header.Set`
unfoldable pub set_request_header : String → String → Request → Request
unfolding insert
set_request_header name value r = record r { headers = insert name value r.headers }

-- `r.PathValue`
unfoldable pub path_value : String → Request → String
unfolding lookup
path_value name r = text_or_empty (lookup name r.path_values)

pub data Payload : Type 0 where
  json : Json → Payload
  text : String → Payload

-- A response writer: the headers to be sent, the status and headers that were sent with the first
-- write, and what was written.
pub record Response : Type 0 where
  pub headers : Map String
  pub sent : Option (ℕ × Map String)
  pub body : List Payload

abbrev pub fresh_response : Response
fresh_response = record { headers = []; sent = none; body = [] }

-- `w.Header().Set`
unfoldable pub set_header : String → String → Response → Response
unfolding insert
set_header name value w = record w { headers = insert name value w.headers }

abbrev first_sent : Option (ℕ × Map String) → ℕ × Map String → Option (ℕ × Map String)
first_sent none now = some now
first_sent (some before) now = some before

-- `w.WriteHeader`: only the first one counts.
unfoldable pub write_header : ℕ → Response → Response
write_header status w = record w { sent = first_sent w.sent (status, w.headers) }

-- `w.Write`: a status 200 is sent if none was.
unfoldable pub write : Payload → Response → Response
unfolding write_header
write payload w = let w' = write_header 200 w in record w' { body = w'.body ++ payload ∷ [] }

-- What a handler works on.
pub record Conn : Type 0 where
  pub world : World
  pub response : Response

-- `http.HandlerFunc`
abbrev pub HandlerFunc : Type 0
HandlerFunc = Request → Conn → Conn

-- A part of a handler: it returns early, having answered, or goes on with a value.
pub data Flow (A : Type 0) : Type 0 where
  halt : Conn → Flow A
  go : A → Conn → Flow A

abbrev pub Part : Type 0 → Type 0
Part A = Conn → Flow A

infixl 5 ◌>>=◌ ◌>>◌
abbrev pub ◌>>=◌ : {A B : Type 0} → Part A → (A → Part B) → Part B
◌>>=◌ m f c = elim (m c) [ halt c' ↦ halt c' | go a c' ↦ f a c' ]

abbrev pub ◌>>◌ : {A B : Type 0} → Part A → Part B → Part B
m >> k = m >>= λ _. k

-- A change of the response, after which the handler goes on.
abbrev pub respond : (Response → Response) → Part (Unit {0})
respond f c = go tt (record c { response = f c.response })

-- A response after which the handler returns.
abbrev pub answer : {A : Type 0} → (Response → Response) → Part A
answer f c = halt (record c { response = f c.response })

-- A call of a use case; on an error the handler renders it and returns.
abbrev pub call : {A : Type 0} → (Failure → Response → Response) → Op A → Part A
call on_error op c =
    let (r, world) = op c.world in
    elim r [
      | ok a ↦ go a (record c { world = world })
      | err f ↦ halt (record { world = world; response = on_error f c.response })
    ]

-- The end of a handler.
abbrev pub finish : {A : Type 0} → Flow A → Conn
finish (halt c) = c
finish (go a c) = c
